-- ===== src/Json/Document.antt =====
-- Whole documents: byte order marks, `pvt_jsonp_parse_impl`, and `jsonp_parse_string`,
-- `jsonp_parse_string_using_context` and `jsonp_parse_string_ex`.
pub mod Total
use c_roblib.Base.{
  ℕ, zero, suc, ◌+◌, ◌*◌, Bool, true, false, not, ◌&&◌, ◌||◌, List, [], ◌∷◌, Option, none, some,
  ltb, leb, ◌==◌, if◌then◌else◌, length, take,
}
use c_roblib.Json.Error.{ErrType, is_error, ParseError}
use c_roblib.Json.Parser.{
  Parser, M, Outcome, ok, null, out_of_fuel, ◌>>=◌, ◌>>◌, return, fail, get, modify, add_u32,
  sub_u32,
}
use c_roblib.Json.Scan.{
  current_char, peek_lookahead_chars, advance, record_error, skip_whitespace, is_flag_set,
  fail_on_initial_bom, until_nul,
}
use c_roblib.Json.Tree.{JsonValue}
use c_roblib.Json.Value.{parse_value}
use c_roblib.Ring

abbrev bom_utf8 : List ℕ
bom_utf8 = 0xef ∷ 0xbb ∷ 0xbf ∷ []

abbrev bom_utf16_be : List ℕ
bom_utf16_be = 0xfe ∷ 0xff ∷ []

abbrev bom_utf16_le : List ℕ
bom_utf16_le = 0xff ∷ 0xfe ∷ []

abbrev bom_utf32_be : List ℕ
bom_utf32_be = 0x00 ∷ 0x00 ∷ 0xfe ∷ 0xff ∷ []

abbrev bom_utf32_le : List ℕ
bom_utf32_le = 0xff ∷ 0xfe ∷ 0x00 ∷ 0x00 ∷ []

abbrev pub is_byte : Option ℕ → ℕ → Bool
is_byte none b = false
is_byte (some c) b = c == b

-- `pvt_starts_with_bom`, from the `i`th byte on
unfoldable pub starts_with_bom : Parser → ℕ → List ℕ → Bool
starts_with_bom p i [] = true
starts_with_bom p i (b ∷ bs) = is_byte (peek_lookahead_chars p i) b && starts_with_bom p (i + 1) bs

-- `pvt_is_rejected_due_to_bom`
unfoldable pub check_bom : M (Unit {0})
unfolding starts_with_bom
check_bom = do
  utf16 ← get (λ p. starts_with_bom p 0 bom_utf16_be || starts_with_bom p 0 bom_utf16_le)
  utf32 ← get (λ p. starts_with_bom p 0 bom_utf32_be || starts_with_bom p 0 bom_utf32_le)
  utf8 ← get (λ p. starts_with_bom p 0 bom_utf8)
  forbidden ← get (is_flag_set fail_on_initial_bom)
  (if utf16
      then (do advance 2; record_error ErrType.unexpected_utf16_encoding)
      else if utf32
      then (do advance 4; record_error ErrType.unexpected_utf32_encoding)
      else if utf8
      then (do advance 3; (if forbidden then record_error ErrType.bom_not_allowed else return tt))
      else return tt)

abbrev no_error : ParseError
no_error = record {
  err_type = ErrType.none;
  first_bad_char = 0;
  line = 0;
  column = 0;
  parse_start = 0;
  parse_end = 0;
  lab_offset = 0;
  look_behind_buffer = [];
  look_ahead_buffer = [];
}

abbrev clear_error : Parser → Parser
clear_error p = record p { error = record p.error { err_type = ErrType.none } }

-- `(char) c == NUL || (char) c == EOF`: the byte 0xff is the `char` -1, which is EOF.
abbrev pub at_end : ℕ → Bool
at_end c = c == 0 || c == 0xff

-- The value, if no error was recorded on the way, and nothing but white space behind it.
unfoldable pub finish_document : JsonValue → M JsonValue
finish_document value = do
  refused ← get (λ p. is_error p.error.err_type)
  (if refused then fail else (do
    skip_whitespace
    c ← get current_char
    (if at_end c then return value else record_error ErrType.unexpected_text)))

-- Fuel for `pvt_parse_value`: twice the length of the text, and two more.
abbrev pub document_fuel : Parser → ℕ
document_fuel p = 2 * p.length_bytes + 2

-- `pvt_jsonp_parse_impl` of a string source, whose `current_char` is never EOF.
unfoldable pub parse_document : M JsonValue
unfolding check_bom finish_document
parse_document = do
  check_bom
  skip_whitespace
  c ← get current_char
  (if at_end c then record_error ErrType.empty_text else (do
    modify clear_error
    fuel ← get document_fuel
    value ← parse_value fuel
    finish_document value))

-- What a context carries from one parse to the next.
pub record Config : Type 0 where
  pub config_flags : ℕ
  pub depth_max : ℕ
  pub whitespace_chars : List ℕ
  pub decimal_separator : ℕ

-- `pvt_init_context_whitespace_table`
unfoldable pub in_whitespace : List ℕ → ℕ → Bool
in_whitespace [] c = false
in_whitespace (w ∷ ws) c = w == c || in_whitespace ws c

abbrev pub look_ahead_buf_size : ℕ
look_ahead_buf_size = 40

-- The state in which `pvt_jsonp_parse_impl` starts, over `length_bytes` bytes of a buffer.
unfoldable pub start : Config → List ℕ → ℕ → ParseError → Parser
unfolding in_whitespace
start config text length_bytes error = record {
  text = text;
  length_bytes = length_bytes;
  look_behind = Ring.new look_ahead_buf_size;
  current_byte_index = 0;
  line = 0;
  column = 0;
  parse_start = 0;
  parse_end = 0;
  depth_current = 0;
  depth_max = config.depth_max;
  config_flags = config.config_flags;
  decimal_separator = config.decimal_separator;
  ws_table = in_whitespace (until_nul config.whitespace_chars);
  error = error;
}

-- The result of a parse for the caller: the value or `nullptr`, and the error record.
abbrev pub Parsed : Type 0
Parsed = Outcome JsonValue × ParseError

abbrev pub answer : Outcome JsonValue × Parser → Parsed
answer (out, p) = (out, p.error)

-- `pvt_json_text_is_null_or_empty`
unfoldable pub text_is_null_or_empty : Option (List ℕ) → Option ParseError
text_is_null_or_empty none = some (record no_error { err_type = ErrType.null_text })
text_is_null_or_empty (some []) = some (record no_error { err_type = ErrType.empty_text })
text_is_null_or_empty (some (c ∷ cs)) =
    if c == 0 then some (record no_error { err_type = ErrType.empty_text }) else none

-- A text that passed that check.
unfoldable pub parse_checked :
    Config → Option (List ℕ) → ParseError → (List ℕ → M JsonValue) → (List ℕ → ℕ) → Parsed
parse_checked config json_text error run size = elim (text_is_null_or_empty json_text) [
  | some refused ↦ (null, refused)
  | none ↦ elim json_text [
    | none ↦ (null, error)
    | some text ↦ answer (run text (start config text (size text) error))
  ]
]

-- `jsonp_parse_string`, with the global state as `config`; `json_text` is what stands before the
-- terminator. `jsonp_parse_string_using_context` runs the same over its context.
unfoldable pub parse_string_document : Config → Option (List ℕ) → ParseError → Parsed
unfolding parse_checked
parse_string_document config json_text error =
    parse_checked config json_text error (λ _. parse_document) length

-- The check behind the parse of `jsonp_parse_string_ex`: the whole buffer must have been read.
unfoldable pub expect_end : ℕ → JsonValue → M JsonValue
expect_end buffer_size value p =
    if ltb p.current_byte_index buffer_size
    then record_error ErrType.expected_eof p
    else (ok value, p)

-- `jsonp_parse_string_ex`; `json_text` is what stands in memory from the pointer on, and
-- `buffer_size` says how much of it is parsed.
unfoldable pub parse_string_ex : Config → Option (List ℕ) → ParseError → ℕ → Parsed
unfolding parse_checked
parse_string_ex config json_text error buffer_size =
    parse_checked config json_text error (λ _. parse_document >>= expect_end buffer_size)
      (λ _. buffer_size)
