-- ===== src/Tests/Documents.antt =====
-- The parser run on short documents.
use Prim.Native.Char.{code}
use Prim.Native.String.{String}
use c_roblib.Base.{inl, ℕ, List, [], ◌∷◌, ◌<◌, some, ◌≡◌, ◌≤◌, ◌⊎◌, ◌++◌, refl, true, arith, length}
use c_roblib.Base.Int.{pos, negsuc}
use c_roblib.Json.Error.{ErrType, ParseError}
use c_roblib.Json.Parser.{Parser, Outcome, ok}
use c_roblib.Json.Tree.{
  JsonValue, json_null, json_boolean, json_long, json_string, json_array, json_object, no_elements,
  element, no_entries, entry,
}
use c_roblib.Json.Document.{Config, Parsed, start, parse_string_document, parse_string_ex}
use c_roblib.Json.Document.Total.{
  Settled, parse_string_document-Settled, parse_string_ex-Settled, start-IsReady,
}
use c_roblib.Json.Value.{parse_value, parse_array, nested}
use c_roblib.Json.Value.Limits.{Nested, nested_lem}
use c_roblib.Json.Text.{parse_string}
use c_roblib.Json.Number.{parse_number}
use c_roblib.Json.Utf8.{append_chars, validate_utf8, decode_utf8, encoded}
use c_roblib.Json.Utf8.Exact.{validate_utf8_sound}
use c_roblib.Json.Utf8.Complete.{remaining, validate_utf8_complete}
use c_roblib.Json.Utf8.RoundTrip.{decode-encoded}
use c_roblib.Json.Unicode.{parse_backlash_escapes, combine, is_high_surrogate, is_low_surrogate}
use c_roblib.Json.Scan.Ends.{Ends}

abbrev codes : String → List ℕ
codes String.[] = []
codes (String.◌∷◌ c s) = code c ∷ codes s

abbrev defaults : Config
defaults = record {
  config_flags = 0;
  depth_max = 64;
  whitespace_chars = b' ' ∷ b'\t' ∷ b'\n' ∷ b'\r' ∷ [];
  decimal_separator = b'.';
}

abbrev blank : ParseError
blank = record {
  err_type = ErrType.none;
  first_bad_char = 0;
  line = 0;
  column = 0;
  parse_start = 0;
  parse_end = 0;
  lab_offset = 0;
  look_behind_buffer = [];
  look_ahead_buffer = [];
}

abbrev parsed : String → Outcome JsonValue
parsed s = (parse_string_document defaults (some (codes s)) blank).0

abbrev reason : String → ErrType
reason s = (parse_string_document defaults (some (codes s)) blank).1.err_type

runs_array :
    parsed "[1, true,\n -20 ]"
    ≡ ok (
        json_array (
          element
            (json_long (pos 1))
            (element (json_boolean true) (element (json_long (negsuc 19)) no_elements))))
unfolding parse_string_document c_roblib.Json.Document.text_is_null_or_empty
    c_roblib.Json.Document.parse_document start c_roblib.Json.Scan.peek_lookahead_chars
    c_roblib.Json.Scan.skip_whitespace c_roblib.Json.Scan.until_nul c_roblib.Json.Scan.advanced
    c_roblib.Json.Scan.skip_one parse_value nested c_roblib.Json.Value.parse_scalar
    c_roblib.Json.Value.parse_key c_roblib.Json.Value.separator c_roblib.Json.Value.close_array
    c_roblib.Json.Value.close_object parse_number parse_string validate_utf8 parse_backlash_escapes
    encoded c_roblib.Json.Tree.copy_elements c_roblib.Json.Tree.copy_entries
    c_roblib.Json.Scan.is_flag_set c_roblib.Json.Scan.blame c_roblib.Json.Scan.recorded
    c_roblib.Json.Unicode.shift_in c_roblib.Json.Unicode.hex_to_dec
runs_array = refl

runs_object :
    parsed "{\"a\" : \"x\\u00e9\\n\" , \"c\":null}"
    ≡ ok (
        json_object (
          entry
            (b'a' ∷ [])
            (json_string (b'x' ∷ 0xc3 ∷ 0xa9 ∷ 10 ∷ []))
            (entry (b'c' ∷ []) json_null no_entries)))
unfolding parse_string_document c_roblib.Json.Document.text_is_null_or_empty
    c_roblib.Json.Document.parse_document start c_roblib.Json.Scan.peek_lookahead_chars
    c_roblib.Json.Scan.skip_whitespace c_roblib.Json.Scan.until_nul c_roblib.Json.Scan.advanced
    c_roblib.Json.Scan.skip_one parse_value nested c_roblib.Json.Value.parse_scalar
    c_roblib.Json.Value.parse_key c_roblib.Json.Value.separator c_roblib.Json.Value.close_array
    c_roblib.Json.Value.close_object parse_number parse_string validate_utf8 parse_backlash_escapes
    encoded c_roblib.Json.Tree.copy_elements c_roblib.Json.Tree.copy_entries
    c_roblib.Json.Scan.is_flag_set c_roblib.Json.Scan.blame c_roblib.Json.Scan.recorded
    c_roblib.Json.Unicode.shift_in c_roblib.Json.Unicode.hex_to_dec
runs_object = refl

runs_trailing_comma : reason "{\"a\":[],}" ≡ ErrType.trailing_comma_not_allowed
unfolding parse_string_document c_roblib.Json.Document.text_is_null_or_empty
    c_roblib.Json.Document.parse_document start c_roblib.Json.Scan.peek_lookahead_chars
    c_roblib.Json.Scan.skip_whitespace c_roblib.Json.Scan.until_nul c_roblib.Json.Scan.advanced
    c_roblib.Json.Scan.skip_one parse_value nested c_roblib.Json.Value.parse_scalar
    c_roblib.Json.Value.parse_key c_roblib.Json.Value.separator c_roblib.Json.Value.close_array
    c_roblib.Json.Value.close_object parse_number parse_string validate_utf8 parse_backlash_escapes
    encoded c_roblib.Json.Tree.copy_elements c_roblib.Json.Tree.copy_entries
    c_roblib.Json.Scan.is_flag_set c_roblib.Json.Scan.blame c_roblib.Json.Scan.recorded
    c_roblib.Json.Unicode.shift_in c_roblib.Json.Unicode.hex_to_dec
runs_trailing_comma = refl

-- A NUL that is written as an escape is lost.
runs_nul_escape : parsed "\"a\\u0000b\"" ≡ ok (json_string (b'a' ∷ b'b' ∷ []))
unfolding parse_string_document c_roblib.Json.Document.text_is_null_or_empty
    c_roblib.Json.Document.parse_document start c_roblib.Json.Scan.peek_lookahead_chars
    c_roblib.Json.Scan.skip_whitespace c_roblib.Json.Scan.until_nul c_roblib.Json.Scan.advanced
    c_roblib.Json.Scan.skip_one parse_value nested c_roblib.Json.Value.parse_scalar
    c_roblib.Json.Value.parse_key c_roblib.Json.Value.separator c_roblib.Json.Value.close_array
    c_roblib.Json.Value.close_object parse_number parse_string validate_utf8 parse_backlash_escapes
    encoded c_roblib.Json.Tree.copy_elements c_roblib.Json.Tree.copy_entries
    c_roblib.Json.Scan.is_flag_set c_roblib.Json.Scan.blame c_roblib.Json.Scan.recorded
    c_roblib.Json.Unicode.shift_in c_roblib.Json.Unicode.hex_to_dec
runs_nul_escape = refl

abbrev document : Parser
document = start defaults (codes "[1]") 3 blank

abbrev text : Parser
text = start defaults (codes "\"a\\n\"") 5 blank

abbrev escape : Parser
escape = start defaults (codes "\\n") 2 blank

parse_string_document-Settled_example :
    Settled (parse_string_document defaults (some (codes "[1,]")) blank)
parse_string_document-Settled_example =
    parse_string_document-Settled defaults (some (codes "[1,]")) blank (omega arith) (omega arith)

-- The first three of six bytes, with a NUL behind them.
parse_string_ex-Settled_example :
    Settled (parse_string_ex defaults (some (b'[' ∷ b'1' ∷ b']' ∷ 0 ∷ b'2' ∷ b'3' ∷ [])) blank 3)
parse_string_ex-Settled_example =
    parse_string_ex-Settled defaults (some (b'[' ∷ b'1' ∷ b']' ∷ 0 ∷ b'2' ∷ b'3' ∷ [])) blank 3
      (omega arith) (omega arith, omega arith, refl)

nested_lem_example : Nested (parse_array 8) document (nested (parse_array 8) document)
unfolding start
nested_lem_example = nested_lem (parse_array 8) document (omega arith)

decode-encoded_example : decode_utf8 (length (encoded 0x20ac)) (encoded 0x20ac) ≡ 0x20ac
decode-encoded_example = decode-encoded 0x20ac (omega arith)

-- The euro sign, and a letter behind it.
abbrev euro : Parser
euro = start defaults (0xe2 ∷ 0x82 ∷ 0xac ∷ b'a' ∷ []) 4 blank

validate_utf8_complete_example :
    let (out, q) = validate_utf8 [] euro in
    (out ≡ ok (append_chars [] (encoded 0x20ac)))
    × (remaining q ≡ b'a' ∷ [])
    × (q.error ≡ euro.error)
unfolding encoded start
validate_utf8_complete_example =
    validate_utf8_complete [] (b'a' ∷ []) 0x20ac euro
      (start-IsReady defaults (0xe2 ∷ 0x82 ∷ 0xac ∷ b'a' ∷ []) blank (omega arith) (omega arith))
      (omega arith) (inl (omega arith)) refl (omega arith)

validate_utf8_sound_example :
    Ends euro
      (λ out q.
        (c : ℕ) × (c ≤ 0x10ffff)
        × ((c < 0xd800) ⊎ (0xdfff < c))
        × (remaining euro ≡ encoded c ++ remaining q)
        × (out ≡ append_chars [] (encoded c)))
      (validate_utf8 [] euro)
unfolding start
validate_utf8_sound_example =
    validate_utf8_sound [] euro
      (start-IsReady defaults (0xe2 ∷ 0x82 ∷ 0xac ∷ b'a' ∷ []) blank (omega arith) (omega arith))
      (omega arith)
