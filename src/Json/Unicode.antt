-- ===== src/Json/Unicode.antt =====
-- Escapes inside strings: `pvt_parse_hex_impl` to `pvt_parse_backlash_escapes`.
pub mod Total
pub mod Surrogates
use c_roblib.Base.{
  ℕ, zero, suc, ◌+◌, ◌-◌, ◌*◌, ◌/◌, ◌%◌, ◌^◌, Bool, true, false, ◌&&◌, ◌||◌, not, List, [], ◌∷◌,
  ◌++◌, ltb, leb, ◌==◌, if◌then◌else◌, Option, none, some, bit_or,
}
use c_roblib.Json.Error.{ErrType, is_error}
use c_roblib.Json.Parser.{
  Parser, M, Outcome, ok, null, out_of_fuel, ◌>>=◌, ◌>>◌, return, fail, get, sub_u32,
}
use c_roblib.Json.Scan.{
  current_char, peek_next_char, advance, record_error, recorded, blame, is_flag_set,
  allow_unicode_u_escape,
}
use c_roblib.Json.Utf8.{append_char, encode_utf8}

-- `pvt_hex_to_dec`; `none` is -1.
unfoldable pub hex_to_dec : ℕ → Option ℕ
hex_to_dec hex =
    if leb b'0' hex && leb hex b'9'
    then some (hex - b'0')
    else if hex == b'a' || hex == b'A'
    then some 10
    else if hex == b'b' || hex == b'B'
    then some 11
    else if hex == b'c' || hex == b'C'
    then some 12
    else if hex == b'd' || hex == b'D'
    then some 13
    else if hex == b'e' || hex == b'E'
    then some 14
    else if hex == b'f' || hex == b'F'
    then some 15
    else none

-- `isxdigit` in the C locale
abbrev pub is_xdigit : ℕ → Bool
is_xdigit c = leb b'0' c && leb c b'9' || leb b'a' c && leb c b'f' || leb b'A' c && leb c b'F'

-- What is shifted in for a digit, `(uint32_t) pvt_hex_to_dec(c)`.
abbrev pub digit_value : Option ℕ → ℕ
digit_value none = 2 ^ 32 - 1
digit_value (some d) = d

-- `result * 16 | dec_value`
unfoldable pub shift_in : ℕ → ℕ → ℕ
unfolding hex_to_dec
shift_in result c = bit_or (result * 16 % 2 ^ 32) (digit_value (hex_to_dec c))

-- The loop of `pvt_parse_hex_impl` over the digits left. After an error it returns 0, and the
-- caller looks at the error record.
abbrev note_error : ErrType → M ℕ
note_error e p = (ok 0, recorded e p)

unfoldable pub parse_hex_loop : ℕ → ℕ → M ℕ
unfolding shift_in
parse_hex_loop zero result = return result
parse_hex_loop (suc left) result = do
  c ← get current_char
  (if c == 0
      then note_error ErrType.unexpected_eof
      else if not (is_xdigit c)
      then note_error ErrType.invalid_unicode_escape
      else (do advance 1; parse_hex_loop left (shift_in result c)))

unfoldable pub parse_hex : ℕ → M ℕ
unfolding parse_hex_loop
parse_hex num_chars = parse_hex_loop num_chars 0

-- `if (error->err_type != JSON_ERR_NONE) return nullptr;`
unfoldable pub check_error : M (Unit {0})
check_error p = if is_error p.error.err_type then (null, p) else (ok tt, p)

-- A string builder in place of `nullptr`.
abbrev or_keep : List ℕ → Outcome (List ℕ) × Parser → Outcome (List ℕ) × Parser
or_keep sb (null, q) = (ok sb, q)
or_keep sb (ok sb', q) = (ok sb', q)
or_keep sb (out_of_fuel, q) = (out_of_fuel, q)

-- The call of `pvt_encode_utf8` whose result `pvt_parse_unicode_escape` does not look at: after an
-- error the string builder is returned as it was.
unfoldable pub encode_unchecked : ℕ → List ℕ → M (List ℕ)
unfolding encode_utf8
encode_unchecked codepoint sb p = or_keep sb (encode_utf8 codepoint sb p)

-- An error whose place is moved back by `n` bytes.
abbrev record_error_back {ℓ} : {A : Type ℓ} → ErrType → ℕ → M A
record_error_back err_type n p =
    (null, blame (sub_u32 p.current_byte_index n) (recorded err_type p))

-- `0x10000 + ((cp1 - 0xD800) << 10) + (cp2 - 0xDC00)`
unfoldable pub combine : ℕ → ℕ → ℕ
combine cp1 cp2 = 0x10000 + (cp1 - 0xd800) * 2 ^ 10 + (cp2 - 0xdc00)

abbrev pub is_low_surrogate : ℕ → Bool
is_low_surrogate c = leb 0xdc00 c && leb c 0xdfff

abbrev pub is_high_surrogate : ℕ → Bool
is_high_surrogate c = leb 0xd800 c && leb c 0xdbff

abbrev next_is_u : Parser → Bool
next_is_u p = elim (peek_next_char p) [ some c ↦ c == b'u' | none ↦ false ]

-- The second escape of a surrogate pair.
unfoldable pub low_surrogate : ℕ → M ℕ
unfolding parse_hex combine check_error
low_surrogate cp1 = do
  advance 2
  v ← parse_hex 4
  check_error
  let cp2 = v % 2 ^ 16
  (if is_low_surrogate cp2
      then return (combine cp1 cp2)
      else record_error_back ErrType.no_following_low_surrogate 4)

-- What follows the first four digits of a `\u` escape, up to the code point.
unfoldable pub code_point : ℕ → M ℕ
unfolding low_surrogate
code_point cp1 =
    if is_low_surrogate cp1
    then record_error_back ErrType.no_preceding_high_surrogate 6
    else if is_high_surrogate cp1
    then (do
      c ← get current_char
      u ← get next_is_u
      (if not (c == b'\\') || not u
          then record_error ErrType.no_following_low_surrogate
          else low_surrogate cp1))
    else return cp1

-- `pvt_parse_unicode_escape` at `U`
unfoldable pub parse_long_escape : List ℕ → M (List ℕ)
unfolding parse_hex check_error encode_unchecked
parse_long_escape sb = do
  allowed ← get (is_flag_set allow_unicode_u_escape)
  (if not allowed then record_error ErrType.invalid_escape_sequence else (do
    advance 1
    full_codepoint ← parse_hex 6
    check_error
    encode_unchecked full_codepoint sb))

-- `pvt_parse_unicode_escape`
unfoldable pub parse_unicode_escape : List ℕ → M (List ℕ)
unfolding parse_long_escape code_point
parse_unicode_escape sb = do
  c ← get current_char
  (if c == b'U' then parse_long_escape sb else (do
    advance 1
    v ← parse_hex 4
    check_error
    cp ← code_point (v % 2 ^ 16)
    encode_unchecked cp sb))

abbrev escaped : List ℕ → ℕ → M (List ℕ)
escaped sb c = do advance 1; return (append_char sb c)

-- `pvt_parse_backlash_escapes`
unfoldable pub parse_backlash_escapes : List ℕ → M (List ℕ)
unfolding parse_unicode_escape
parse_backlash_escapes sb = do
  advance 1
  c ← get current_char
  (if c == 0
      then record_error ErrType.unexpected_eof
      else if c == b'"' || c == b'\\' || c == b'/'
      then escaped sb c
      else if c == b'b'
      then escaped sb 8
      else if c == b'f'
      then escaped sb 12
      else if c == b'n'
      then escaped sb 10
      else if c == b'r'
      then escaped sb 13
      else if c == b't'
      then escaped sb 9
      else if c == b'u' || c == b'U'
      then parse_unicode_escape sb
      else record_error ErrType.invalid_escape_sequence)
