-- ===== src/Json/Utf8.antt =====
-- UTF-8 in the parser: `pvt_decode_utf8`, `pvt_encode_utf8` and `pvt_validate_utf8`.
pub mod RoundTrip
pub mod Accepts
pub mod Branches
pub mod Complete
pub mod Sound
pub mod Exact
use c_roblib.Base.{
  ℕ, zero, suc, ◌+◌, ◌-◌, ◌*◌, ◌/◌, ◌%◌, ◌^◌, Bool, true, false, ◌&&◌, ◌||◌, not, List, [], ◌∷◌,
  ◌++◌, ltb, leb, ◌==◌, if◌then◌else◌, length, get_or, bit_and, bit_or,
}
use c_roblib.Json.Error.{ErrType}
use c_roblib.Json.Parser.{Parser, M, Outcome, ok, null, out_of_fuel, ◌>>=◌, ◌>>◌, return, get}
use c_roblib.Json.Scan.{current_char, advance, record_error}

abbrev continue_mask : ℕ
continue_mask = 0x3f

abbrev continue_bits : ℕ
continue_bits = 0x80

-- `pvt_decode_utf8` of `num_bytes` bytes. `~0b11000000 & byte` keeps the low six bits of a byte,
-- `~0b11100000` the low five, `~0b11110000` the low four, and `continue_mask` the low six.
unfoldable pub decode_utf8 : ℕ → List ℕ → ℕ
decode_utf8 num_bytes bytes =
    if num_bytes == 1
    then at 0
    else if num_bytes == 2
    then bit_or (bit_or 0 (bit_and 0x3f (at 0) * 2 ^ 6)) (bit_and continue_mask (at 1))
    else if num_bytes == 3
    then (bit_or
        (bit_or (bit_or 0 (bit_and 0x1f (at 0) * 2 ^ 12)) (bit_and continue_mask (at 1) * 2 ^ 6))
        (bit_and continue_mask (at 2)))
    else if num_bytes == 4
    then (bit_or
        (bit_or
          (bit_or (bit_or 0 (bit_and 0x0f (at 0) * 2 ^ 18)) (bit_and continue_mask (at 1) * 2 ^ 12))
          (bit_and continue_mask (at 2) * 2 ^ 6))
        (bit_and continue_mask (at 3)))
    else 2 ^ 32 - 1
  where
    at : ℕ → ℕ
    at i = get_or bytes i 0

-- `sb_append_char`: the terminator adds nothing.
abbrev pub append_char : List ℕ → ℕ → List ℕ
append_char sb c = if c == 0 then sb else sb ++ c ∷ []

abbrev pub append_chars : List ℕ → List ℕ → List ℕ
append_chars sb [] = sb
append_chars sb (c ∷ cs) = append_chars (append_char sb c) cs

-- The bytes that `pvt_encode_utf8` appends for a code point that it accepts.
unfoldable pub encoded : ℕ → List ℕ
encoded codepoint =
    if leb codepoint 127
    then codepoint ∷ []
    else if leb codepoint 0x7ff
    then bit_or 0xc0 (codepoint / 2 ^ 6 % 256)
      ∷ bit_or continue_bits (bit_and codepoint continue_mask % 256)
      ∷ []
    else if leb codepoint 0xffff
    then bit_or 0xe0 (codepoint / 2 ^ 12 % 256)
      ∷ bit_or continue_bits (bit_and (codepoint / 2 ^ 6) continue_mask % 256)
      ∷ bit_or continue_bits (bit_and codepoint continue_mask % 256)
      ∷ []
    else bit_or 0xf0 (codepoint / 2 ^ 18 % 256)
      ∷ bit_or continue_bits (bit_and (codepoint / 2 ^ 12) continue_mask % 256)
      ∷ bit_or continue_bits (bit_and (codepoint / 2 ^ 6) continue_mask % 256)
      ∷ bit_or continue_bits (bit_and codepoint continue_mask % 256)
      ∷ []

-- `pvt_encode_utf8`: the new string builder, or an error record.
unfoldable pub encode_utf8 : ℕ → List ℕ → M (List ℕ)
encode_utf8 codepoint sb =
    if leb 0xd800 codepoint && leb codepoint 0xdfff
    then if ltb codepoint 0xdc00
      then record_error ErrType.reserved_for_high_surrogate
      else record_error ErrType.reserved_for_low_surrogate
    else if leb codepoint 0x10ffff
    then return (append_chars sb (encoded codepoint))
    else record_error ErrType.codepoint_out_of_range

-- `pvt_validate_utf8_continuation_byte`
unfoldable pub validate_continuation_byte : ℕ → ℕ → M (Unit {0})
validate_continuation_byte start_range end_range = do
  next_byte ← get current_char
  (if leb start_range next_byte && leb next_byte end_range
      then return tt
      else record_error ErrType.invalid_utf8_continuation_byte)

-- A continuation byte from the range: checked, read and passed.
unfoldable pub continuation : ℕ → ℕ → M ℕ
unfolding validate_continuation_byte
continuation start_range end_range = do
  validate_continuation_byte start_range end_range
  current_byte ← get current_char
  advance 1
  return current_byte

-- A check of the second byte that comes before the range check.
unfoldable pub reject_between : ℕ → ℕ → ErrType → M (Unit {0})
reject_between low high err_type = do
  current_byte ← get current_char
  if leb low current_byte && leb current_byte high then record_error err_type else return tt

-- The branches of `pvt_validate_utf8`, each entered at its lead byte. The result is the sequence
-- read, which the code appends to the string builder.
unfoldable pub two_bytes : ℕ → M (List ℕ)
unfolding continuation
two_bytes lead_byte = do
  advance 1
  second ← continuation 0x80 0xbf
  return (lead_byte ∷ second ∷ [])

unfoldable pub three_bytes_from : ℕ → ℕ → ℕ → M (List ℕ)
unfolding continuation
three_bytes_from lead_byte low high = do
  second ← continuation low high
  third ← continuation 0x80 0xbf
  return (lead_byte ∷ second ∷ third ∷ [])

unfoldable pub three_bytes_e0 : ℕ → M (List ℕ)
unfolding three_bytes_from reject_between
three_bytes_e0 lead_byte = do
  advance 1
  reject_between 0x80 0x9f ErrType.overlong_sequence
  three_bytes_from lead_byte 0xa0 0xbf

unfoldable pub three_bytes : ℕ → M (List ℕ)
unfolding three_bytes_from
three_bytes lead_byte = do advance 1; three_bytes_from lead_byte 0x80 0xbf

unfoldable pub three_bytes_ed : ℕ → M (List ℕ)
unfolding three_bytes_from reject_between
three_bytes_ed lead_byte = do
  advance 1
  reject_between 0xa0 0xaf ErrType.reserved_for_high_surrogate
  reject_between 0xb0 0xbf ErrType.reserved_for_low_surrogate
  three_bytes_from lead_byte 0x80 0x9f

unfoldable pub four_bytes_from : ℕ → ℕ → ℕ → M (List ℕ)
unfolding continuation
four_bytes_from lead_byte low high = do
  second ← continuation low high
  third ← continuation 0x80 0xbf
  fourth ← continuation 0x80 0xbf
  return (lead_byte ∷ second ∷ third ∷ fourth ∷ [])

unfoldable pub four_bytes_f0 : ℕ → M (List ℕ)
unfolding four_bytes_from reject_between
four_bytes_f0 lead_byte = do
  advance 1
  reject_between 0x80 0x8f ErrType.overlong_sequence
  four_bytes_from lead_byte 0x90 0xbf

unfoldable pub four_bytes : ℕ → M (List ℕ)
unfolding four_bytes_from
four_bytes lead_byte = do advance 1; four_bytes_from lead_byte 0x80 0xbf

unfoldable pub four_bytes_f4 : ℕ → M (List ℕ)
unfolding four_bytes_from reject_between
four_bytes_f4 lead_byte = do
  advance 1
  reject_between 0x90 0xff ErrType.codepoint_out_of_range
  four_bytes_from lead_byte 0x80 0x8f

unfoldable pub one_byte : ℕ → M (List ℕ)
one_byte lead_byte = do advance 1; return (lead_byte ∷ [])

-- The lead byte selects the branch.
unfoldable pub sequence : ℕ → M (List ℕ)
unfolding one_byte two_bytes three_bytes_e0 three_bytes three_bytes_ed four_bytes_f0 four_bytes
    four_bytes_f4
sequence lead_byte =
    if leb lead_byte 127
    then one_byte lead_byte
    else if leb 0xc2 lead_byte && leb lead_byte 0xdf
    then two_bytes lead_byte
    else if lead_byte == 0xe0
    then three_bytes_e0 lead_byte
    else if leb 0xe1 lead_byte && leb lead_byte 0xec
    then three_bytes lead_byte
    else if lead_byte == 0xed
    then three_bytes_ed lead_byte
    else if leb 0xee lead_byte && leb lead_byte 0xef
    then three_bytes lead_byte
    else if lead_byte == 0xf0
    then four_bytes_f0 lead_byte
    else if leb 0xf1 lead_byte && leb lead_byte 0xf3
    then four_bytes lead_byte
    else if lead_byte == 0xf4
    then four_bytes_f4 lead_byte
    else if leb 0xc0 lead_byte && leb lead_byte 0xc1
    then record_error ErrType.overlong_sequence
    else record_error ErrType.invalid_utf8_start_byte

-- `pvt_validate_utf8`: the new string builder, or an error record.
unfoldable pub validate_utf8 : List ℕ → M (List ℕ)
unfolding sequence
validate_utf8 sb = do
  lead_byte ← get current_char
  bytes ← sequence lead_byte
  return (append_chars sb bytes)
