-- ===== src/Json/Text.antt =====
-- `pvt_parse_string`.
pub mod Total
use c_roblib.Base.{
  ℕ, zero, suc, ◌+◌, Bool, true, false, List, [], ◌∷◌, ◌++◌, ltb, leb, ◌==◌, if◌then◌else◌,
}
use c_roblib.Json.Error.{ErrType}
use c_roblib.Json.Parser.{Parser, M, stop, Outcome, ok, null, out_of_fuel, ◌>>=◌, ◌>>◌, return, get}
use c_roblib.Json.Scan.{current_char, advance, record_error}
use c_roblib.Json.Utf8.{validate_utf8}
use c_roblib.Json.Unicode.{parse_backlash_escapes}

-- One round of the loop at a byte that is neither the terminator nor the closing quote.
unfoldable pub string_piece : ℕ → List ℕ → M (List ℕ)
string_piece current_byte sb =
    if current_byte == b'\\'
    then parse_backlash_escapes sb
    else if leb current_byte 0x1f
    then record_error ErrType.unescaped_control_char
    else validate_utf8 sb

unfoldable pub string_loop : ℕ → List ℕ → M (List ℕ)
unfolding string_piece
string_loop zero sb = stop
string_loop (suc fuel) sb = do
  current_byte ← get current_char
  (if current_byte == 0
      then record_error ErrType.unterminated_string
      else if current_byte == b'"'
      then (do advance 1; return sb)
      else (do sb' ← string_piece current_byte sb; string_loop fuel sb'))

-- `pvt_parse_string`: the bytes of the string. Each round passes a byte, so the fuel is the length
-- and one more.
unfoldable pub parse_string : M (List ℕ)
unfolding string_loop
parse_string = do advance 1; fuel ← get (λ p. suc p.length_bytes); string_loop fuel []
