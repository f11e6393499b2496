-- ===== src/Json/Number.antt =====
-- `pvt_parse_number`.
pub mod Total
use c_roblib.Base.{
  ℕ, zero, suc, ◌+◌, ◌-◌, ◌*◌, ◌^◌, Bool, true, false, not, ◌&&◌, ◌||◌, List, [], ◌∷◌, ◌++◌, ltb,
  leb, ◌==◌, if◌then◌else◌, length, Option, none, some,
}
use c_roblib.Base.Int.{ℤ, pos, negsuc}
use c_roblib.Json.Error.{ErrType}
use c_roblib.Json.Parser.{Parser, M, stop, Outcome, ok, null, out_of_fuel, ◌>>=◌, ◌>>◌, return, get}
use c_roblib.Json.Scan.{current_char, advance, record_error}
use c_roblib.Json.Tree.{JsonValue, json_long, json_double}

abbrev pub is_digit : ℕ → Bool
is_digit c = leb b'0' c && leb c b'9'

-- `pvt_add_char_to_buffer`: a buffer of 1024 bytes drops what does not fit.
unfoldable pub add_char_to_buffer : List ℕ → ℕ → List ℕ
add_char_to_buffer cb c = if ltb 1023 (length cb) then cb else cb ++ c ∷ []

-- `while (… is a digit …) { pvt_add_char_to_buffer(…); pvt_advance(context, 1); }`
unfoldable pub digits_loop : ℕ → List ℕ → M (List ℕ)
unfolding add_char_to_buffer
digits_loop zero cb = stop
digits_loop (suc fuel) cb = do
  c ← get current_char
  (if is_digit c then (do advance 1; digits_loop fuel (add_char_to_buffer cb c)) else return cb)

unfoldable pub more_digits : List ℕ → M (List ℕ)
unfolding digits_loop
more_digits cb = do fuel ← get (λ p. suc p.length_bytes); digits_loop fuel cb

-- A digit that must be there, and the digits behind it.
unfoldable pub some_digits : List ℕ → M (List ℕ)
unfolding more_digits add_char_to_buffer
some_digits cb = do
  c ← get current_char
  (if not (is_digit c)
      then record_error ErrType.invalid_number_format
      else (do advance 1; more_digits (add_char_to_buffer cb c)))

-- The value of decimal digits.
unfoldable pub digits_value : ℕ → List ℕ → ℕ
digits_value acc [] = acc
digits_value acc (c ∷ cs) = digits_value (acc * 10 + (c - b'0')) cs

abbrev pub sign_split : List ℕ → Bool × List ℕ
sign_split [] = (false, [])
sign_split (c ∷ cs) = if c == b'-' then (true, cs) else (false, c ∷ cs)

abbrev pub signed : Bool → ℕ → ℤ
signed negative zero = pos 0
signed true (suc n) = negsuc n
signed false (suc n) = pos (suc n)

-- `strtol(buffer, …, 10)` on a sign and digits; `none` is ERANGE.
unfoldable pub strtol : List ℕ → Option ℤ
unfolding digits_value
strtol cb =
    let (negative, ds) = sign_split cb in
    let n = digits_value 0 ds in
    if leb n (if negative then 2 ^ 63 else 2 ^ 63 - 1) then some (signed negative n) else none

-- `strtod` of a sign and digits overflows from the number half way past the greatest double on.
unfoldable pub strtod_overflows : List ℕ → Bool
unfolding digits_value
strtod_overflows cb = let (_, ds) = sign_split cb in leb (2 ^ 1024 - 2 ^ 970) (digits_value 0 ds)

-- "CONVERT NUMBER TO INTEGER": an integer too large for `long` becomes a double, or the long 0
-- where that overflows too.
unfoldable pub convert_integer : List ℕ → JsonValue
unfolding strtol strtod_overflows
convert_integer cb = elim (strtol cb) [
  | some n ↦ json_long n
  | none ↦ if strtod_overflows cb then json_long (pos 0) else json_double cb
]

-- The optional sign; a sign must be followed by a digit.
unfoldable pub parse_sign : M (List ℕ)
unfolding add_char_to_buffer
parse_sign = do
  c ← get current_char
  (if c == b'-'
      then (do
        advance 1
        d ← get current_char
        (if not (is_digit d)
            then record_error ErrType.invalid_number_format
            else return (add_char_to_buffer [] c)))
      else return [])

-- What the integer part leads to: the number 0, or digits with something behind them.
pub data IntegerPart : Type 0 where
  just_zero : IntegerPart
  digits_read : List ℕ → IntegerPart

abbrev pub is_exponent : ℕ → Bool
is_exponent c = c == b'e' || c == b'E'

-- "INTEGER PART"
unfoldable pub parse_integer_part : List ℕ → M IntegerPart
unfolding add_char_to_buffer more_digits
parse_integer_part cb = do
  c ← get current_char
  (if not (is_digit c)
      then record_error ErrType.invalid_number_format
      else if c == b'0'
      then (do
        advance 1
        d ← get current_char
        (if is_digit d
            then record_error ErrType.invalid_number_format
            else if not (d == b'.') && not (is_exponent d)
            then return just_zero
            else return (digits_read (add_char_to_buffer cb c))))
      else (do cb' ← more_digits cb; return (digits_read cb')))

-- "FRACTIONAL PART", at the locale's separator
unfoldable pub parse_fraction : List ℕ → M (List ℕ)
unfolding some_digits add_char_to_buffer
parse_fraction cb = do
  c ← get current_char
  separator ← get (λ p. p.decimal_separator)
  (if c == b'.' then (do advance 1; some_digits (add_char_to_buffer cb separator)) else return cb)

-- The optional sign of an exponent.
unfoldable pub parse_exponent_sign : List ℕ → M (List ℕ)
unfolding add_char_to_buffer
parse_exponent_sign cb = do
  c ← get current_char
  (if c == b'-' || c == b'+' then (do advance 1; return (add_char_to_buffer cb c)) else return cb)

unfoldable pub parse_exponent : List ℕ → M (List ℕ)
unfolding parse_exponent_sign some_digits add_char_to_buffer
parse_exponent cb = do
  c ← get current_char
  (if is_exponent c
      then (do advance 1; cb' ← parse_exponent_sign (add_char_to_buffer cb c); some_digits cb')
      else return cb)

-- From the end of the integer part on.
unfoldable pub finish_number : IntegerPart → M JsonValue
unfolding convert_integer parse_fraction parse_exponent
finish_number just_zero = return (json_long (pos 0))
finish_number (digits_read cb) = do
  c ← get current_char
  (if not (c == b'.') && not (is_exponent c)
      then return (convert_integer cb)
      else (do cb' ← parse_fraction cb; cb'' ← parse_exponent cb'; return (json_double cb'')))

-- `pvt_parse_number`
unfoldable pub parse_number : M JsonValue
unfolding parse_sign parse_integer_part finish_number
parse_number = do
  c ← get current_char
  (if c == b'.'
      then record_error ErrType.invalid_number_format
      else (do cb ← parse_sign; part ← parse_integer_part cb; finish_number part))
