-- ===== src/Json/Number/Total.antt =====
-- How `pvt_parse_number` ends: the rounds of its digit loops.
use c_roblib.Base.{ℕ, zero, suc, ◌+◌, ◌<◌, List, arith, Bool-cases, inl, inr, tests}
use c_roblib.Json.Scan.{current_char}
use c_roblib.Json.Parser.{Parser}
use c_roblib.Json.Scan.Moves.{IsReady, Onward-refl, Onward-IsReady, advanced-Moves, current-lt}
use c_roblib.Json.Scan.Ends.{Ends, done, Anything, Ends-Onward}
use c_roblib.Json.Scan.Total.{Total, Total-return, totality}
use c_roblib.Json.Number.{
  is_digit, digits_loop, more_digits, some_digits, parse_sign, parse_integer_part, parse_fraction,
  parse_exponent_sign, parse_exponent, finish_number, parse_number, IntegerPart, just_zero,
  digits_read,
}

digits_loop-Ends :
    (fuel : ℕ) {p : Parser} (cb : List ℕ)
    → IsReady p
    → p.length_bytes < p.current_byte_index + fuel
    → Ends p Anything (digits_loop fuel cb p)
unfolding digits_loop
digits_loop-Ends zero {p} cb r h = absurd (omega (arith, r.within))
digits_loop-Ends (suc fuel) {p} cb r h = elim (Bool-cases (is_digit (current_char p))) [
  | inr e ↦ rw (e, digits_loop) (done (Onward-refl r) tt)
  | inl e ↦
      let inside = current-lt r (grind (arith, tests)) in
      let move = advanced-Moves 1 r (omega arith) in
      rw (e, digits_loop)
        (Ends-Onward move.onward (
          digits_loop-Ends fuel _ (Onward-IsReady r move.onward)
            (omega (arith, move.at, move.onward.length_bytes))))
]

more_digits-Total : (cb : List ℕ) → Total (more_digits cb)
unfolding more_digits
more_digits-Total cb = record {
  run = λ p r. digits_loop-Ends (suc p.length_bytes) cb r (omega arith);
}

some_digits-Total : (cb : List ℕ) → Total (some_digits cb)
unfolding some_digits
some_digits-Total cb = search (totality, more_digits-Total)

parse_sign-Total : Total parse_sign
unfolding parse_sign
parse_sign-Total = search totality depth 9

parse_integer_part-Total : (cb : List ℕ) → Total (parse_integer_part cb)
unfolding parse_integer_part
parse_integer_part-Total cb = search (totality, more_digits-Total) depth 12

parse_fraction-Total : (cb : List ℕ) → Total (parse_fraction cb)
unfolding parse_fraction
parse_fraction-Total cb = search (totality, some_digits-Total)

parse_exponent_sign-Total : (cb : List ℕ) → Total (parse_exponent_sign cb)
unfolding parse_exponent_sign
parse_exponent_sign-Total cb = search totality

parse_exponent-Total : (cb : List ℕ) → Total (parse_exponent cb)
unfolding parse_exponent
parse_exponent-Total cb = search (totality, parse_exponent_sign-Total, some_digits-Total) depth 9

finish_number-Total : (part : IntegerPart) → Total (finish_number part)
unfolding finish_number
finish_number-Total just_zero = Total-return
finish_number-Total (digits_read cb) =
    search (totality, parse_fraction-Total, parse_exponent-Total) depth 9

pub parse_number-Total : Total parse_number
unfolding parse_number
parse_number-Total =
    search (totality, parse_sign-Total, parse_integer_part-Total, finish_number-Total) depth 9

-- From any state of the scanner, `pvt_parse_number` comes to an end: with a number or with an error
-- record, inside the text, and with the rest of the parse's state as it was.
pub parse_number-Ends : (p : Parser) → IsReady p → Ends p Anything (parse_number p)
parse_number-Ends p r = parse_number-Total.run p r
