-- ===== src/Json/Unicode/Total.antt =====
-- How the escapes end, and where.
use c_roblib.Base.{◌<◌}
use c_roblib.Json.Scan.{current_char}
use c_roblib.Base.{ℕ, zero, suc, List}
use c_roblib.Json.Error.{ErrType, is_error}
use c_roblib.Json.Parser.{Parser, Outcome}
use c_roblib.Json.Scan.{recorded, blame}
use c_roblib.Json.Scan.Moves.{IsReady, Onward-refl, recorded-Onward}
use c_roblib.Json.Scan.Ends.{Ends, done, failed, Anything}
use c_roblib.Json.Scan.Total.{Total, Passes, Total-return, totality, is_error-≢}
use c_roblib.Json.Utf8.Accepts.{encode_utf8-Total}
use c_roblib.Json.Unicode.{
  parse_hex_loop, parse_hex, check_error, or_keep, encode_unchecked, record_error_back, note_error,
  code_point, low_surrogate, parse_long_escape, parse_unicode_escape, parse_backlash_escapes,
}
use c_roblib.Base.{◌≡◌, true, arith, Bool-cases, inl, inr}

Total-note : (e : ErrType) → Total (note_error e)
Total-note e = record { run = λ p r. done (recorded-Onward e r) tt }

parse_hex_loop-Total : (left result : ℕ) → Total (parse_hex_loop left result)
unfolding parse_hex_loop
parse_hex_loop-Total zero result = Total-return
parse_hex_loop-Total (suc left) result =
    let rest = parse_hex_loop-Total left in search (totality, Total-note, rest)

parse_hex-Total : (num_chars : ℕ) → Total (parse_hex num_chars)
unfolding parse_hex
parse_hex-Total num_chars = parse_hex_loop-Total num_chars 0

check_error-Total : Total check_error
unfolding check_error
check_error-Total = record {
  run = λ p r. elim (Bool-cases (is_error p.error.err_type)) [
    | inl e ↦ rw e (failed (Onward-refl r) (is_error-≢ e))
    | inr e ↦ rw e (done (Onward-refl r) tt)
  ];
}

or_keep-Ends :
    {p : Parser} {out : Outcome (List ℕ) × Parser} (sb : List ℕ)
    → Ends p Anything out
    → Ends p Anything (or_keep sb out)
or_keep-Ends sb (done o _) = done o tt
or_keep-Ends sb (failed o _) = done o tt

encode_unchecked-Total : (codepoint : ℕ) (sb : List ℕ) → Total (encode_unchecked codepoint sb)
unfolding encode_unchecked
encode_unchecked-Total codepoint sb = record {
  run = λ p r. or_keep-Ends sb ((encode_utf8-Total codepoint sb).run p r);
}

module _ {A : Type 0} where
  Total-error_back :
      (e : ErrType) (n : ℕ) → is_error e ≡ true → Total (record_error_back {A = A} e n)
  unfolding blame recorded
  Total-error_back e n h = record { run = λ p r. failed (ground arith) (is_error-≢ h) }

low_surrogate-Total : (cp1 : ℕ) → Total (low_surrogate cp1)
unfolding low_surrogate
low_surrogate-Total cp1 =
    search (totality, parse_hex-Total, check_error-Total, Total-error_back) depth 9

code_point-Total : (cp1 : ℕ) → Total (code_point cp1)
unfolding code_point
code_point-Total cp1 = search (totality, Total-error_back, low_surrogate-Total) depth 9

parse_long_escape-Total : (sb : List ℕ) → Total (parse_long_escape sb)
unfolding parse_long_escape
parse_long_escape-Total sb =
    search (totality, parse_hex-Total, check_error-Total, encode_unchecked-Total) depth 9

parse_unicode_escape-Total : (sb : List ℕ) → Total (parse_unicode_escape sb)
unfolding parse_unicode_escape
parse_unicode_escape-Total sb =
    search
      (
        totality, parse_hex-Total, check_error-Total, encode_unchecked-Total, code_point-Total,
        parse_long_escape-Total,
      )
      depth 9

pub parse_backlash_escapes-Passes : (sb : List ℕ) → Passes (parse_backlash_escapes sb)
unfolding parse_backlash_escapes
parse_backlash_escapes-Passes sb = search (totality, parse_unicode_escape-Total) depth 16 fits 2000

-- At a backslash of the text, `pvt_parse_backlash_escapes` either moves forward and gives a string
-- builder, or leaves an error recorded; in both cases it stays inside the text.
pub parse_backlash_escapes-Ends :
    (sb : List ℕ) (p : Parser)
    → IsReady p
    → current_char p ≡ b'\\'
    → Ends p (λ _ q. p.current_byte_index < q.current_byte_index) (parse_backlash_escapes sb p)
parse_backlash_escapes-Ends sb p r h =
    (parse_backlash_escapes-Passes sb).pass p r (omega (arith, h))
