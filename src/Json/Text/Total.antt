-- ===== src/Json/Text/Total.antt =====
-- How `pvt_parse_string` ends: the rounds of its loop.
use c_roblib.Base.{ℕ, zero, suc, ◌+◌, ◌<◌, List, [], refl, arith, Bool-cases, inl, inr, ◌==◌}
use c_roblib.Json.Error.{ErrType}
use c_roblib.Json.Parser.{Parser}
use c_roblib.Json.Scan.{current_char, advanced}
use c_roblib.Json.Scan.Moves.{IsReady, Onward-IsReady, advanced-Onward}
use c_roblib.Json.Scan.Ends.{Ends, Anything, Ends-Onward, Ends-continue}
use c_roblib.Json.Scan.Total.{Total, Total-error, Total-advance, Total-return, Passes, totality}
use c_roblib.Json.Utf8.Accepts.{validate_utf8-Passes}
use c_roblib.Json.Unicode.Total.{parse_backlash_escapes-Passes}
use c_roblib.Json.Text.{string_piece, string_loop, parse_string}

string_piece-Passes : (current_byte : ℕ) (sb : List ℕ) → Passes (string_piece current_byte sb)
unfolding string_piece
string_piece-Passes current_byte sb =
    search (totality, parse_backlash_escapes-Passes, validate_utf8-Passes)

string_loop-Ends :
    (fuel : ℕ) {p : Parser} (sb : List ℕ)
    → IsReady p
    → p.length_bytes < p.current_byte_index + fuel
    → Ends p Anything (string_loop fuel sb p)
unfolding string_loop
string_loop-Ends zero {p} sb r h = absurd (omega (arith, r.within))
string_loop-Ends (suc fuel) {p} sb r h = elim (Bool-cases (current_char p == 0)) [
  | inl e ↦ rw (e, string_loop) ((Total-error ErrType.unterminated_string refl).run p r)
  | inr inside ↦ elim (Bool-cases (current_char p == b'"')) [
    | inl e ↦ rw (inside, e, string_loop) ((Total-advance (Total-return {a = sb})).run p r)
    | inr more ↦
        rw (inside, more, string_loop)
          (Ends-continue (λ sb'. string_loop fuel sb')
            ((string_piece-Passes (current_char p) sb).pass p r (ground arith))
            (λ sb' q o passed.
              string_loop-Ends fuel sb' (Onward-IsReady r o) (omega (arith, o.length_bytes))))
  ]
]

pub parse_string-Total : Total parse_string
unfolding parse_string
parse_string-Total = record {
  run = λ p r.
      let o = advanced-Onward 1 (omega arith) r in
      Ends-Onward o
        (string_loop-Ends (suc (advanced p 1).length_bytes) [] (Onward-IsReady r o) (omega arith));
}

-- From any state of the scanner, `pvt_parse_string` comes to an end: with the string's bytes or with
-- an error record, inside the text, and with the rest of the parse's state as it was.
pub parse_string-Ends : (p : Parser) → IsReady p → Ends p Anything (parse_string p)
parse_string-Ends p r = parse_string-Total.run p r
