-- ===== src/Json/Utf8/Complete.antt =====
-- `pvt_validate_utf8` on the encoding of a code point.
use c_roblib.Base.{ℕ, ◌+◌, ◌≤◌, ◌<◌, ◌≡◌, ◌⊎◌, refl, ap, ◌∙◌, List, [], ◌∷◌, arith, length, drop}
use native.Mathlib.Decide.{dec_lt}
use c_roblib.Json.Parser.{Parser, ok}
use c_roblib.Json.Scan.{current_char, advanced}
use c_roblib.Json.Scan.Moves.{IsReady, Onward-IsReady, advanced-Moves}
use c_roblib.Json.Utf8.{append_chars, sequence, validate_utf8, encoded}
use c_roblib.Json.Utf8.RoundTrip.{utf8, encoded-utf8}
use c_roblib.Base.{◌++◌, drop-cons}
use c_roblib.Json.Utf8.Branches.{step_on, Ahead, sequence-1, sequence-2, sequence-3, sequence-4}

-- The text from the parser's place on.
abbrev pub remaining : Parser → List ℕ
remaining p = drop p.current_byte_index p.text

record Passed (p : Parser) (bs rest : List ℕ) : Type 0 where
  ahead : Ahead p bs
  behind : remaining (step_on (length bs) p) ≡ rest
  error : (step_on (length bs) p).error ≡ p.error

passed_lem :
    (bs rest : List ℕ) (p : Parser)
    → IsReady p
    → remaining p ≡ bs ++ rest
    → p.current_byte_index + length bs ≤ p.length_bytes
    → Passed p bs rest
unfolding Ahead step_on
passed_lem [] rest p r e room = record { ahead = tt; behind = e; error = refl }
passed_lem (b ∷ bs) rest p r e room =
    let (low, at, next) =
      drop-cons p.current_byte_index (p.current_byte_index + 1) p.text 0 e refl in
    let inside : p.current_byte_index < p.length_bytes = omega (arith, room) in
    let move = advanced-Moves 1 r (omega arith) in
    let later : remaining (advanced p 1) ≡ bs ++ rest = rw (move.at, move.onward.text) next in
    let more =
      passed_lem bs rest (advanced p 1) (Onward-IsReady r move.onward) later
        (omega (arith, room, move.at, move.onward.length_bytes)) in
    record {
      ahead = (inside, at, more.ahead);
      behind = more.behind;
      error = more.error ∙ move.error;
    }

-- The branches together.
by_bytes :
    (p : Parser) (c b : ℕ) (bs : List ℕ)
    → utf8 c ≡ b ∷ bs
    → (Ahead p (b ∷ bs) → sequence b p ≡ (ok (b ∷ bs), step_on (length (b ∷ bs)) p))
    → Ahead p (utf8 c)
    → sequence (current_char p) p ≡ (ok (utf8 c), step_on (length (utf8 c)) p)
unfolding Ahead
by_bytes p c b bs e run ahead =
    let there : Ahead p (b ∷ bs) = rw e at ahead in rw (e, there.1) (run there)

sequence_accepts :
    (p : Parser) (c : ℕ)
    → c ≤ 0x10ffff
    → (c < 0xd800) ⊎ (0xdfff < c)
    → Ahead p (utf8 c)
    → sequence (current_char p) p ≡ (ok (utf8 c), step_on (length (utf8 c)) p)
unfolding utf8
sequence_accepts p c h scalar = elim (dec_lt c 0x80) [
  | yes one ↦ by_bytes p c _ _ (ground arith) (λ _. sequence-1 p c (omega arith))
  | no past_one ↦ elim (dec_lt c 0x800) [
    | yes two ↦ by_bytes p c _ _ (ground arith) (sequence-2 p c (omega arith) (omega arith))
    | no past_two ↦ elim (dec_lt c 0x10000) [
      | yes three ↦
          by_bytes p c _ _ (ground arith) (sequence-3 p c (omega arith) (omega arith) scalar)
      | no four ↦ by_bytes p c _ _ (ground arith) (sequence-4 p c (omega arith) h)
    ]
  ]
]

-- Where the text goes on, in its `length_bytes`, with the encoding of a code point up to 0x10ffff
-- that is no surrogate,
-- `pvt_validate_utf8` accepts it: the string builder gets exactly those bytes (a NUL adds nothing to
-- it), the text goes on behind them, and no error is recorded.
pub validate_utf8_complete :
    (sb rest : List ℕ) (c : ℕ) (p : Parser)
    → IsReady p
    → c ≤ 0x10ffff
    → (c < 0xd800) ⊎ (0xdfff < c)
    → remaining p ≡ encoded c ++ rest
    → p.current_byte_index + length (encoded c) ≤ p.length_bytes
    → let (out, q) = validate_utf8 sb p in
      (out ≡ ok (append_chars sb (encoded c))) × (remaining q ≡ rest) × (q.error ≡ p.error)
unfolding validate_utf8
validate_utf8_complete sb rest c p r h scalar e inside =
    let e' : remaining p ≡ utf8 c ++ rest = e ∙ ap (λ bs. bs ++ rest) (encoded-utf8 c h) in
    let passed = passed_lem (utf8 c) rest p r e' (rw (encoded-utf8 c h) at inside) in
    rw (encoded-utf8 c h, sequence_accepts p c h scalar passed.ahead)
      (refl, passed.behind, passed.error)
