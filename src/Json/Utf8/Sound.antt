-- ===== src/Json/Utf8/Sound.antt =====
-- The sequences that the parts of `pvt_validate_utf8` let through.
use c_roblib.Base.{
  ℕ, zero, suc, ◌+◌, ◌-◌, ◌*◌, ◌≤◌, ◌<◌, ◌≡◌, ◌≢◌, ◌⊎◌, inl, inr, refl, sym, ap, ◌∙◌, ◌&&◌, List,
  [], ◌∷◌, ◌++◌, arith, leb, length, get_or, drop, Bool-cases, tests,
}
use c_roblib.Json.Error.{ErrType}
use c_roblib.Json.Parser.{Parser}
use c_roblib.Json.Scan.{current_char, advanced}
use c_roblib.Json.Scan.Moves.{IsReady, Onward-refl, Onward-IsReady, advanced-Moves, current-lt}
use c_roblib.Json.Scan.Ends.{Ends, done, Ends-record, Ends-continue}
use c_roblib.Json.Scan.Total.{is_error-≢}
use c_roblib.Json.Utf8.{continuation, validate_continuation_byte, three_bytes_from, four_bytes_from}
use c_roblib.Json.Utf8.RoundTrip.{utf8}
use c_roblib.Json.Utf8.Complete.{remaining}

-- The bytes read are those between two places.
abbrev pub Between : Parser → List ℕ → Parser → Type 0
Between p bs q = remaining p ≡ bs ++ remaining q

drop-get :
    (i j : ℕ) (xs : List ℕ) → i < length xs → j ≡ i + 1 → drop i xs ≡ get_or xs i 0 ∷ drop j xs
drop-get i j [] h e = absurd (omega arith)
drop-get zero zero (x ∷ xs) h e = absurd (omega arith)
drop-get zero (suc j) (x ∷ xs) h e = let f : j ≡ 0 = omega arith in rw f refl
drop-get (suc i) zero (x ∷ xs) h e = absurd (omega arith)
drop-get (suc i) (suc j) (x ∷ xs) h e = drop-get i j xs (omega arith) (omega arith)

-- A move over a byte.
pub move_between :
    (p : Parser)
    → IsReady p
    → p.current_byte_index < p.length_bytes
    → remaining p ≡ current_char p ∷ remaining (advanced p 1)
move_between p r h =
    let move = advanced-Moves 1 r (omega arith) in
    drop-get p.current_byte_index (p.current_byte_index + 1) p.text (omega (arith, r.whole)) refl
    ∙ ap (λ xs. current_char p ∷ xs) (sym (rw (move.at, move.onward.text) refl))

pub continuation_sound :
    (low high : ℕ) (p : Parser)
    → IsReady p
    → 0 < low
    → Ends p
        (λ b q. (low ≤ b) × (b ≤ high) × (remaining p ≡ b ∷ remaining q))
        (continuation low high p)
unfolding continuation validate_continuation_byte
continuation_sound low high p r some_low =
    elim (Bool-cases (leb low (current_char p) && leb (current_char p) high)) [
      | inr e ↦ rw e (Ends-record ErrType.invalid_utf8_continuation_byte (is_error-≢ refl) r)
      | inl e ↦
          let inside = current-lt r (grind (arith, tests)) in
          let move = advanced-Moves 1 r (omega arith) in
          rw e (done move.onward (ground arith, ground arith, move_between p r inside))
    ]

-- A code point that is no surrogate, and its bytes.
pub record Encodes (bs : List ℕ) : Type 0 where
  pub code : ℕ
  pub in_range : code ≤ 0x10ffff
  pub scalar : (code < 0xd800) ⊎ (0xdfff < code)
  pub bytes : bs ≡ utf8 code

pub one-Encodes : (b : ℕ) → b ≤ 127 → Encodes (b ∷ [])
unfolding utf8
one-Encodes b h = record {
  code = b;
  in_range = omega arith;
  scalar = inl (omega arith);
  bytes = ground arith;
}

pub two-Encodes :
    (b1 b2 : ℕ) → 0xc2 ≤ b1 → b1 ≤ 0xdf → 0x80 ≤ b2 → b2 ≤ 0xbf → Encodes (b1 ∷ b2 ∷ [])
unfolding utf8
two-Encodes b1 b2 lo1 hi1 lo2 hi2 = record {
  code = (b1 - 0xc0) * 64 + (b2 - 0x80);
  in_range = omega arith;
  scalar = inl (omega arith);
  bytes = ground arith;
}

pub three-Encodes :
    (b1 b2 b3 : ℕ)
    → 0xe0 ≤ b1
    → b1 ≤ 0xef
    → 0x80 ≤ b2
    → b2 ≤ 0xbf
    → 0x80 ≤ b3
    → b3 ≤ 0xbf
    → (0xe0 < b1) ⊎ (0x9f < b2)
    → (b1 ≢ 0xed) ⊎ (b2 < 0xa0)
    → Encodes (b1 ∷ b2 ∷ b3 ∷ [])
unfolding utf8
three-Encodes b1 b2 b3 lo1 hi1 lo2 hi2 lo3 hi3 long apart = record {
  code = (b1 - 0xe0) * 4096 + (b2 - 0x80) * 64 + (b3 - 0x80);
  in_range = omega arith;
  scalar = ground arith;
  bytes = ground arith;
}

pub four-Encodes :
    (b1 b2 b3 b4 : ℕ)
    → 0xf0 ≤ b1
    → b1 ≤ 0xf4
    → 0x80 ≤ b2
    → b2 ≤ 0xbf
    → 0x80 ≤ b3
    → b3 ≤ 0xbf
    → 0x80 ≤ b4
    → b4 ≤ 0xbf
    → (0xf0 < b1) ⊎ (0x8f < b2)
    → (b1 < 0xf4) ⊎ (b2 < 0x90)
    → Encodes (b1 ∷ b2 ∷ b3 ∷ b4 ∷ [])
unfolding utf8
four-Encodes b1 b2 b3 b4 lo1 hi1 lo2 hi2 lo3 hi3 lo4 hi4 long short = record {
  code = (b1 - 0xf0) * 262144 + (b2 - 0x80) * 4096 + (b3 - 0x80) * 64 + (b4 - 0x80);
  in_range = ground arith;
  scalar = inr (ground arith);
  bytes = ground arith;
}

module _ (lead low high : ℕ) (p : Parser) (r : IsReady p) (some_low : 0 < low) where
  pub three_sound :
      {Q : List ℕ → Type 0}
      → ((b2 b3 : ℕ) → low ≤ b2 → b2 ≤ high → 0x80 ≤ b3 → b3 ≤ 0xbf → Q (lead ∷ b2 ∷ b3 ∷ []))
      → Ends p
          (λ bs q. Q bs × (lead ∷ remaining p ≡ bs ++ remaining q))
          (three_bytes_from lead low high p)
  unfolding three_bytes_from
  three_sound good =
      Ends-continue _ (continuation_sound low high p r some_low) λ b2 q o (lo2, hi2, e2).
        let ready = Onward-IsReady r o in
        Ends-continue _ (continuation_sound 0x80 0xbf q ready (omega arith))
          λ b3 s o' (lo3, hi3, e3).
            done (Onward-refl (Onward-IsReady ready o'))
              (good b2 b3 lo2 hi2 lo3 hi3, ap (◌∷◌ lead) (e2 ∙ ap (◌∷◌ b2) e3))

  pub four_sound :
      {Q : List ℕ → Type 0}
      → ((b2 b3 b4 : ℕ)
          → low ≤ b2
          → b2 ≤ high
          → 0x80 ≤ b3
          → b3 ≤ 0xbf
          → 0x80 ≤ b4
          → b4 ≤ 0xbf
          → Q (lead ∷ b2 ∷ b3 ∷ b4 ∷ []))
      → Ends p
          (λ bs q. Q bs × (lead ∷ remaining p ≡ bs ++ remaining q))
          (four_bytes_from lead low high p)
  unfolding four_bytes_from
  four_sound good =
      Ends-continue _ (continuation_sound low high p r some_low) λ b2 q o (lo2, hi2, e2).
        let ready = Onward-IsReady r o in
        Ends-continue _ (continuation_sound 0x80 0xbf q ready (omega arith))
          λ b3 s o' (lo3, hi3, e3).
            let ready' = Onward-IsReady ready o' in
            Ends-continue _ (continuation_sound 0x80 0xbf s ready' (omega arith))
              λ b4 t o'' (lo4, hi4, e4). done (Onward-refl (Onward-IsReady ready' o'')) (
                good b2 b3 b4 lo2 hi2 lo3 hi3 lo4 hi4,
                ap (◌∷◌ lead) (e2 ∙ ap (◌∷◌ b2) (e3 ∙ ap (◌∷◌ b3) e4)),
              )
