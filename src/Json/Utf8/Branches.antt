-- ===== src/Json/Utf8/Branches.antt =====
-- Every branch of `pvt_validate_utf8` on the sequences that are meant for it.
use c_roblib.Base.{
  ℕ, zero, suc, ◌+◌, ◌/◌, ◌%◌, ◌≤◌, ◌<◌, ◌≡◌, ◌≢◌, ◌⊎◌, inl, inr, refl, ap, ◌∙◌, List, [], ◌∷◌,
  arith,
}
use native.Mathlib.Decide.{dec_lt}
use c_roblib.Json.Error.{ErrType}
use c_roblib.Json.Parser.{Parser, ok}
use c_roblib.Json.Scan.{current_char, advanced}
use c_roblib.Json.Utf8.{
  continuation, validate_continuation_byte, reject_between, one_byte, two_bytes, three_bytes_from,
  three_bytes_e0, three_bytes, three_bytes_ed, four_bytes_from, four_bytes_f0, four_bytes,
  four_bytes_f4, sequence,
}

-- `n` moves of one byte.
unfoldable pub step_on : ℕ → Parser → Parser
step_on zero p = p
step_on (suc n) p = step_on n (advanced p 1)

-- The bytes of the text from the parser's place on are these, and more may follow.
unfoldable pub Ahead : Parser → List ℕ → Type 0
Ahead p [] = Unit
Ahead p (b ∷ bs) =
    (p.current_byte_index < p.length_bytes) × (current_char p ≡ b) × Ahead (advanced p 1) bs

continuation_accepts :
    (low high : ℕ) (p : Parser)
    → low ≤ current_char p
    → current_char p ≤ high
    → continuation low high p ≡ (ok (current_char p), advanced p 1)
unfolding continuation validate_continuation_byte
continuation_accepts low high p lo hi = ground arith

reject_accepts :
    (low high : ℕ) (e : ErrType) (p : Parser)
    → (current_char p < low) ⊎ (high < current_char p)
    → reject_between low high e p ≡ (ok tt, p)
unfolding reject_between
reject_accepts low high e p (inl h) = ground arith
reject_accepts low high e p (inr h) = ground arith

-- A continuation byte whose value is known.
module _ (low high b : ℕ) (p : Parser) (at : current_char p ≡ b) where
  reads_byte : low ≤ b → b ≤ high → continuation low high p ≡ (ok b, advanced p 1)
  reads_byte lo hi =
      continuation_accepts low high p (omega arith) (omega arith)
      ∙ ap (λ c. (ok c, advanced p 1)) at

module _ (lead b2 b3 : ℕ) (q : Parser) where
  two_accepts :
      (p : Parser)
      → current_char (advanced p 1) ≡ b2
      → 0x80 ≤ b2
      → b2 ≤ 0xbf
      → two_bytes lead p ≡ (ok (lead ∷ b2 ∷ []), step_on 2 p)
  unfolding two_bytes step_on
  two_accepts p at lo hi = rw (reads_byte 0x80 0xbf b2 (advanced p 1) at lo hi) refl

  three_accepts :
      (low high : ℕ)
      → current_char q ≡ b2
      → current_char (advanced q 1) ≡ b3
      → low ≤ b2
      → b2 ≤ high
      → 0x80 ≤ b3
      → b3 ≤ 0xbf
      → three_bytes_from lead low high q ≡ (ok (lead ∷ b2 ∷ b3 ∷ []), step_on 2 q)
  unfolding three_bytes_from step_on
  three_accepts low high at2 at3 lo hi lo3 hi3 =
      rw (reads_byte low high b2 q at2 lo hi, reads_byte 0x80 0xbf b3 (advanced q 1) at3 lo3 hi3)
        refl

  four_accepts :
      (low high b4 : ℕ)
      → current_char q ≡ b2
      → current_char (advanced q 1) ≡ b3
      → current_char (advanced (advanced q 1) 1) ≡ b4
      → low ≤ b2
      → b2 ≤ high
      → 0x80 ≤ b3
      → b3 ≤ 0xbf
      → 0x80 ≤ b4
      → b4 ≤ 0xbf
      → four_bytes_from lead low high q ≡ (ok (lead ∷ b2 ∷ b3 ∷ b4 ∷ []), step_on 3 q)
  unfolding four_bytes_from step_on
  four_accepts low high b4 at2 at3 at4 lo hi lo3 hi3 lo4 hi4 =
      rw
        (
          reads_byte low high b2 q at2 lo hi,
          reads_byte 0x80 0xbf b3 (advanced q 1) at3 lo3 hi3,
          reads_byte 0x80 0xbf b4 (advanced (advanced q 1) 1) at4 lo4 hi4,
        )
        refl

-- Code points by the length of their encoding.
pub sequence-1 : (p : Parser) (c : ℕ) → c ≤ 127 → sequence c p ≡ (ok (c ∷ []), step_on 1 p)
unfolding sequence one_byte step_on
sequence-1 p c h = ground arith

pub sequence-2 :
    (p : Parser) (c : ℕ)
    → 127 < c
    → c ≤ 0x7ff
    → Ahead p ((0xc0 + c / 64) ∷ (0x80 + c % 64) ∷ [])
    → sequence (0xc0 + c / 64) p ≡ (ok ((0xc0 + c / 64) ∷ (0x80 + c % 64) ∷ []), step_on 2 p)
unfolding sequence Ahead
sequence-2 p c lo hi (_, _, (_, at2, _)) =
    branch ∙ two_accepts (0xc0 + c / 64) (0x80 + c % 64) 0 p p at2 (omega arith) (omega arith)
  where
    branch : sequence (0xc0 + c / 64) p ≡ two_bytes (0xc0 + c / 64) p
    branch = ground arith

-- The lead byte selects the branch.
module _ (lead : ℕ) (p : Parser) where
  branch_e0 : lead ≡ 0xe0 → sequence lead p ≡ three_bytes_e0 lead p
  unfolding sequence
  branch_e0 e = ground arith

  branch_3 : (0xe1 ≤ lead) → lead ≤ 0xef → lead ≢ 0xed → sequence lead p ≡ three_bytes lead p
  unfolding sequence
  branch_3 lo hi ne = ground arith

  branch_ed : lead ≡ 0xed → sequence lead p ≡ three_bytes_ed lead p
  unfolding sequence
  branch_ed e = ground arith

  branch_f0 : lead ≡ 0xf0 → sequence lead p ≡ four_bytes_f0 lead p
  unfolding sequence
  branch_f0 e = ground arith

  branch_4 : 0xf1 ≤ lead → lead ≤ 0xf3 → sequence lead p ≡ four_bytes lead p
  unfolding sequence
  branch_4 lo hi = ground arith

  branch_f4 : lead ≡ 0xf4 → sequence lead p ≡ four_bytes_f4 lead p
  unfolding sequence
  branch_f4 e = ground arith

module _ (p : Parser) (c : ℕ) (lo : 0x7ff < c) (hi : c ≤ 0xffff) where
  abbrev lead_3 : ℕ
  lead_3 = 0xe0 + c / 4096

  abbrev second_3 : ℕ
  second_3 = 0x80 + c / 64 % 64

  abbrev third_3 : ℕ
  third_3 = 0x80 + c % 64

  pub sequence-3 :
      (c < 0xd800) ⊎ (0xdfff < c)
      → Ahead p (lead_3 ∷ second_3 ∷ third_3 ∷ [])
      → sequence lead_3 p ≡ (ok (lead_3 ∷ second_3 ∷ third_3 ∷ []), step_on 3 p)
  unfolding Ahead three_bytes_e0 three_bytes_ed three_bytes step_on
  sequence-3 scalar (_, _, (_, at2, (_, at3, _))) = elim (dec_lt c 0x1000) [
    | yes small ↦
        let fine : 0x9f < second_3 = omega arith in
        branch_e0 lead_3 p (omega arith)
        ∙ rw
            (reject_accepts 0x80 0x9f ErrType.overlong_sequence (advanced p 1)
              (inr (omega (arith, at2, fine))))
            (three_accepts lead_3 second_3 third_3 (advanced p 1) 0xa0 0xbf at2 at3 (omega arith)
              (omega arith) (omega arith) (omega arith))
    | no large ↦ elim scalar [
      | inr above ↦
          branch_3 lead_3 p (omega arith) (omega arith) (λ e. absurd (omega arith))
          ∙ three_accepts lead_3 second_3 third_3 (advanced p 1) 0x80 0xbf at2 at3 (omega arith)
              (omega arith) (omega arith) (omega arith)
      | inl below ↦ elim (dec_lt c 0xd000) [
        | yes plain ↦
            branch_3 lead_3 p (omega arith) (omega arith) (λ e. absurd (omega arith))
            ∙ three_accepts lead_3 second_3 third_3 (advanced p 1) 0x80 0xbf at2 at3 (omega arith)
                (omega arith) (omega arith) (omega arith)
        | no last ↦
            let fine : second_3 < 0xa0 = omega arith in
            branch_ed lead_3 p (omega arith)
            ∙ rw
                (
                  reject_accepts 0xa0 0xaf ErrType.reserved_for_high_surrogate (advanced p 1)
                      (inl (omega (arith, at2, fine))),
                  reject_accepts 0xb0 0xbf ErrType.reserved_for_low_surrogate (advanced p 1)
                      (inl (omega (arith, at2, fine))),
                )
                (three_accepts lead_3 second_3 third_3 (advanced p 1) 0x80 0x9f at2 at3
                  (omega arith) (omega arith) (omega arith) (omega arith))
      ]
    ]
  ]

module _ (p : Parser) (c : ℕ) (lo : 0xffff < c) (hi : c ≤ 0x10ffff) where
  abbrev lead_4 : ℕ
  lead_4 = 0xf0 + c / 262144

  abbrev second_4 : ℕ
  second_4 = 0x80 + c / 4096 % 64

  abbrev third_4 : ℕ
  third_4 = 0x80 + c / 64 % 64

  abbrev fourth_4 : ℕ
  fourth_4 = 0x80 + c % 64

  pub sequence-4 :
      Ahead p (lead_4 ∷ second_4 ∷ third_4 ∷ fourth_4 ∷ [])
      → sequence lead_4 p ≡ (ok (lead_4 ∷ second_4 ∷ third_4 ∷ fourth_4 ∷ []), step_on 4 p)
  unfolding Ahead four_bytes_f0 four_bytes four_bytes_f4 step_on
  sequence-4 (_, _, (_, at2, (_, at3, (_, at4, _)))) =
      let accepts = four_accepts lead_4 second_4 third_4 (advanced p 1) in
      elim (dec_lt c 0x40000) [
        | yes small ↦
            let fine : 0x8f < second_4 = omega arith in
            branch_f0 lead_4 p (omega arith)
            ∙ rw
                (reject_accepts 0x80 0x8f ErrType.overlong_sequence (advanced p 1)
                  (inr (omega (arith, at2, fine))))
                (accepts 0x90 0xbf fourth_4 at2 at3 at4 (omega arith) (omega arith) (omega arith)
                  (omega arith) (omega arith) (omega arith))
        | no large ↦ elim (dec_lt c 0x100000) [
          | yes middle ↦
              branch_4 lead_4 p (omega arith) (omega arith)
              ∙ accepts 0x80 0xbf fourth_4 at2 at3 at4 (omega arith) (omega arith) (omega arith)
                  (omega arith) (omega arith) (omega arith)
          | no last ↦
              let fine : second_4 < 0x90 = omega arith in
              branch_f4 lead_4 p (omega arith)
              ∙ rw
                  (reject_accepts 0x90 0xff ErrType.codepoint_out_of_range (advanced p 1)
                    (inl (omega (arith, at2, fine))))
                  (accepts 0x80 0x8f fourth_4 at2 at3 at4 (omega arith) (omega arith) (omega arith)
                    (omega arith) (omega arith) (omega arith))
        ]
      ]
