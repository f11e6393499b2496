-- ===== src/Json/Utf8/Exact.antt =====
-- The sequences that `pvt_validate_utf8` lets through.
use c_roblib.Base.{
  ℕ, ◌≤◌, ◌<◌, ◌≡◌, ◌⊎◌, inl, inr, refl, sym, ap, ◌∙◌, true, ◌&&◌, List, ◌∷◌, ◌++◌, arith, leb,
  ◌==◌, Bool-cases,
}
use c_roblib.Json.Error.{ErrType}
use c_roblib.Json.Parser.{Parser, M, Outcome, ◌>>◌}
use c_roblib.Json.Scan.{current_char, advanced}
use c_roblib.Json.Scan.Moves.{IsReady, Onward-refl, Onward-IsReady, advanced-Moves}
use c_roblib.Json.Scan.Ends.{Ends, done, Ends-Onward, Ends-record, Ends-continue, Ends-weaken}
use c_roblib.Json.Scan.Total.{is_error-≢}
use c_roblib.Json.Utf8.{
  append_chars, reject_between, one_byte, two_bytes, three_bytes_from, three_bytes_e0, three_bytes,
  three_bytes_ed, four_bytes_from, four_bytes_f0, four_bytes, four_bytes_f4, sequence,
  validate_utf8, encoded,
}
use c_roblib.Json.Utf8.RoundTrip.{encoded-utf8}
use c_roblib.Json.Utf8.Complete.{remaining}
use c_roblib.Json.Scan.Ends.{Ends-cases}
use c_roblib.Json.Error.{is_error}
use c_roblib.Json.Utf8.Sound.{
  Between, Encodes, move_between, continuation_sound, one-Encodes, two-Encodes, three-Encodes,
  four-Encodes, three_sound, four_sound,
}

-- A check before the range check leaves bytes outside its range to it.
reject_sound :
    {Q : List ℕ → Parser → Type 0} (low high : ℕ) (e : ErrType) (p : Parser) (k : M (List ℕ))
    → IsReady p
    → is_error e ≡ true
    → Ends p Q (k p)
    → Ends p Q ((reject_between low high e >> k) p)
unfolding reject_between
reject_sound low high e p k r err f =
    elim (Bool-cases (leb low (current_char p) && leb (current_char p) high)) [
      | inl c ↦ rw c (Ends-record e (is_error-≢ err) r)
      | inr c ↦ rw c f
    ]

module _ (p : Parser) (r : IsReady p) (inside : p.current_byte_index < p.length_bytes) where
  abbrev lead : ℕ
  lead = current_char p

  -- Behind the lead byte.
  after_lead :
      {m : Outcome (List ℕ) × Parser}
      → Ends
          (advanced p 1)
          (λ bs q. Encodes bs × (lead ∷ remaining (advanced p 1) ≡ bs ++ remaining q))
          m
      → Ends p (λ bs q. Encodes bs × Between p bs q) m
  after_lead f =
      Ends-Onward (advanced-Moves 1 r (omega arith)).onward
        (Ends-weaken f (λ bs q o (good, e). (good, move_between p r inside ∙ e)))

  next : IsReady (advanced p 1)
  next = Onward-IsReady r (advanced-Moves 1 r (omega arith)).onward

  sequence_sound : Ends p (λ bs q. Encodes bs × Between p bs q) (sequence lead p)
  unfolding sequence one_byte two_bytes three_bytes_e0 three_bytes three_bytes_ed four_bytes_f0
      four_bytes four_bytes_f4
  sequence_sound =
      Ends-cases (leb lead 127) _ _
        (λ h. after_lead (done (Onward-refl next) (one-Encodes lead (ground arith), refl)))
        λ h1.
          Ends-cases (leb 0xc2 lead && leb lead 0xdf) _ _
            (λ h. after_lead (
              Ends-continue _ (continuation_sound 0x80 0xbf (advanced p 1) next (omega arith))
                λ b2 q o (lo, hi, e).
                  done (Onward-refl (Onward-IsReady next o))
                    (two-Encodes lead b2 (ground arith) (ground arith) lo hi, ap (◌∷◌ lead) e)))
            λ h2.
              Ends-cases (lead == 0xe0) _ _
                (λ h. after_lead (
                  reject_sound 0x80 0x9f ErrType.overlong_sequence (advanced p 1)
                    (three_bytes_from lead 0xa0 0xbf) next refl
                    (three_sound lead 0xa0 0xbf (advanced p 1) next (omega arith)
                      λ b2 b3 lo2 hi2 lo3 hi3.
                        three-Encodes lead b2 b3 (ground arith) (ground arith) (omega arith) hi2 lo3
                          hi3 (inr (omega arith)) (inl (ground arith)))))
                λ h3.
                  Ends-cases (leb 0xe1 lead && leb lead 0xec) _ _
                    (λ h. after_lead (
                      three_sound lead 0x80 0xbf (advanced p 1) next (omega arith)
                        λ b2 b3 lo2 hi2 lo3 hi3.
                          three-Encodes lead b2 b3 (ground arith) (ground arith) lo2 hi2 lo3 hi3
                            (inl (ground arith)) (inl (ground arith))))
                    λ h4.
                      Ends-cases (lead == 0xed) _ _
                        (λ h. after_lead (
                          reject_sound 0xa0 0xaf ErrType.reserved_for_high_surrogate (advanced p 1)
                            (reject_between 0xb0 0xbf ErrType.reserved_for_low_surrogate
                              >> three_bytes_from lead 0x80 0x9f)
                            next refl
                            (reject_sound 0xb0 0xbf ErrType.reserved_for_low_surrogate
                              (advanced p 1) (three_bytes_from lead 0x80 0x9f) next refl
                              (three_sound lead 0x80 0x9f (advanced p 1) next (omega arith)
                                λ b2 b3 lo2 hi2 lo3 hi3.
                                  three-Encodes lead b2 b3 (ground arith) (ground arith) lo2
                                    (omega arith) lo3 hi3 (inl (ground arith))
                                    (inr (omega arith))))))
                        λ h5.
                          Ends-cases (leb 0xee lead && leb lead 0xef) _ _
                            (λ h. after_lead (
                              three_sound lead 0x80 0xbf (advanced p 1) next (omega arith)
                                λ b2 b3 lo2 hi2 lo3 hi3.
                                  three-Encodes lead b2 b3 (ground arith) (ground arith) lo2 hi2 lo3
                                    hi3 (inl (ground arith)) (inl (ground arith))))
                            λ h6.
                              Ends-cases (lead == 0xf0) _ _
                                (λ h. after_lead (
                                  reject_sound 0x80 0x8f ErrType.overlong_sequence (advanced p 1)
                                    (four_bytes_from lead 0x90 0xbf) next refl
                                    (four_sound lead 0x90 0xbf (advanced p 1) next (omega arith)
                                      λ b2 b3 b4 lo2 hi2 lo3 hi3 lo4 hi4.
                                        four-Encodes lead b2 b3 b4 (ground arith) (ground arith)
                                          (omega arith) hi2 lo3 hi3 lo4 hi4 (inr (omega arith))
                                          (inl (ground arith)))))
                                λ h7.
                                  Ends-cases (leb 0xf1 lead && leb lead 0xf3) _ _
                                    (λ h. after_lead (
                                      four_sound lead 0x80 0xbf (advanced p 1) next (omega arith)
                                        λ b2 b3 b4 lo2 hi2 lo3 hi3 lo4 hi4.
                                          four-Encodes lead b2 b3 b4 (ground arith) (ground arith)
                                            lo2 hi2 lo3 hi3 lo4 hi4 (inl (ground arith))
                                            (inl (ground arith))))
                                    λ h8.
                                      Ends-cases (lead == 0xf4) _ _
                                        (λ h. after_lead (
                                          reject_sound 0x90 0xff ErrType.codepoint_out_of_range
                                            (advanced p 1) (four_bytes_from lead 0x80 0x8f) next
                                            refl
                                            (four_sound lead 0x80 0x8f (advanced p 1) next
                                              (omega arith)
                                              λ b2 b3 b4 lo2 hi2 lo3 hi3 lo4 hi4.
                                                four-Encodes lead b2 b3 b4 (ground arith)
                                                  (ground arith) lo2 (omega arith) lo3 hi3 lo4 hi4
                                                  (inl (ground arith)) (inr (omega arith)))))
                                        λ h9.
                                          Ends-cases (leb 0xc0 lead && leb lead 0xc1) _ _
                                            (λ h.
                                              Ends-record ErrType.overlong_sequence
                                                (is_error-≢ refl) r)
                                            λ h10.
                                              Ends-record ErrType.invalid_utf8_start_byte
                                                (is_error-≢ refl) r

-- What `pvt_validate_utf8` accepts of a text that has not ended is the encoding of one code point up
-- to 0x10ffff that is no surrogate: those bytes stand at the parser's place, are passed, and are
-- what the string builder gets. Otherwise it returns an error record.
pub validate_utf8_sound :
    (sb : List ℕ) (p : Parser)
    → IsReady p
    → p.current_byte_index < p.length_bytes
    → Ends p
        (λ out q.
          (c : ℕ) × (c ≤ 0x10ffff)
          × ((c < 0xd800) ⊎ (0xdfff < c))
          × (remaining p ≡ encoded c ++ remaining q)
          × (out ≡ append_chars sb (encoded c)))
        (validate_utf8 sb p)
unfolding validate_utf8
validate_utf8_sound sb p r inside =
    Ends-continue _ (sequence_sound p r inside) λ bs q o (good, between).
      let e : bs ≡ encoded good.code = good.bytes ∙ sym (encoded-utf8 good.code good.in_range) in
      done (Onward-refl (Onward-IsReady r o))
        (good.code, good.in_range, good.scalar, rw (sym e) between, rw (sym e) refl)
