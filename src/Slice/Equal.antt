-- ===== src/Slice/Equal.antt =====
-- `slice_equal` and `slice_starts_with` over the bytes of the slices.
use c_roblib.Base.{
  ℕ, zero, suc, ◌+◌, ◌≤◌, ◌<◌, ◌≡◌, ◌↔◌, refl, sym, ap, ◌∙◌, true, List, [], ◌∷◌, arith, ltb, ◌==◌,
  length, take, drop, get_or, length-take, eq-or-ne, tests, Bool-cases, inl, inr, ==_iff,
}
use c_roblib.Slice.{StringSlice, items, bytes_agree, slice_equal, starts_with}

-- A slice inside its memory.
abbrev pub IsInside : StringSlice → Type 0
IsInside s = s.length ≤ length s.bytes

-- What the loop decides: `rounds` bytes of both slices from one place on.
abbrev window : ℕ → ℕ → StringSlice → List ℕ
window rounds i s = take rounds (drop i s.bytes)

pub take-drop :
    (i n : ℕ) (xs : List ℕ)
    → i < length xs
    → take (suc n) (drop i xs) ≡ get_or xs i 0 ∷ take n (drop (suc i) xs)
take-drop i n [] h = absurd (omega arith)
take-drop zero n (x ∷ xs) h = refl
take-drop (suc i) n (x ∷ xs) h = take-drop i n xs (omega arith)

module _ (s t : StringSlice) where
  pub bytes_agree-eq :
      (rounds i : ℕ)
      → rounds + i ≤ length s.bytes
      → rounds + i ≤ length t.bytes
      → bytes_agree (λ c. c) rounds i s t ≡ true
      → window rounds i s ≡ window rounds i t
  unfolding bytes_agree
  bytes_agree-eq zero i hs ht e = refl
  bytes_agree-eq (suc rounds) i hs ht e =
      elim (Bool-cases (get_or s.bytes i 0 == get_or t.bytes i 0)) [
        | inr ne ↦ absurd (cc (rw (ne, bytes_agree) at e))
        | inl eq ↦
            rw
              (
                take-drop i rounds s.bytes (omega arith),
                take-drop i rounds t.bytes (omega arith),
                (==_iff _ _).0 eq,
              )
              (ap (λ l. get_or t.bytes i 0 ∷ l)
                (bytes_agree-eq rounds (suc i) (omega arith) (omega arith)
                  (rw (eq, bytes_agree) at e)))
      ]

  pub eq-bytes_agree :
      (rounds i : ℕ)
      → rounds + i ≤ length s.bytes
      → rounds + i ≤ length t.bytes
      → window rounds i s ≡ window rounds i t
      → bytes_agree (λ c. c) rounds i s t ≡ true
  unfolding bytes_agree
  eq-bytes_agree zero i hs ht e = refl
  eq-bytes_agree (suc rounds) i hs ht e =
      let e' : get_or s.bytes i 0 ∷ window rounds (suc i) s
          ≡ get_or t.bytes i 0 ∷ window rounds (suc i) t =
        sym (take-drop i rounds s.bytes (omega arith))
        ∙ e
        ∙ take-drop i rounds t.bytes (omega arith) in
      let heads : get_or s.bytes i 0 ≡ get_or t.bytes i 0 = ap (λ l. get_or l 0 0) e' in
      rw ((==_iff _ _).1 heads, bytes_agree)
        (eq-bytes_agree rounds (suc i) (omega arith) (omega arith) (ap (drop 1) e'))

pub take-take : (m n : ℕ) (xs : List ℕ) → m ≤ n → take m (take n xs) ≡ take m xs
take-take zero n xs h = refl
take-take (suc m) zero xs h = absurd (omega arith)
take-take (suc m) (suc n) [] h = refl
take-take (suc m) (suc n) (x ∷ xs) h = ap (◌∷◌ x) (take-take m n xs (omega arith))

pub length-items : (s : StringSlice) → IsInside s → length (items s) ≡ s.length
length-items s h = omega (arith, length-take s.length s.bytes)

-- `slice_equal` holds of two slices exactly where they have the same bytes.
pub slice_equal_lem :
    (s t : StringSlice) → IsInside s → IsInside t → (slice_equal s t ≡ true) ↔ (items s ≡ items t)
unfolding slice_equal
slice_equal_lem s t hs ht = elim (eq-or-ne s.length t.length) [
  | inl e ↦
      let ht' : s.length + 0 ≤ length t.bytes = omega arith in
      (
        λ h.
            bytes_agree-eq s t s.length 0 (omega arith) ht'
              (rw ((==_iff s.length t.length).1 e) at h)
            ∙ ap (λ n. take n t.bytes) e,
        λ h. rw ((==_iff s.length t.length).1 e) (
            eq-bytes_agree s t s.length 0 (omega arith) ht' (h ∙ ap (λ n. take n t.bytes) (sym e))),
      )
  | inr ne ↦ (
    λ h. absurd (ne (ground arith)),
    λ h. absurd (ne (sym (length-items s hs) ∙ ap (λ l. length l) h ∙ length-items t ht)),
  )
]

-- `slice_starts_with` holds exactly where the first bytes of the slice are those of the prefix.
pub starts_with_lem :
    (s p : StringSlice)
    → IsInside s
    → IsInside p
    → (starts_with s p ≡ true) ↔ (take p.length (items s) ≡ items p)
unfolding starts_with
starts_with_lem s p hs hp = elim (Bool-cases (ltb s.length p.length)) [
  | inl short ↦ (
    λ h. absurd (cc (rw short at h)),
    λ h.
        let lengths : length (take p.length (items s)) ≡ p.length =
          ap (λ l. length l) h ∙ length-items p hp in
        absurd (grind (tests, length-take, length-items s hs)),
  )
  | inr long ↦
      let fits : p.length ≤ s.length = ground arith in
      let hs' : p.length + 0 ≤ length s.bytes = omega arith in
      let same = take-take p.length s.length s.bytes fits in
      (
        λ h. same ∙ bytes_agree-eq s p p.length 0 hs' (omega arith) (rw long at h),
        λ h. rw long (eq-bytes_agree s p p.length 0 hs' (omega arith) (sym same ∙ h)),
      )
]
