-- ===== src/Allocator/Pool/Slots.antt =====
-- The places of a pool's slots, and how often a place is in a list.
use native.Mathlib.Nat.{mul-le-mul_right}
use c_roblib.Base.{
  ℕ, zero, suc, ◌+◌, ◌*◌, ◌≤◌, ◌<◌, ◌≡◌, ◌⊎◌, inl, inr, refl, sym, ap, ◌∙◌, arith, List, [], ◌∷◌,
  length, Bool-cases, if◌then◌else◌, ◌==◌, ltb,
}

unfoldable pub count : ℕ → List ℕ → ℕ
count a [] = 0
count a (x ∷ xs) = if x == a then suc (count a xs) else count a xs

-- The list without the first of the place's occurrences.
unfoldable pub without : ℕ → List ℕ → List ℕ
without a [] = []
without a (x ∷ xs) = if x == a then xs else x ∷ without a xs

pub count-without :
    (a b : ℕ) (xs : List ℕ)
    → 0 < count a xs
    → count b (without a xs) + count b (a ∷ []) ≡ count b xs
unfolding count without
count-without a b [] h = absurd (omega arith)
count-without a b (x ∷ xs) h = ground (arith, count-without a b xs)

pub length-without :
    (a : ℕ) (xs : List ℕ) → 0 < count a xs → suc (length (without a xs)) ≡ length xs
unfolding count without
length-without a [] h = absurd (omega arith)
length-without a (x ∷ xs) h = ground (arith, length-without a xs)

-- The first `n` slots, from the last one on.
unfoldable pub slots : ℕ → ℕ → ℕ → List ℕ
slots start size zero = []
slots start size (suc n) = (start + n * size) ∷ slots start size n

pub record IsSlot (start size n a : ℕ) : Type 0 where
  pub index : ℕ
  pub below : index < n
  pub place : a ≡ start + index * size

pub length-slots : (start size n : ℕ) → length (slots start size n) ≡ n
unfolding slots
length-slots start size zero = refl
length-slots start size (suc n) = ap suc (length-slots start size n)

pub count-IsSlot : (start size n a : ℕ) → 0 < count a (slots start size n) → IsSlot start size n a
unfolding count slots
count-IsSlot start size zero a h = absurd (omega arith)
count-IsSlot start size (suc n) a h = elim (Bool-cases ((start + n * size) == a)) [
  | inl same ↦ record { index = n; below = omega arith; place = ground arith }
  | inr other ↦
      let rest = count-IsSlot start size n a (ground arith) in
      record { index = rest.index; below = omega (arith, rest.below); place = rest.place }
]

-- Two slots are the same or do not overlap.
pub apart :
    {start size n m a b : ℕ}
    → IsSlot start size n a
    → IsSlot start size m b
    → (a ≡ b) ⊎ ((a + size ≤ b) ⊎ (b + size ≤ a))
apart {start} {size} s t = elim (Bool-cases (ltb s.index t.index)) [
  | inl less ↦
      let before : s.index < t.index = ground arith in
      inr (inl (omega (arith, s.place, t.place, mul-le-mul_right size before)))
  | inr not_less ↦ elim (Bool-cases (ltb t.index s.index)) [
    | inl more ↦
        let before : t.index < s.index = ground arith in
        inr (inr (omega (arith, s.place, t.place, mul-le-mul_right size before)))
    | inr not_more ↦ inl (s.place ∙ ap (λ i. start + i * size) (ground arith) ∙ sym t.place)
  ]
]

-- A slot behind the first `n` is none of them.
count-beyond : (start size n : ℕ) → 0 < size → count (start + n * size) (slots start size n) ≡ 0
count-beyond start size n h =
    elim (Bool-cases (count (start + n * size) (slots start size n) == 0)) [
      | inl zero_times ↦ ground arith
      | inr some_times ↦
          let slot = count-IsSlot start size n (start + n * size) (ground arith) in
          absurd (omega (arith, slot.place, mul-le-mul_right size slot.below))
    ]

pub count-slots_le : (start size n a : ℕ) → 0 < size → count a (slots start size n) ≤ 1
unfolding count slots
count-slots_le start size zero a h = omega arith
count-slots_le start size (suc n) a h = elim (Bool-cases ((start + n * size) == a)) [
  | inl same ↦
      let at : a ≡ start + n * size = ground arith in
      let once : count a (slots start size n) ≡ 0 =
        ap (λ b. count b (slots start size n)) at ∙ count-beyond start size n h in
      rw same (omega (arith, once))
  | inr other ↦ rw other (count-slots_le start size n a h)
]
