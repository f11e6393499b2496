-- ===== src/StringUtils/Search.antt =====
-- `sutil_index_start_end_impl_`.
use c_roblib.Base.{
  ℕ, ◌≤◌, ◌<◌, ◌≡◌, refl, arith, true, List, [], ◌∷◌, ◌==◌, length, take, drop, inl, inr, eq-or-ne,
  ==_iff,
}
use c_roblib.Base.Int.{ℤ, pos, negsuc}
use c_roblib.StringUtils.{strncmp_same}

-- The bytes of a string stand in another one from a place on.
abbrev pub OccursAt : List ℕ → List ℕ → ℕ → Type 0
OccursAt str substring i = take (length substring) (drop i str) ≡ substring

pub strncmp_same-take : (a b : List ℕ) → strncmp_same (length b) a b ≡ true → take (length b) a ≡ b
unfolding strncmp_same
strncmp_same-take a [] h = refl
strncmp_same-take [] (y ∷ b) h = absurd cc
strncmp_same-take (x ∷ a) (y ∷ b) h = elim (eq-or-ne x y) [
  | inl same ↦
      let test : (x == y) ≡ true = (==_iff x y).1 same in
      let rest : strncmp_same (length b) a b ≡ true = rw (test, strncmp_same) at h in
      rw (same, strncmp_same-take a b rest) refl
  | inr other ↦ absurd (ground arith)
]

pub take-strncmp_same : (a b : List ℕ) → take (length b) a ≡ b → strncmp_same (length b) a b ≡ true
unfolding strncmp_same
take-strncmp_same a [] h = refl
take-strncmp_same [] (y ∷ b) h = absurd cc
take-strncmp_same (x ∷ a) (y ∷ b) h =
    let head : x ≡ y = cc in
    let tail : take (length b) a ≡ b = cc in
    rw ((==_iff x y).1 head, strncmp_same) (take-strncmp_same a b tail)

-- The least place between two others at which a substring stands, or -1 for none.
pub data Leftmost (str substring : List ℕ) (start end : ℕ) : ℤ → Type 0 where
  found :
      (i : ℕ)
      → start ≤ i
      → i ≤ end
      → OccursAt str substring i
      → ((j : ℕ) → start ≤ j → j < i → ¬ OccursAt str substring j)
      → Leftmost str substring start end (pos i)
  missing :
      ((j : ℕ) → start ≤ j → j ≤ end → ¬ OccursAt str substring j)
      → Leftmost str substring start end (negsuc 0)
