-- ===== src/Ring/Inv.antt =====
-- The representation invariant of `CharRingBuffer`, and the list that a ring stands for.
use native.Mathlib.Nat.{mod-add-mod, mod-eq_of_lt, mod-eq-sub-mod, add-zero}
use native.Mathlib.Decide.{dec_lt}
use c_roblib.Base.{
  ℕ, zero, suc, ◌+◌, ◌-◌, ◌%◌, ◌^◌, ◌≤◌, ◌<◌, ◌≡◌, ◌≢◌, refl, ap, ap₂, ◌∙◌, sym, List, [], ◌∷◌,
  ◌++◌, arith, length, get_or, set, get_or-set_ne, length-replicate,
}
use c_roblib.Ring.{Ring, new}

pub record IsValid (r : Ring) : Type 0 where
  pub storage : length r.buffer ≡ r.capacity
  pub room : 0 < r.capacity
  pub small : r.capacity ≤ 2 ^ 62
  pub start_in : r.start_index < r.capacity
  pub length_in : r.length ≤ r.capacity
  pub end_at : r.end_index ≡ (r.start_index + r.length) % r.capacity

module _ (buffer : List ℕ) (cap : ℕ) where
  -- The `n` bytes from place `i` on, where places beyond the end stand for those at the start.
  abbrev pub items : ℕ → ℕ → List ℕ
  items i zero = []
  items i (suc n) = get_or buffer (i % cap) 0 ∷ items (i + 1) n

  pub length-items : (i n : ℕ) → length (items i n) ≡ n
  length-items i zero = refl
  length-items i (suc n) = ap suc (length-items (i + 1) n)

  pub items_congr : (i j n : ℕ) → i % cap ≡ j % cap → items i n ≡ items j n
  items_congr i j zero e = refl
  items_congr i j (suc n) e =
      ap₂ ◌∷◌ (ap (λ k. get_or buffer k 0) e) (items_congr (i + 1) (j + 1) n next)
    where
      next : (i + 1) % cap ≡ (j + 1) % cap
      next = sym (mod-add-mod i cap 1) ∙ ap (λ k. (k + 1) % cap) e ∙ mod-add-mod j cap 1

  pub items-snoc : (i n : ℕ) → items i (suc n) ≡ items i n ++ (get_or buffer ((i + n) % cap) 0 ∷ [])
  items-snoc i zero = rw add-zero
  items-snoc i (suc n) = ap (◌∷◌ (get_or buffer (i % cap) 0)) (
      items-snoc (i + 1) n
      ∙ ap (λ k. items (i + 1) n ++ get_or buffer (k % cap) 0 ∷ []) (omega arith))

abbrev pub contents : Ring → List ℕ
contents r = items r.buffer r.capacity r.start_index r.length

pub length-contents : (r : Ring) → length (contents r) ≡ r.length
length-contents r = length-items r.buffer r.capacity r.start_index r.length

-- Places less than a whole round apart are different.
pub mod-ne : (cap i e : ℕ) → i < e → e < i + cap → i % cap ≢ e % cap
mod-ne cap i e lo hi same = elim (dec_lt (i % cap + (e - i)) cap) [
  | yes p ↦ omega (arith, moved, mod-eq_of_lt p)
  | no p ↦ omega (
    arith,
    moved,
    mod-eq-sub-mod {n = i % cap + (e - i)} {m = cap} (omega arith),
    mod-eq_of_lt {n = i % cap + (e - i) - cap} {m = cap} (omega arith),
  )
]
  where
    moved : (i % cap + (e - i)) % cap ≡ e % cap
    moved = mod-add-mod i cap (e - i) ∙ ap (λ k. k % cap) (omega arith)

-- A write at the place behind the last byte leaves the bytes before it.
pub items-set :
    (buffer : List ℕ) (cap x i n e : ℕ)
    → i + n ≤ e
    → e < i + cap
    → items (set buffer (e % cap) x) cap i n ≡ items buffer cap i n
items-set buffer cap x i zero e lo hi = refl
items-set buffer cap x i (suc n) e lo hi =
    ap₂ ◌∷◌ (get_or-set_ne buffer x 0 (λ s. mod-ne cap i e (omega arith) hi (sym s)))
      (items-set buffer cap x (i + 1) n e (omega arith) (omega arith))

pub new-IsValid : (capacity : ℕ) → 0 < capacity → capacity ≤ 2 ^ 62 → IsValid (new capacity)
unfolding new
new-IsValid capacity pos small = omega (arith, length-replicate {A = ℕ} capacity 0)
