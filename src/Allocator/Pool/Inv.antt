-- ===== src/Allocator/Pool/Inv.antt =====
-- The states of a pool under allocations, releases and the client's writes into its own slots.
use native.Mathlib.Nat.{mul-le-mul_right}
use c_roblib.Base.{
  ℕ, ◌+◌, ◌*◌, ◌^◌, ◌≤◌, ◌<◌, ◌≡◌, ◌⊎◌, inl, inr, refl, sym, ap, arith, List, [], ◌∷◌, length,
}
use c_roblib.Allocator.Pool.{Bytes, Pool, load_bytes, store_bytes}
use c_roblib.Allocator.Pool.Memory.{agree, load_bytes-store_bytes, outside}
use c_roblib.Allocator.Pool.Slots.{count, slots, IsSlot, count-IsSlot, count-slots_le, apart}

-- The links of the free list lead through these places.
abbrev pub Chain : Bytes → ℕ → List ℕ → Type 0
Chain bytes head [] = head ≡ 0
Chain bytes head (x ∷ xs) = (head ≡ x) × (0 < x) × Chain bytes (load_bytes 8 bytes x) xs

-- The links survive a change outside the free slots.
pub frame :
    {bytes other : Bytes} (head : ℕ) (free : List ℕ)
    → Chain bytes head free
    → ((a : ℕ)
        → 0 < count a free
        → (place : ℕ) → a ≤ place
        → place < a + 8
        → bytes place ≡ other place)
    → Chain other head free
unfolding count
frame head [] c same = c
frame {bytes} {other} head (x ∷ xs) (at, pos, rest) same =
    let here : load_bytes 8 bytes x ≡ load_bytes 8 other x = agree 8 x (same x (ground arith)) in
    (at, pos, rw (sym here) (frame (load_bytes 8 bytes x) xs rest λ a h. same a (ground arith)))

pub push :
    (bytes : Bytes) (head a : ℕ) (free : List ℕ)
    → Chain bytes head free
    → head < 2 ^ 64
    → 0 < a
    → ((b : ℕ) → 0 < count b free → (b + 8 ≤ a) ⊎ (a + 8 ≤ b))
    → Chain (store_bytes 8 bytes a head) a (a ∷ free)
push bytes head a free c word pos clear = (
  refl,
  pos,
  rw (load_bytes-store_bytes 8 bytes a head word) (
      frame head free c λ b h place low high. sym (
        outside 8 bytes a head place
          (elim (clear b h) [ inl before ↦ inl (omega arith) | inr behind ↦ inr (omega arith) ]))),
)

-- Every slot is free or live, once, and the links lead through the free ones.
pub record Kept (pool : Pool) (live : List ℕ) : Type 0 where
  pub free : List ℕ
  pub roomy : 8 ≤ pool.slot_size
  pub start : 0 < pool.pool_memory
  pub word : pool.pool_memory + pool.num_slots * pool.slot_size ≤ 2 ^ 64
  pub fits : pool.pool_memory + pool.num_slots * pool.slot_size ≤ pool.head_block.block_size
  pub chain : Chain pool.bytes pool.free_list free
  pub whole :
      (a : ℕ)
      → count a free + count a live ≡ count a (slots pool.pool_memory pool.slot_size pool.num_slots)
  pub total : length free + length live ≡ pool.num_slots

module _ {pool : Pool} {live : List ℕ} (k : Kept pool live) where
  pub listed :
      (a : ℕ)
      → 0 < count a k.free + count a live
      → IsSlot pool.pool_memory pool.slot_size pool.num_slots a
  listed a h =
      count-IsSlot pool.pool_memory pool.slot_size pool.num_slots a (omega (arith, k.whole a))

  pub once : (a : ℕ) → count a k.free + count a live ≤ 1
  once a =
      omega
        (arith, k.roomy, k.whole a, count-slots_le pool.pool_memory pool.slot_size pool.num_slots a)

  pub inside :
      {a : ℕ}
      → IsSlot pool.pool_memory pool.slot_size pool.num_slots a
      → (0 < a) × (a + pool.slot_size ≤ 2 ^ 64)
  inside s = (
    omega (arith, k.start, s.place),
    omega (arith, k.word, s.place, mul-le-mul_right pool.slot_size s.below),
  )

  -- A free slot and a live one do not overlap.
  pub clear :
      (a b : ℕ)
      → 0 < count a live
      → 0 < count b k.free
      → (b + pool.slot_size ≤ a) ⊎ (a + pool.slot_size ≤ b)
  clear a b h g = elim (apart (listed b (omega arith)) (listed a (omega arith))) [
    | inl same ↦ absurd (omega (arith, once a, ap (λ c. count c k.free) same))
    | inr far ↦ far
  ]

  -- The first free slot, or none.
  pub head_word : pool.free_list < 2 ^ 64
  unfolding count
  head_word = of_chain k.free k.chain (λ a h. (inside (listed a (omega arith))).1)
    where
      of_chain :
          (free : List ℕ)
          → Chain pool.bytes pool.free_list free
          → ((a : ℕ) → 0 < count a free → a + pool.slot_size ≤ 2 ^ 64)
          → pool.free_list < 2 ^ 64
      of_chain [] c h = omega (arith, c)
      of_chain (x ∷ xs) c h = omega (arith, c.0, k.roomy, h x (ground arith))
