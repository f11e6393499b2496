-- ===== src/Allocator/Pool/Aligned.antt =====
-- The alignment of a pool's slots.
use native.Mathlib.Nat.{mul_assoc}
use c_roblib.Base.{
  ℕ, ◌+◌, ◌*◌, ◌/◌, ◌%◌, ◌^◌, ◌≤◌, ◌<◌, ◌≡◌, sym, ap, ◌∙◌, arith, List, true, none, some,
}
use c_roblib.Allocator.{align_up}
use c_roblib.Allocator.Align.{align_up-AlignedUp}
use c_roblib.Allocator.Pool.{Pool, pool_create, pool_alloc}
use c_roblib.Allocator.Pool.Create.{pool_create-Created}
use c_roblib.Allocator.Pool.Steps.{Reach, Reach-Laid, taken, full, pool_alloc-Allocated}

multiple_mod : (i size : ℕ) → size % 16 ≡ 0 → (72 + i * size) % 16 ≡ 8
multiple_mod i size h =
    let whole : size ≡ size / 16 * 16 = omega (arith, h) in
    let product : i * size ≡ i * (size / 16) * 16 =
      ap (λ s. i * s) whole ∙ sym (mul_assoc i (size / 16) 16) in
    omega (arith, product)

-- Whatever was allocated and released before, a pool for objects with an alignment of 16 gives only
-- slots that lie 8 bytes behind a multiple of 16, since its memory starts 72 bytes into a page.
pub pool_create_misaligned :
    (k num_objects object_size : ℕ)
    → k < 64
    → 8 ≤ object_size
    → object_size + 16 ≤ 2 ^ 64
    → 72 + num_objects * align_up object_size 16 + 2 ^ k ≤ 2 ^ 64
    → (start : Pool) → pool_create (2 ^ k) true num_objects object_size 16 ≡ some start
    → (pool : Pool) (live : List ℕ) → Reach start pool live
    → (a : ℕ) → (pool_alloc pool).0 ≡ some a
    → a % 16 ≡ 8
pool_create_misaligned k num_objects object_size pages roomy word memory start made pool live r a
      got =
    let c = pool_create-Created k 4 num_objects object_size pages (omega arith) roomy word memory in
    let same : some c.pool ≡ some start = sym c.given ∙ made in
    let start_of : c.pool ≡ start = cc in
    let aligned = align_up-AlignedUp 4 object_size (omega arith) word in
    let laid =
      Reach-Laid 72 (align_up object_size 16) (rw (sym start_of) (c.memory_at, c.slot_at)) r in
    elim (pool_alloc-Allocated (rw (sym start_of) c.kept) r) [
      | full all none_left ↦
          let never : none ≡ some a = ap (λ o. o.0) (sym none_left) ∙ got in absurd cc
      | taken b next there t ↦
          let given : some b ≡ some a = ap (λ o. o.0) (sym there) ∙ got in
          let at : b ≡ a = cc in
          let place : b ≡ 72 + t.slot.index * align_up object_size 16 =
            rw (sym laid.0, sym laid.1) t.slot.place in
          rw (sym at, place) (multiple_mod t.slot.index (align_up object_size 16) aligned.aligned)
    ]
