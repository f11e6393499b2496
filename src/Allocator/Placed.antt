-- ===== src/Allocator/Placed.antt =====
-- Every branch of `pvt_alok_arena_alloc_impl`.
use native.Mathlib.Nat.{one-le-pow}
use c_roblib.Base.{
  ℕ, ◌+◌, ◌-◌, ◌%◌, ◌^◌, ◌≤◌, ◌<◌, ◌≡◌, ◌⊎◌, inl, inr, refl, ap, arith, Bool, true, false, not, [],
  ◌∷◌, ◌++◌, length, ltb, if◌then◌else◌, Option, none, some, Bool-cases, max,
}
use c_roblib.Allocator.{Arena, Block, align_up, alloc_impl, bump, grow, chain_on, new_os_block}
use c_roblib.Allocator.Align.{align_up-AlignedUp, Pages, new_os_block-Pages}
use c_roblib.Allocator.Serve.{Served, alloc_impl-Served, IsFull, full_lem, current}

-- The place that a request gets in another block: behind its header, with the padding that the
-- offset of the old block needed.
abbrev pub place_behind : Arena → ℕ → ℕ
place_behind arena alignment = 24 + (align_up arena.offset alignment - arena.offset)

-- What becomes of a request, with a case for each branch.
pub data Placed (granted : Bool) (arena : Arena) (size alignment : ℕ)
    : Option (ℕ × ℕ) × Arena → Type 0 where
  in_current :
      {out : Option (ℕ × ℕ) × Arena}
      → align_up arena.offset alignment + size ≤ (current arena).usable_size
      → Served arena size alignment out
      → Placed granted arena size alignment out
  in_next :
      {out : Option (ℕ × ℕ) × Arena}
      → IsFull arena size alignment
      → arena.current_block + 1 < length arena.blocks
      → out.0 ≡ some (arena.current_block + 1, place_behind arena alignment)
      → out.1 ≡ record arena {
        current_block = arena.current_block + 1;
        offset = place_behind arena alignment + size;
      }
      → Placed granted arena size alignment out
  in_new :
      {out : Option (ℕ × ℕ) × Arena}
      → IsFull arena size alignment
      → length arena.blocks ≤ arena.current_block + 1
      → arena.auto_grow ≡ true
      → granted ≡ true
      → (block : Block) → max (size + 24) arena.default_block_size ≤ block.block_size
      → out.0 ≡ some (arena.current_block + 1, place_behind arena alignment)
      → out.1 ≡ record arena {
        blocks = arena.blocks ++ block ∷ [];
        current_block = arena.current_block + 1;
        offset = place_behind arena alignment + size;
      }
      → Placed granted arena size alignment out
  refused :
      IsFull arena size alignment
      → length arena.blocks ≤ arena.current_block + 1
      → (arena.auto_grow ≡ false) ⊎ (granted ≡ false)
      → Placed granted arena size alignment (none, arena)

module _ (m : ℕ) (granted : Bool) (arena : Arena) (size k : ℕ) (h : k < 64) (pages : m < 64)
    (word : arena.offset + 2 ^ k + size + 24 ≤ 2 ^ 64) (asked : size + 24 + 2 ^ m ≤ 2 ^ 64)
    (default : arena.default_block_size + 2 ^ m ≤ 2 ^ 64) where
  chained :
      (out : Option Block)
      → Pages (2 ^ m) (max (size + 24) arena.default_block_size) out
      → IsFull arena size (2 ^ k)
      → length arena.blocks ≤ arena.current_block + 1
      → arena.auto_grow ≡ true
      → granted ≡ true
      → Placed granted arena size
          (2 ^ k)
          (chain_on out (align_up arena.offset (2 ^ k) - arena.offset) size arena)
  unfolding chain_on bump
  chained out pages_given full last grows given =
      let aligned = align_up-AlignedUp k arena.offset h (omega arith) in
      rw (pages_given.given, chain_on)
        (in_new full last grows given pages_given.block pages_given.room
          (ap (λ place. some (arena.current_block + 1, place)) (omega (arith, aligned.high)))
          (ap
            (λ offset. record arena {
              blocks = arena.blocks ++ pages_given.block ∷ [];
              current_block = arena.current_block + 1;
              offset = offset;
            })
            (omega (arith, aligned.high))))

  asked_for :
      (g : Bool)
      → granted ≡ g
      → IsFull arena size (2 ^ k)
      → length arena.blocks ≤ arena.current_block + 1
      → arena.auto_grow ≡ true
      → Placed granted arena size (2 ^ k) (
          chain_on
            (new_os_block (2 ^ m) g (max (size + 24) arena.default_block_size))
            (align_up arena.offset (2 ^ k) - arena.offset)
            size
            arena)
  unfolding new_os_block chain_on
  asked_for false e full last grows = refused full last (inr e)
  asked_for true e full last grows =
      chained (new_os_block (2 ^ m) true (max (size + 24) arena.default_block_size))
        (new_os_block-Pages m (max (size + 24) arena.default_block_size) pages (omega arith)) full
        last grows e

  grown :
      IsFull arena size (2 ^ k)
      → length arena.blocks ≤ arena.current_block + 1
      → arena.auto_grow ≡ true
      → Placed granted arena size
          (2 ^ k)
          (grow (2 ^ m) granted (align_up arena.offset (2 ^ k) - arena.offset) size arena)
  unfolding grow
  grown full last grows =
      let target : (if ltb arena.default_block_size ((size + 24) % 2 ^ 64)
            then (size + 24) % 2 ^ 64
            else arena.default_block_size)
          ≡ max (size + 24) arena.default_block_size =
        ground (arith, one-le-pow m 2 (omega arith)) in
      rw target (asked_for granted refl full last grows)

  behind_full :
      IsFull arena size (2 ^ k)
      → Placed granted arena size (2 ^ k) (alloc_impl (2 ^ m) granted arena size (2 ^ k))
  unfolding bump
  behind_full full =
      let aligned = align_up-AlignedUp k arena.offset h (omega arith) in
      rw (full_lem (2 ^ m) granted arena size k h word full)
        (elim (Bool-cases (ltb (arena.current_block + 1) (length arena.blocks))) [
          | inl more ↦ rw more (
              in_next full (ground arith)
                (ap (λ place. some (arena.current_block + 1, place)) (omega (arith, aligned.high)))
                (ap
                  (λ offset. record arena {
                    current_block = arena.current_block + 1;
                    offset = offset;
                  })
                  (omega (arith, aligned.high))))
          | inr last ↦ elim (Bool-cases arena.auto_grow) [
            | inl grows ↦ rw (last, ap not grows) (grown full (ground arith) grows)
            | inr fixed ↦ rw (last, ap not fixed) (refused full (ground arith) (inl fixed))
          ]
        ])

  -- What `pvt_alok_arena_alloc_impl` does on each of its branches, for an alignment and pages that are
  -- powers of two, where the sums of the request fit into `size_t`. Exactly where the aligned request
  -- fits into the usable size of the block that the arena fills, it gets an aligned place there,
  -- behind all that was handed out before. A request that does not fit goes to the place behind the
  -- header of the next block, where there is one; else, where the arena grows and the operating
  -- system grants it, to that of a new block at the end of the chain, with room for the header and
  -- the request; else it gets nothing, and the arena stays as it was.
  pub alloc_impl-Placed :
      Placed granted arena size (2 ^ k) (alloc_impl (2 ^ m) granted arena size (2 ^ k))
  alloc_impl-Placed =
      elim (Bool-cases (ltb (current arena).usable_size (align_up arena.offset (2 ^ k) + size))) [
        | inl full ↦ behind_full (ground arith)
        | inr fits ↦
            in_current (ground arith)
              (alloc_impl-Served (2 ^ m) granted arena size k h (omega arith) (ground arith))
      ]
