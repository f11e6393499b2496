-- ===== src/Allocator/Serve.antt =====
-- What `pvt_alok_arena_alloc_impl` hands out.
use c_roblib.Base.{
  ℕ, ◌+◌, ◌-◌, ◌%◌, ◌^◌, ◌≤◌, ◌<◌, ◌≡◌, ◌⊎◌, inl, inr, refl, ap, ◌∙◌, arith, Bool, true, false, not,
  length, get_or, ltb, if◌then◌else◌, Option, none, some, Bool-cases,
}
use c_roblib.Allocator.{
  Arena, Block, align_up, alloc_impl, bump, grow, chain_on, new_os_block, no_block, header_size,
}
use c_roblib.Allocator.Align.{align_up-AlignedUp}

-- The block that an arena fills.
abbrev pub current : Arena → Block
current arena = get_or arena.blocks arena.current_block no_block

-- An allocation in the block that the arena fills.
pub record Served (arena : Arena) (size alignment : ℕ) (out : Option (ℕ × ℕ) × Arena) : Type 0 where
  pub place : ℕ
  pub pointer : out.0 ≡ some (arena.current_block, place)
  pub aligned : place % alignment ≡ 0
  pub behind : arena.offset ≤ place
  pub inside : place + size ≤ (current arena).usable_size
  pub next : out.1 ≡ record arena { offset = place + size }

-- The branch of a request that fits.
pub alloc_impl-Served :
    (page_size : ℕ) (granted : Bool) (arena : Arena) (size k : ℕ)
    → k < 64
    → arena.offset + 2 ^ k + size ≤ 2 ^ 64
    → align_up arena.offset (2 ^ k) + size ≤ (current arena).usable_size
    → Served arena size (2 ^ k) (alloc_impl page_size granted arena size (2 ^ k))
unfolding alloc_impl bump
alloc_impl-Served page_size granted arena size k h word fits =
    let aligned = align_up-AlignedUp k arena.offset h (omega arith) in
    let place = align_up arena.offset (2 ^ k) in
    let sum : (place + size) % 2 ^ 64 ≡ place + size = omega (arith, aligned.high) in
    let room : ltb (current arena).usable_size (place + size) ≡ false = ground arith in
    let at : (arena.offset + (place + 2 ^ 64 - arena.offset) % 2 ^ 64) % 2 ^ 64 ≡ place =
      omega (arith, aligned.low, aligned.high) in
    rw (sum, room, at, sum)
      (record {
        place = place;
        pointer = refl;
        aligned = aligned.aligned;
        behind = aligned.low;
        inside = fits;
        next = refl;
      })

-- The request does not fit into the block that the arena fills.
abbrev pub IsFull : Arena → ℕ → ℕ → Type 0
IsFull arena size alignment = (current arena).usable_size < align_up arena.offset alignment + size

module _ (page_size : ℕ) (granted : Bool) (arena : Arena) (size k : ℕ) (h : k < 64)
    (word : arena.offset + 2 ^ k + size + 24 ≤ 2 ^ 64) (full : IsFull arena size (2 ^ k)) where
  -- How a full block is left.
  pub full_lem : alloc_impl page_size granted arena size (2 ^ k) ≡ (
      let padding = align_up arena.offset (2 ^ k) - arena.offset in
      if ltb (arena.current_block + 1) (length arena.blocks)
      then bump padding size
          (record arena { current_block = arena.current_block + 1; offset = header_size })
      else if not arena.auto_grow
      then (none, arena)
      else grow page_size granted padding size arena)
  unfolding alloc_impl
  full_lem =
      let aligned = align_up-AlignedUp k arena.offset h (omega arith) in
      let place = align_up arena.offset (2 ^ k) in
      let sum : (place + size) % 2 ^ 64 ≡ place + size = omega (arith, aligned.high) in
      let no_room : ltb (current arena).usable_size (place + size) ≡ true = ground arith in
      let padding : (place + 2 ^ 64 - arena.offset) % 2 ^ 64 ≡ place - arena.offset =
        omega (arith, aligned.low, aligned.high) in
      rw (sum, no_room, padding) refl

  -- Behind a full block, where there is a next one, as after a reset, the allocator hands out memory
  -- in it without a look at its size: a request as large as that block or larger ends behind it.
  pub alloc_impl_overruns :
      arena.current_block + 1 < length arena.blocks
      → (get_or arena.blocks (arena.current_block + 1) no_block).block_size ≤ size
      → (place : ℕ) × ((alloc_impl page_size granted arena size (2 ^ k)).0
          ≡ some (arena.current_block + 1, place))
        × ((get_or arena.blocks (arena.current_block + 1) no_block).block_size < place + size)
  unfolding bump
  alloc_impl_overruns more large =
      let next : ltb (arena.current_block + 1) (length arena.blocks) ≡ true = ground arith in
      let aligned = align_up-AlignedUp k arena.offset h (omega arith) in
      let at : (24 + (align_up arena.offset (2 ^ k) - arena.offset)) % 2 ^ 64
          ≡ 24 + (align_up arena.offset (2 ^ k) - arena.offset) =
        omega (arith, aligned.high) in
      (
        24 + (align_up arena.offset (2 ^ k) - arena.offset),
        rw (full_lem, next, at) refl,
        omega arith,
      )

  -- Without a next block and without growth, the allocator is out of memory and stays as it was.
  pub alloc_impl_refused :
      length arena.blocks ≤ arena.current_block + 1
      → arena.auto_grow ≡ false
      → alloc_impl page_size granted arena size (2 ^ k) ≡ (none, arena)
  alloc_impl_refused last fixed =
      let none_left : ltb (arena.current_block + 1) (length arena.blocks) ≡ false = ground arith in
      rw (full_lem, none_left, fixed) refl

-- Behind a full block, where there is a next one or the arena grows, some memory is found.
pub alloc_impl_onward :
    (page_size : ℕ) (arena : Arena) (size k : ℕ)
    → k < 64
    → arena.offset + 2 ^ k + size + 24 ≤ 2 ^ 64
    → IsFull arena size (2 ^ k)
    → (arena.current_block + 1 < length arena.blocks) ⊎ (arena.auto_grow ≡ true)
    → (place : ℕ) × ((alloc_impl page_size true arena size (2 ^ k)).0
        ≡ some (arena.current_block + 1, place))
unfolding bump grow chain_on new_os_block
alloc_impl_onward page_size arena size k h word full onward =
    let padding = align_up arena.offset (2 ^ k) - arena.offset in
    (
      (24 + padding) % 2 ^ 64,
      ap (λ (r : Option (ℕ × ℕ) × Arena). r.0) (full_lem page_size true arena size k h word full)
          ∙ (elim (Bool-cases (ltb (arena.current_block + 1) (length arena.blocks))) [
            | inl more ↦ rw more refl
            | inr last ↦ elim onward [
              | inl more ↦ absurd (ground arith)
              | inr grows ↦ rw (last, grows) refl
            ]
          ]),
    )

-- On the way to another block, the allocator pads as the old offset needed: behind a full block with
-- an offset that is a multiple of 16, a request for that alignment gets the offset 24 of the next
-- block, which is none.
pub alloc_impl_misaligned :
    (page_size : ℕ) (arena : Arena) (size : ℕ)
    → arena.offset + size + 40 ≤ 2 ^ 64
    → IsFull arena size 16
    → arena.offset % 16 ≡ 0
    → (arena.current_block + 1 < length arena.blocks) ⊎ (arena.auto_grow ≡ true)
    → (alloc_impl page_size true arena size 16).0 ≡ some (arena.current_block + 1, 24)
unfolding bump grow chain_on new_os_block
alloc_impl_misaligned page_size arena size word full even onward =
    let aligned = align_up-AlignedUp 4 arena.offset (omega arith) (omega arith) in
    let no_padding : align_up arena.offset 16 - arena.offset ≡ 0 =
      omega (arith, aligned.aligned, aligned.low, aligned.high) in
    ap (λ (r : Option (ℕ × ℕ) × Arena). r.0)
      (full_lem page_size true arena size 4 (omega arith) (omega arith) full)
    ∙ (elim (Bool-cases (ltb (arena.current_block + 1) (length arena.blocks))) [
      | inl more ↦ rw (no_padding, more) refl
      | inr last ↦ elim onward [
        | inl more ↦ absurd (ground arith)
        | inr grows ↦ rw (no_padding, last, grows) refl
      ]
    ])
