-- ===== src/Allocator.antt =====
-- The allocators: src/memory/allocator.c, with `round_up_to_power_of_two` of src/platform_specific.c.
-- A pointer is the block, counted from the head, and the offset in it; blocks start at a page, so an
-- offset is aligned as its address is. The structs have their sizes on 64 bits: 24 bytes for
-- `BlockHeader`, 8 for `AlokArena`, 48 for `AllocatorHeader`, 48 for `AlokPool`. `page_size` and
-- `granted`, whether `mmap` succeeds, come from the operating system. The contents are left out.
pub mod Align
pub mod Round
pub mod Serve
pub mod Placed
pub mod Pool
use c_roblib.Base.{
  ℕ, zero, suc, ◌+◌, ◌-◌, ◌*◌, ◌/◌, ◌%◌, ◌^◌, Bool, true, false, not, List, [], ◌∷◌, ◌++◌, Option,
  none, some, if◌then◌else◌, ltb, leb, ◌==◌, length, get_or, bit_and,
}
use c_roblib.Base.Digits.{digit}
use c_roblib.Collections.{fill_below}

-- `~word`, and `word - 1` on `size_t`.
abbrev pub invert : ℕ → ℕ
invert word = 2 ^ 64 - 1 - word

abbrev pub less_one : ℕ → ℕ
less_one word = (word + 2 ^ 64 - 1) % 2 ^ 64

-- `alok_align_up`
unfoldable pub align_up : ℕ → ℕ → ℕ
align_up value alignment =
    bit_and (less_one ((value + alignment) % 2 ^ 64)) (invert (less_one alignment))

-- `64 - __builtin_clzll(x)`
unfoldable pub bit_width : ℕ → ℕ → ℕ
bit_width zero x = 0
bit_width (suc rounds) x = elim (x == 0) [ true ↦ 0 | false ↦ suc (bit_width rounds (x / 2)) ]

-- `round_up_to_power_of_two`, as GCC and Clang compile it.
unfoldable pub round_up : ℕ → ℕ
unfolding bit_width
round_up x = if leb x 1 then 1 else 2 ^ bit_width 64 (x - 1) % 2 ^ 64

-- `_BitScanReverse64`: the index of the highest of the low bits that is set.
unfoldable pub bit_scan_reverse : ℕ → ℕ → Option ℕ
bit_scan_reverse zero x = none
bit_scan_reverse (suc index) x = elim (digit x index == 1) [
  | true ↦ some index
  | false ↦ bit_scan_reverse index x
]

-- As MSVC compiles it.
unfoldable pub round_up_msvc : ℕ → ℕ
unfolding bit_scan_reverse
round_up_msvc x =
    if leb x 1
    then 1
    else elim (bit_scan_reverse 64 (x - 1)) [ some index ↦ 2 ^ suc index % 2 ^ 64 | none ↦ 1 ]

-- As other compilers do.
unfoldable pub round_up_portable : ℕ → ℕ
round_up_portable x = if leb x 1 then 1 else (fill_below (x - 1) + 1) % 2 ^ 64

pub record Block : Type 0 where
  pub block_size : ℕ
  pub usable_size : ℕ

-- `AllocatorHeader`; the list has the blocks in the order of their links.
pub record Arena : Type 0 where
  pub blocks : List Block
  pub current_block : ℕ
  pub default_block_size : ℕ
  pub default_alignment : ℕ
  pub offset : ℕ
  pub auto_grow : Bool

abbrev pub header_size : ℕ
header_size = 24

abbrev pub head_block_metadata_size : ℕ
head_block_metadata_size = 80

abbrev pub no_block : Block
no_block = record { block_size = 0; usable_size = 0 }

-- `pvt_alok_new_os_block`
unfoldable pub new_os_block : ℕ → Bool → ℕ → Option Block
new_os_block page_size granted block_size =
    let size = bit_and ((block_size + (page_size - 1)) % 2 ^ 64) (invert (page_size - 1)) in
    if granted then some (record { block_size = size; usable_size = size - header_size }) else none

-- The end of `pvt_alok_arena_alloc_impl`: the pointer, and the offset behind the allocation.
unfoldable pub bump : ℕ → ℕ → Arena → Option (ℕ × ℕ) × Arena
bump alignment_padding size arena =
    let offset = (arena.offset + alignment_padding) % 2 ^ 64 in
    (some (arena.current_block, offset), record arena { offset = (offset + size) % 2 ^ 64 })

-- The new block, where there is one, at the end of the chain.
unfoldable pub chain_on : Option Block → ℕ → ℕ → Arena → Option (ℕ × ℕ) × Arena
unfolding bump
chain_on none alignment_padding size arena = (none, arena)
chain_on (some block) alignment_padding size arena = bump alignment_padding size (record arena {
  blocks = arena.blocks ++ block ∷ [];
  current_block = arena.current_block + 1;
  offset = header_size;
})

unfoldable pub grow : ℕ → Bool → ℕ → ℕ → Arena → Option (ℕ × ℕ) × Arena
unfolding new_os_block chain_on
grow page_size granted alignment_padding size arena =
    let target_block_size =
      if ltb arena.default_block_size ((size + header_size) % 2 ^ 64)
      then (size + header_size) % 2 ^ 64
      else arena.default_block_size in
    chain_on (new_os_block page_size granted target_block_size) alignment_padding size arena

-- `pvt_alok_arena_alloc_impl`
unfoldable pub alloc_impl : ℕ → Bool → Arena → ℕ → ℕ → Option (ℕ × ℕ) × Arena
unfolding align_up bump grow
alloc_impl page_size granted arena size align_size =
    let aligned_offset = align_up arena.offset align_size in
    let alignment_padding = (aligned_offset + 2 ^ 64 - arena.offset) % 2 ^ 64 in
    let current = get_or arena.blocks arena.current_block no_block in
    if ltb current.usable_size ((aligned_offset + size) % 2 ^ 64)
    then (if ltb (arena.current_block + 1) (length arena.blocks)
        then bump alignment_padding size
            (record arena { current_block = arena.current_block + 1; offset = header_size })
        else if not arena.auto_grow
        then (none, arena)
        else grow page_size granted alignment_padding size arena)
    else bump alignment_padding size arena

-- `_alok_arena_alloc`
unfoldable pub arena_alloc : ℕ → Bool → Arena → ℕ → ℕ → Option (ℕ × ℕ) × Arena
unfolding alloc_impl round_up
arena_alloc page_size granted arena size align_size =
    alloc_impl page_size granted arena size
      (if align_size == 0 then arena.default_alignment else round_up align_size)

-- `_alok_arena_create`; its two allocations are the arena and its header.
unfoldable pub arena_create : ℕ → Bool → ℕ → Bool → ℕ → Option Arena
unfolding new_os_block arena_alloc round_up
arena_create page_size granted arena_capacity auto_grow default_alignment =
    elim (new_os_block page_size granted ((arena_capacity + head_block_metadata_size) % 2 ^ 64)) [
      | none ↦ none
      | some block ↦
          let start : Arena = record {
            blocks =
                record block { usable_size = block.block_size - head_block_metadata_size } ∷ [];
            current_block = 0;
            default_block_size = block.block_size;
            default_alignment = if default_alignment == 0 then 16 else round_up default_alignment;
            offset = header_size;
            auto_grow = auto_grow;
          } in
          let arena = (arena_alloc page_size granted start 8 8).1 in
          some (arena_alloc page_size granted arena 48 8).1
    ]

-- `alok_arena_reset`
unfoldable pub arena_reset : Arena → Arena
arena_reset arena = record arena { current_block = 0; offset = head_block_metadata_size }

-- `StackMarker`
pub record StackMarker : Type 0 where
  pub mark_block : ℕ
  pub mark_offset : ℕ
  pub is_stale : Bool

-- `alok_arena_marker`; the marker is allocated behind the place that it marks.
unfoldable pub marker : ℕ → Bool → Arena → StackMarker × Arena
unfolding alloc_impl
marker page_size granted arena = (
  record { mark_block = arena.current_block; mark_offset = arena.offset; is_stale = false },
  (alloc_impl page_size granted arena 24 8).1,
)

-- `alok_arena_pop_to_marker`
unfoldable pub pop_to_marker : Arena → StackMarker → Arena × StackMarker
pop_to_marker arena mark = if mark.is_stale then (arena, mark) else (
  record arena { current_block = mark.mark_block; offset = mark.mark_offset },
  record mark { is_stale = true },
)

-- `alok_arena_top_pointer`
unfoldable pub top_pointer : Arena → ℕ × ℕ
top_pointer arena = (arena.current_block, arena.offset)
