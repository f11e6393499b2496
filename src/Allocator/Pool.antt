-- ===== src/Allocator/Pool.antt =====
-- The pool of `alok_pool_create`, `alok_pool_alloc` and `alok_pool_free`. A pointer is the offset in
-- the pool's one block, 0 is `nullptr`; the block's bytes are a function of the offset, and the links
-- of the free list stand in the bytes of the free slots.
pub mod Memory
pub mod Slots
pub mod Inv
pub mod Steps
pub mod Create
pub mod Aligned
use c_roblib.Base.{
  ℕ, zero, suc, ◌+◌, ◌-◌, ◌*◌, ◌/◌, ◌%◌, ◌^◌, Bool, true, false, Option, none, some, if◌then◌else◌,
  ◌==◌,
}
use c_roblib.Allocator.{Block, align_up, new_os_block, header_size}

abbrev pub Bytes : Type 0
Bytes = ℕ → ℕ

-- A number of some bytes, least first, as x86-64 and AArch64 have it.
unfoldable pub load_bytes : ℕ → Bytes → ℕ → ℕ
load_bytes zero bytes at = 0
load_bytes (suc n) bytes at = bytes at + 256 * load_bytes n bytes (at + 1)

unfoldable pub store_bytes : ℕ → Bytes → ℕ → ℕ → Bytes
store_bytes zero bytes at value = bytes
store_bytes (suc n) bytes at value =
    λ place. if place == at then value % 256 else store_bytes n bytes (at + 1) (value / 256) place

-- `AlokPool`, with the bytes of its block.
pub record Pool : Type 0 where
  pub head_block : Block
  pub pool_memory : ℕ
  pub slot_size : ℕ
  pub num_slots : ℕ
  pub slot_alignment : ℕ
  pub free_list : ℕ
  pub bytes : Bytes

abbrev pub pool_header_size : ℕ
pool_header_size = 48

-- `alok_pool_free`, and the body of the loop in `alok_pool_create`.
unfoldable pub pool_free : Pool → ℕ → Pool
unfolding store_bytes
pool_free pool object = record pool {
  bytes = store_bytes 8 pool.bytes object pool.free_list;
  free_list = object;
}

-- The loop of `alok_pool_create`, from the slot `i` on.
unfoldable pub link_slots : ℕ → ℕ → Pool → Pool
unfolding pool_free
link_slots zero i pool = pool
link_slots (suc rounds) i pool =
    link_slots rounds (i + 1) (pool_free pool (pool.pool_memory + i * pool.slot_size % 2 ^ 64))

-- The pool in its block, where there is one; the operating system gives zero bytes.
unfoldable pub laid_out : ℕ → ℕ → ℕ → Option Block → Option Pool
unfolding link_slots
laid_out num_objects aligned_object_size object_alignment none = none
laid_out num_objects aligned_object_size object_alignment (some block) = some (
    link_slots num_objects 0 (record {
      head_block = block;
      pool_memory = header_size + pool_header_size;
      slot_size = aligned_object_size;
      num_slots = num_objects;
      slot_alignment = object_alignment;
      free_list = 0;
      bytes = λ place. 0;
    }))

-- `alok_pool_create`
unfoldable pub pool_create : ℕ → Bool → ℕ → ℕ → ℕ → Option Pool
unfolding align_up new_os_block laid_out
pool_create page_size granted num_objects object_size object_alignment =
    let aligned_object_size = align_up object_size object_alignment in
    let needed_capacity =
      (num_objects * aligned_object_size + header_size + pool_header_size) % 2 ^ 64 in
    laid_out num_objects aligned_object_size object_alignment
      (new_os_block page_size granted needed_capacity)

-- `alok_pool_alloc`
unfoldable pub pool_alloc : Pool → Option ℕ × Pool
unfolding load_bytes
pool_alloc pool =
    if pool.free_list == 0
    then (none, pool)
    else (some pool.free_list, record pool { free_list = load_bytes 8 pool.bytes pool.free_list })
