-- ===== src/Allocator/Pool/Create.antt =====
-- The pool that `alok_pool_create` gives.
use native.Mathlib.Nat.{mul-le-mul_right, one-le-pow}
use c_roblib.Base.{
  ℕ, zero, suc, ◌+◌, ◌*◌, ◌%◌, ◌^◌, ◌≤◌, ◌<◌, ◌≡◌, inl, refl, ap, arith, [], Option, some, true,
}
use c_roblib.Allocator.{Block, align_up, new_os_block}
use c_roblib.Allocator.Align.{align_up-AlignedUp, Pages, new_os_block-Pages}
use c_roblib.Allocator.Pool.{Pool, store_bytes, pool_free, pool_create, laid_out, link_slots}
use c_roblib.Allocator.Pool.Slots.{count, slots, count-IsSlot, length-slots}
use c_roblib.Allocator.Pool.Inv.{Chain, push, Kept}

-- The slots that are linked so far.
record Linked (pool : Pool) (i : ℕ) (out : Pool) : Type 0 where
  same : out ≡ record pool { bytes = out.bytes; free_list = out.free_list }
  chain : Chain out.bytes out.free_list (slots pool.pool_memory pool.slot_size i)

link_slots-Linked :
    (rounds i n : ℕ) (pool : Pool)
    → i + rounds ≡ n
    → 8 ≤ pool.slot_size
    → 0 < pool.pool_memory
    → pool.pool_memory + n * pool.slot_size ≤ 2 ^ 64
    → Chain pool.bytes pool.free_list (slots pool.pool_memory pool.slot_size i)
    → pool.free_list < 2 ^ 64
    → Linked pool n (link_slots rounds i pool)
unfolding link_slots pool_free slots
link_slots-Linked zero i n pool e roomy start word c head =
    let all : n ≡ i = omega (arith, e) in record { same = refl; chain = rw all c }
link_slots-Linked (suc rounds) i n pool e roomy start word c head =
    let le : (i + 1) * pool.slot_size ≤ n * pool.slot_size =
      mul-le-mul_right pool.slot_size (omega arith) in
    let at : i * pool.slot_size % 2 ^ 64 ≡ i * pool.slot_size = omega (arith, le) in
    let place = pool.pool_memory + i * pool.slot_size in
    let chain : Chain (store_bytes 8 pool.bytes place pool.free_list) place
        (slots pool.pool_memory pool.slot_size (suc i)) =
      push pool.bytes pool.free_list place (slots pool.pool_memory pool.slot_size i) c head
        (omega arith)
        λ b h.
          let slot = count-IsSlot pool.pool_memory pool.slot_size i b h in
          inl (omega (arith, slot.place, mul-le-mul_right pool.slot_size slot.below)) in
    let next : i + 1 ≡ suc i = omega arith in
    let rest =
      link_slots-Linked rounds (i + 1) n
        (record pool { bytes = store_bytes 8 pool.bytes place pool.free_list; free_list = place })
        (omega arith) roomy start word (rw next chain) (omega (arith, le)) in
    rw at (record { same = rest.same; chain = rest.chain })

-- The pool of a request that fits into `size_t`.
pub record Created (num_objects slot_size : ℕ) (out : Option Pool) : Type 0 where
  pub pool : Pool
  pub given : out ≡ some pool
  pub kept : Kept pool []
  pub memory_at : pool.pool_memory ≡ 72
  pub slot_at : pool.slot_size ≡ slot_size
  pub slots_at : pool.num_slots ≡ num_objects

module _ (k m num_objects object_size : ℕ) (pages : k < 64) (power : m < 64)
    (roomy : 8 ≤ object_size) (word : object_size + 2 ^ m ≤ 2 ^ 64)
    (memory : 72 + num_objects * align_up object_size (2 ^ m) + 2 ^ k ≤ 2 ^ 64) where
  laid_out-Created :
      (asked : ℕ) (out : Option Block)
      → asked ≡ 72 + num_objects * align_up object_size (2 ^ m)
      → Pages (2 ^ k) asked out
      → Created num_objects
          (align_up object_size (2 ^ m))
          (laid_out num_objects (align_up object_size (2 ^ m)) (2 ^ m) out)
  unfolding laid_out slots count
  laid_out-Created asked out needed block =
      let size = align_up object_size (2 ^ m) in
      let start : Pool = record {
        head_block = block.block;
        pool_memory = 72;
        slot_size = size;
        num_slots = num_objects;
        slot_alignment = 2 ^ m;
        free_list = 0;
        bytes = λ place. 0;
      } in
      let aligned = align_up-AlignedUp m object_size power word in
      let linked =
        link_slots-Linked num_objects 0 num_objects start (omega arith)
          (omega (arith, roomy, aligned.low)) (omega arith)
          (omega (arith, memory, one-le-pow k 2 (omega arith))) refl (omega arith) in
      rw block.given (record {
        pool = link_slots num_objects 0 start;
        given = refl;
        kept = rw linked.same (record {
          free = slots 72 size num_objects;
          roomy = omega (arith, roomy, aligned.low);
          start = omega arith;
          word = omega (arith, memory);
          fits = omega (arith, block.room, needed);
          chain = linked.chain;
          whole = λ a. omega arith;
          total = omega (arith, length-slots 72 size num_objects);
        });
        memory_at = ap (λ p. p.pool_memory) linked.same;
        slot_at = ap (λ p. p.slot_size) linked.same;
        slots_at = ap (λ p. p.num_slots) linked.same;
      })

  -- A pool for objects of at least 8 bytes, the size of a link, with an alignment and pages that are
  -- powers of two, whose memory fits into `size_t` and is granted, starts with all its slots free,
  -- linked in its block's memory, inside the block, and no slot live.
  pub pool_create-Created :
      Created num_objects
        (align_up object_size (2 ^ m))
        (pool_create (2 ^ k) true num_objects object_size (2 ^ m))
  unfolding pool_create
  pool_create-Created =
      let size = align_up object_size (2 ^ m) in
      let asked = (num_objects * size + 24 + 48) % 2 ^ 64 in
      let needed : asked ≡ 72 + num_objects * size =
        omega (arith, memory, one-le-pow k 2 (omega arith)) in
      laid_out-Created asked (new_os_block (2 ^ k) true asked) needed
        (new_os_block-Pages k asked pages (omega (arith, needed, memory)))
