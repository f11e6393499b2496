-- ===== src/Tests/Allocators.antt =====
-- An arena of two blocks, and a pool of two slots of 16 bytes.
use c_roblib.Base.{
  ℕ, ◌+◌, ◌%◌, ◌<◌, ◌≡◌, inl, refl, sym, ◌∙◌, [], ◌∷◌, arith, true, false, none, some,
}
use c_roblib.Allocator.{
  Arena, align_up, alloc_impl, round_up, round_up_portable, round_up_msvc, new_os_block,
}
use c_roblib.Collections.{next_power_of_two}
use c_roblib.Allocator.Round.{LeastPower, round_up_lem, next_power_of_two-LeastPower}
use c_roblib.Allocator.Serve.{alloc_impl_overruns, alloc_impl_refused, alloc_impl_misaligned}
use c_roblib.Allocator.Placed.{Placed, alloc_impl-Placed}
use c_roblib.Allocator.Pool.{Pool, pool_create, pool_alloc, pool_free, link_slots, laid_out}
use c_roblib.Allocator.Pool.Inv.{Kept}
use c_roblib.Allocator.Pool.Slots.{count, without}
use c_roblib.Allocator.Pool.Create.{Created, pool_create-Created}
use c_roblib.Allocator.Pool.Steps.{
  Reach, created, step, allocate, release, Reach-Kept, Allocated, pool_alloc-Allocated,
}
use c_roblib.Allocator.Pool.Aligned.{pool_create_misaligned}

abbrev arena : Arena
arena = record {
  blocks =
      record { block_size = 4096; usable_size = 4016 }
      ∷ record { block_size = 4096; usable_size = 4072 }
      ∷ [];
  current_block = 0;
  default_block_size = 4096;
  default_alignment = 16;
  offset = 4000;
  auto_grow = false;
}

-- An arena of one block that grows.
abbrev growing : Arena
growing = record arena {
  blocks = record { block_size = 4096; usable_size = 4016 } ∷ [];
  auto_grow = true;
}

alloc_impl-Placed_example : Placed true growing 5000 8 (alloc_impl 4096 true growing 5000 8)
alloc_impl-Placed_example =
    alloc_impl-Placed 12 true growing 5000 3 (omega arith) (omega arith) (omega arith) (omega arith)
      (omega arith)

alloc_impl_overruns_example :
    (place : ℕ) × ((alloc_impl 4096 true arena 5000 8).0 ≡ some (1, place)) × (4096 < place + 5000)
unfolding align_up
alloc_impl_overruns_example =
    alloc_impl_overruns 4096 true arena 5000 3 (omega arith) (omega arith) (omega arith)
      (omega arith) (omega arith)

abbrev small : Arena
small = record arena { blocks = record { block_size = 4096; usable_size = 4016 } ∷ [] }

alloc_impl_refused_example : alloc_impl 4096 true small 5000 8 ≡ (none, small)
unfolding align_up
alloc_impl_refused_example =
    alloc_impl_refused 4096 true small 5000 3 (omega arith) (omega arith) (omega arith)
      (omega arith) refl

alloc_impl_misaligned_example : (alloc_impl 4096 true arena 100 16).0 ≡ some (1, 24)
unfolding align_up
alloc_impl_misaligned_example =
    alloc_impl_misaligned 4096 arena 100 (omega arith) (omega arith) refl (inl (omega arith))

pool_create-Created_example : Created 2 (align_up 16 8) (pool_create 4096 true 2 16 8)
unfolding align_up
pool_create-Created_example =
    pool_create-Created 12 3 2 16 (omega arith) (omega arith) (omega arith) (omega arith)
      (omega arith)

-- The pool of two slots before its first allocation.
abbrev pool_for : ℕ → Pool
pool_for slot_alignment = link_slots 2 0 (record {
  head_block = record { block_size = 4096; usable_size = 4072 };
  pool_memory = 72;
  slot_size = 16;
  num_slots = 2;
  slot_alignment = slot_alignment;
  free_list = 0;
  bytes = λ place. 0;
})

abbrev start : Pool
start = pool_for 8

start_given : pool_create 4096 true 2 16 8 ≡ some start
unfolding pool_create laid_out align_up new_os_block
start_given = refl

start-Kept : Kept start []
unfolding align_up
start-Kept =
    let first =
      pool_create-Created 12 3 2 16 (omega arith) (omega arith) (omega arith) (omega arith)
        (omega arith) in
    let same : some first.pool ≡ some start = sym first.given ∙ start_given in
    let at : first.pool ≡ start = cc in rw (sym at) first.kept

-- Its second slot is taken, its first one too, and the second one given back.
used : Reach start (pool_free (pool_alloc (pool_alloc start).1).1 88) (72 ∷ [])
unfolding link_slots pool_alloc pool_free count without
used =
    step (step (step created (allocate 88 refl refl refl)) (allocate 72 refl refl refl))
      (release 88 (omega arith) refl refl)

Reach-Kept_example : Kept (pool_free (pool_alloc (pool_alloc start).1).1 88) (72 ∷ [])
Reach-Kept_example = Reach-Kept start-Kept used

pool_alloc-Allocated_example :
    Allocated
      (pool_free (pool_alloc (pool_alloc start).1).1 88)
      (72 ∷ [])
      (pool_alloc (pool_free (pool_alloc (pool_alloc start).1).1 88))
pool_alloc-Allocated_example = pool_alloc-Allocated start-Kept used

pool_create_misaligned_example : 88 % 16 ≡ 8
unfolding align_up pool_create laid_out new_os_block link_slots pool_alloc
pool_create_misaligned_example =
    pool_create_misaligned 12 2 16 (omega arith) (omega arith) (omega arith) (omega arith)
      (pool_for 16) refl (pool_for 16) [] created 88 refl

round_up_lem_example :
    (round_up 100 ≡ round_up_portable 100)
    × (round_up 100 ≡ round_up_msvc 100)
    × LeastPower 100 (round_up 100)
round_up_lem_example = round_up_lem 100 (omega arith)

next_power_of_two-LeastPower_example : LeastPower 100 (next_power_of_two 100 16 1000)
next_power_of_two-LeastPower_example =
    next_power_of_two-LeastPower 100 16 1000 (omega arith) (omega arith) (omega arith) (omega arith)
