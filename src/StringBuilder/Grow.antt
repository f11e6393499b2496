-- ===== src/StringBuilder/Grow.antt =====
-- The growth of a builder's buffer in an arena.
use c_roblib.Base.{
  ℕ, ◌+◌, ◌-◌, ◌*◌, ◌/◌, ◌^◌, ◌≤◌, ◌<◌, ◌≡◌, ◌⊎◌, refl, ap, ◌∙◌, arith, true, false, some, ltb, leb,
  ◌==◌, length,
}
use c_roblib.Allocator.{Arena, arena_alloc, round_up}
use c_roblib.Allocator.Align.{align_up-AlignedUp}
use c_roblib.Allocator.Serve.{current, alloc_impl_onward}
use c_roblib.StringBuilder.{
  StringBuilder, System, Outcome, scaled, ensure_capacity, grow_buffer, grow_in_place,
}

-- The growth reports success, and the buffer that it leaves ends behind its block.
pub record Overrun (arena : Arena) (sb : StringBuilder) (start n : ℕ) (out : Outcome) : Type 0 where
  pub success : out.0 ≡ true
  pub unmoved : out.1.1.place ≡ some (arena.current_block, start)
  pub size : out.1.1.capacity ≡ n
  pub beyond : (current arena).block_size < start + n + 1

module _ (page_size : ℕ) (convert : ℕ → ℕ) (arena : Arena) (sb : StringBuilder)
    (start wanted : ℕ) where
  abbrev system : System
  system = record { page_size = page_size; granted = true; convert = convert }

  in_place :
      (n : ℕ) (new_mem : ℕ × ℕ)
      → (arena_alloc page_size true arena (n - sb.capacity) 1).0 ≡ some new_mem
      → (let out = grow_in_place system arena sb n in
          (out.0 ≡ true) × (out.1.1.place ≡ sb.place) × (out.1.1.capacity ≡ n))
  unfolding grow_in_place
  in_place n new_mem e = rw (e, grow_in_place) (refl, refl, refl)

  -- Where the buffer of a builder ends at the arena's first free byte and would grow behind the end of
  -- its block, the growth reports success and leaves the buffer where it is: the arena gave the new
  -- bytes in its next block.
  pub ensure_capacity_overruns :
      sb.place ≡ some (arena.current_block, start)
      → arena.offset ≡ start + sb.capacity + 1
      → sb.capacity < wanted
      → wanted * 4 / 3 < 2 ^ 32
      → start + wanted * 4 / 3 + 50 ≤ 2 ^ 64
      → (current arena).usable_size ≤ (current arena).block_size
      → (current arena).block_size < start + wanted * 4 / 3 + 1
      → (arena.current_block + 1 < length arena.blocks) ⊎ (arena.auto_grow ≡ true)
      → Overrun arena sb start (wanted * 4 / 3) (ensure_capacity system arena sb wanted)
  unfolding ensure_capacity scaled grow_buffer grow_in_place arena_alloc round_up
  ensure_capacity_overruns at end small word memory usable past onward =
      let n = wanted * 4 / 3 in
      let more = n - sb.capacity in
      let aligned = align_up-AlignedUp 0 arena.offset (omega arith) (omega (arith, end, memory)) in
      let found =
        alloc_impl_onward page_size arena more 0 (omega arith) (omega (arith, end, memory))
          (omega (arith, end, past, usable, aligned.low)) onward in
      let no_room : leb wanted sb.capacity ≡ false = ground arith in
      let in_range : scaled system wanted ≡ n = ground arith in
      let larger : ltb n sb.capacity ≡ false = ground arith in
      let given = in_place n (arena.current_block + 1, found.0) found.1 in
      let here : (arena.offset == start + sb.capacity + 1) ≡ true = ground arith in
      let block : (arena.current_block == arena.current_block) ≡ true = ground arith in
      let there : grow_buffer system arena sb n sb.place ≡ grow_in_place system arena sb n =
        ap (grow_buffer system arena sb n) at ∙ rw (block, here) refl in
      rw (no_room, in_range, larger, there)
        (record { success = given.0; unmoved = given.1 ∙ at; size = given.2; beyond = past })
