-- ===== src/HashMap/Stuck.antt =====
-- A map that could not grow in time: the loop in `map_ensure_capacity` has no body.
use c_roblib.Base.{
  ℕ, zero, suc, ◌+◌, ◌*◌, ◌/◌, ◌^◌, ◌≡◌, ◌<◌, ◌≤◌, ◌↔◌, refl, Bool, true, ◌&&◌, none, arith, ltb,
}
use c_roblib.Collections.{ColValue}
use c_roblib.HashMap.{HashMap, put, grown, grow_loop, ensure_capacity, max_num_buckets}
use c_roblib.HashMap.Keys.{MapKey}

-- A full map for which twice its buckets are too few for its entries and one more, and fewer than
-- the greatest number.
abbrev pub IsStuck : HashMap → Type 0
IsStuck map =
    (map.fill_capacity ≤ map.size)
    × (map.num_buckets * 2 < (map.size + 1) * 4 / 3)
    × (map.num_buckets * 2 < max_num_buckets)

-- The loop tests the same numbers in every round.
grow_loop_lem :
    (rounds : ℕ) (map : HashMap) (wanted_buckets : ℕ)
    → map.num_buckets * 2 < wanted_buckets
    → map.num_buckets * 2 < max_num_buckets
    → grow_loop rounds map wanted_buckets ≡ none
unfolding grow_loop
grow_loop_lem zero map wanted_buckets few below = refl
grow_loop_lem (suc rounds) map wanted_buckets few below =
    let same : (ltb (map.num_buckets * 2) wanted_buckets
          && ltb (map.num_buckets * 2) max_num_buckets)
        ≡ true =
      ground arith in
    rw (same, grow_loop) (grow_loop_lem rounds map wanted_buckets few below)

module _ (buckets_allocated node_allocated : Bool) (map : HashMap) (k : MapKey) (w : ColValue)
    (small : map.size + 1 < 2 ^ 32) where
  stays : IsStuck map → (rounds : ℕ) → put rounds buckets_allocated node_allocated map k w ≡ none
  unfolding put grown ensure_capacity
  stays (full, few, below) rounds =
      ground (arith, grow_loop_lem rounds map ((map.size + 1) * 4 / 3) few below)

  leaves : put 1 buckets_allocated node_allocated map k w ≡ none → IsStuck map
  unfolding put grown ensure_capacity grow_loop
  leaves never = ground arith

  -- With fewer than 2^32 - 1 entries, `map_put` never comes back, however many rounds its loop takes,
  -- exactly where the map is full, and twice its buckets are too few for the entries and one more and fewer than the greatest
  -- number. That is the state after enough allocations of buckets failed.
  pub put-IsStuck :
      ((rounds : ℕ) → put rounds buckets_allocated node_allocated map k w ≡ none) ↔ IsStuck map
  put-IsStuck = (λ never. leaves (never 1), stays)
