-- ===== src/HashMap/Create.antt =====
-- `map_create` and the maps that it makes.
use c_roblib.Base.{
  ℕ, ◌+◌, ◌-◌, ◌*◌, ◌/◌, ◌%◌, ◌^◌, min, ◌≡◌, ◌<◌, ◌≤◌, inl, refl, sym, ap, List, [],
  length-replicate, get_or-replicate, arith, leb, ltb, Bool-cases, inr,
}
use c_roblib.Base.Bits.{bit_or_least, bit_or_below}
use c_roblib.Collections.{value_null, smear, fill_below, next_power_of_two}
use c_roblib.HashMap.{MapNode, find, value_of, get, create, clamped, index_for, max_num_buckets}
use c_roblib.HashMap.Keys.{MapKey}
use c_roblib.HashMap.Placed.{replicate-Placed, total-replicate}
use c_roblib.HashMap.Inv.{IsValid}

smear_bounds :
    (places x w : ℕ)
    → w < 2 ^ 28
    → w / 2 ^ places ≤ w
    → x ≤ w
    → (x ≤ smear places w) × (smear places w < 2 ^ 28)
smear_bounds places x w h less low = (
  omega (arith, bit_or_least w (w / 2 ^ places)),
  bit_or_below 28 w (w / 2 ^ places) h (omega arith),
)

fill_below_bounds : (w : ℕ) → w < 2 ^ 28 → (w ≤ fill_below w) × (fill_below w < 2 ^ 28)
unfolding fill_below
fill_below_bounds w h =
    let (a, a') = smear_bounds 1 w w h (omega arith) (omega arith) in
    let (b, b') = smear_bounds 2 w (smear 1 w) a' (omega arith) a in
    let (c, c') = smear_bounds 4 w (smear 2 (smear 1 w)) b' (omega arith) b in
    let (d, d') = smear_bounds 8 w (smear 4 (smear 2 (smear 1 w))) c' (omega arith) c in
    let (e, e') = smear_bounds 16 w (smear 8 (smear 4 (smear 2 (smear 1 w)))) d' (omega arith) d in
    smear_bounds 32 w (smear 16 (smear 8 (smear 4 (smear 2 (smear 1 w))))) e' (omega arith) e

-- `col_next_power_of_two` gives no less than it is asked for, within its bounds.
next_bounds :
    (wanted : ℕ)
    → wanted ≤ max_num_buckets
    → (16 ≤ next_power_of_two wanted 16 max_num_buckets)
      × (next_power_of_two wanted 16 max_num_buckets ≤ max_num_buckets)
      × (min wanted (max_num_buckets - 1) ≤ next_power_of_two wanted 16 max_num_buckets)
unfolding next_power_of_two
next_bounds wanted h =
    let f = fill_below_bounds (min wanted (max_num_buckets - 1) - 1) (omega arith) in
    elim (Bool-cases (ltb wanted 16)) [
      | inl e ↦ rw (e, next_power_of_two) (ground arith)
      | inr e ↦ elim (Bool-cases (leb max_num_buckets wanted)) [
        | inl c ↦
            let before : (max_num_buckets - 1 + 2 ^ 64 - 1) % 2 ^ 64
                ≡ min wanted (max_num_buckets - 1) - 1 =
              ground arith in
            rw (c, e, before, next_power_of_two) (ground arith)
        | inr c ↦
            let before : (wanted + 2 ^ 64 - 1) % 2 ^ 64 ≡ min wanted (max_num_buckets - 1) - 1 =
              ground arith in
            rw (c, e, before, next_power_of_two) (ground arith)
      ]
    ]

-- `map_create` gives a valid map without entries, in which every key reads as null, and
-- whose `fill_capacity` is at most one below the capacity asked for, clamped to 12 and 201326592.
pub create_lem :
    (initial_capacity : ℕ) (k : MapKey)
    → IsValid (create initial_capacity)
      × ((create initial_capacity).size ≡ 0)
      × (get (create initial_capacity) k ≡ value_null)
      × (clamped initial_capacity ≤ (create initial_capacity).fill_capacity + 1)
unfolding create get find
create_lem initial_capacity k =
    let n = next_power_of_two (clamped initial_capacity * 4 / 3) 16 max_num_buckets in
    let (many, bounded, wanted) = next_bounds (clamped initial_capacity * 4 / 3) (omega arith) in
    (
      record {
        count = length-replicate {A = List MapNode} n [];
        many = many;
        bounded = bounded;
        placed = replicate-Placed n 0 n;
        sized = sym (total-replicate n);
        filled = refl;
        in_capacity = inl (omega arith);
      },
      refl,
      ap (λ b. value_of (find k b)) (get_or-replicate n (index_for k n) []),
      omega arith,
    )
