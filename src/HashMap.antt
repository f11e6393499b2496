-- ===== src/HashMap.antt =====
-- The hash map: src/map/hashmap.c and include/roblib/hashmap.h. `fill_factor` is 0.75 in every map.
pub mod Keys
pub mod Equality
pub mod Buckets
pub mod Placed
pub mod Growth
pub mod Moved
pub mod Inv
pub mod Updates
pub mod Rewritten
pub mod Remove
pub mod Insert
pub mod Put
pub mod Stuck
pub mod Create
use c_roblib.Base.{
  ℕ, zero, suc, ◌+◌, ◌-◌, ◌*◌, ◌/◌, ◌%◌, ◌^◌, min, max, Bool, true, false, not, ◌&&◌, ◌||◌, List,
  [], ◌∷◌, Option, none, some, ltb, leb, ◌==◌, if◌then◌else◌, length, get_or, set, replicate,
  bit_and,
}
use c_roblib.Collections.{ColValue, value_null, equals_value, next_power_of_two}
use c_roblib.HashMap.Keys.{MapKey, hash_function, equals_key}

-- `MapNode`; `next` is the rest of the list that a bucket is.
pub record MapNode : Type 0 where
  pub key : MapKey
  pub value : ColValue
  pub hash : ℕ

-- `HashMap`, less its policies. `load` is the fraction `size / num_buckets`.
pub record HashMap : Type 0 where
  pub buckets : List (List MapNode)
  pub size : ℕ
  pub fill_capacity : ℕ
  pub load : ℕ × ℕ
  pub num_buckets : ℕ

abbrev pub max_num_buckets : ℕ
max_num_buckets = 2 ^ 28

-- `map_calc_bucket_index`
abbrev pub calc_bucket_index : ℕ → ℕ → ℕ
calc_bucket_index hashcode num_buckets = bit_and hashcode (num_buckets - 1)

-- The bucket for a key.
abbrev pub index_for : MapKey → ℕ → ℕ
index_for key num_buckets = calc_bucket_index (hash_function key) num_buckets

abbrev pub bucket_for : List (List MapNode) → ℕ → MapKey → List MapNode
bucket_for buckets num_buckets key = get_or buckets (index_for key num_buckets) []

-- The loop of `map_node_for` and `map_get`.
unfoldable pub find : MapKey → List MapNode → Option MapNode
find key [] = none
find key (node ∷ next) = if equals_key key node.key then some node else find key next

-- `map_get`
abbrev pub value_of : Option MapNode → ColValue
value_of none = value_null
value_of (some node) = node.value

unfoldable pub get : HashMap → MapKey → ColValue
unfolding find
get map key = value_of (find key (bucket_for map.buckets map.num_buckets key))

-- `map_recalc_load`
abbrev pub recalc_load : HashMap → HashMap
recalc_load map = record map { load = (map.size, map.num_buckets) }

-- One node of the rehash in `map_ensure_capacity`, put at the head of its new bucket.
unfoldable pub move_node : ℕ → List (List MapNode) → MapNode → List (List MapNode)
move_node new_num_buckets new_buckets current =
    let new_index = calc_bucket_index current.hash new_num_buckets in
    set new_buckets new_index (current ∷ get_or new_buckets new_index [])

unfoldable pub move_bucket : ℕ → List (List MapNode) → List MapNode → List (List MapNode)
unfolding move_node
move_bucket n new_buckets [] = new_buckets
move_bucket n new_buckets (current ∷ next) = move_bucket n (move_node n new_buckets current) next

unfoldable pub rehash : ℕ → List (List MapNode) → List (List MapNode) → List (List MapNode)
unfolding move_bucket
rehash n new_buckets [] = new_buckets
rehash n new_buckets (bucket ∷ buckets) = rehash n (move_bucket n new_buckets bucket) buckets

-- The `while` loop of `map_ensure_capacity`, of which every round tests the same numbers; `none`
-- where it still runs after the rounds.
unfoldable pub grow_loop : ℕ → HashMap → ℕ → Option ℕ
grow_loop zero map wanted_buckets = none
grow_loop (suc rounds) map wanted_buckets =
    let later = grow_loop rounds map wanted_buckets in
    let new_num_buckets = map.num_buckets * 2 in
    if ltb new_num_buckets wanted_buckets && ltb new_num_buckets max_num_buckets
    then later
    else some new_num_buckets

-- `map_ensure_capacity` behind its loop; `allocated` says whether the allocator has room for the new
-- buckets.
unfoldable pub enlarge : Bool → HashMap → ℕ → HashMap
unfolding rehash
enlarge allocated map doubled =
    let new_num_buckets = min doubled max_num_buckets in
    if leb new_num_buckets map.num_buckets || not allocated
    then map
    else recalc_load (record map {
      buckets = rehash new_num_buckets (replicate new_num_buckets []) map.buckets;
      num_buckets = new_num_buckets;
      fill_capacity = new_num_buckets * 3 / 4;
    })

-- `map_ensure_capacity`, with the rounds that its loop may take. `wanted_capacity` is an `unsigned`.
unfoldable pub ensure_capacity : ℕ → Bool → HashMap → ℕ → Option HashMap
unfolding grow_loop enlarge
ensure_capacity rounds allocated map size =
    let wanted_capacity = size % 2 ^ 32 in
    if ltb wanted_capacity map.fill_capacity
    then some map
    else elim (grow_loop rounds map (wanted_capacity * 4 / 3)) [
      | none ↦ none
      | some doubled ↦ some (enlarge allocated map doubled)
    ]

-- `map_set_value` of the first node with the key.
unfoldable pub replace : MapKey → ColValue → List MapNode → List MapNode
replace key value [] = []
replace key value (node ∷ next) =
    if equals_key key node.key
    then record node { value = value } ∷ next
    else node ∷ replace key value next

-- `map_put` into its bucket; `allocated` says whether the allocator has room for a node.
unfoldable pub put_node : Bool → HashMap → MapKey → ColValue → HashMap
unfolding find replace
put_node allocated map key value =
    let hashcode = hash_function key in
    let bucket_index = calc_bucket_index hashcode map.num_buckets in
    let bucket = get_or map.buckets bucket_index [] in
    elim (find key bucket) [
      | some current ↦ record map {
        buckets = set map.buckets bucket_index (replace key value bucket);
      }
      | none ↦
          if allocated
          then recalc_load (record map {
            buckets =
                set map.buckets bucket_index
                  (record { key = key; value = value; hash = hashcode } ∷ bucket);
            size = map.size + 1;
          })
          else map
    ]

-- The first part of `map_put`.
unfoldable pub grown : ℕ → Bool → HashMap → Option HashMap
unfolding ensure_capacity
grown rounds allocated map =
    if leb map.fill_capacity map.size
    then ensure_capacity rounds allocated map (map.size + 1)
    else some map

unfoldable pub put : ℕ → Bool → Bool → HashMap → MapKey → ColValue → Option HashMap
unfolding grown put_node
put rounds buckets_allocated node_allocated map key value =
    elim (grown rounds buckets_allocated map) [
      | none ↦ none
      | some map' ↦ some (put_node node_allocated map' key value)
    ]

-- `map_remove`
unfoldable pub unlink : MapKey → List MapNode → List MapNode
unlink key [] = []
unlink key (current ∷ next) = if equals_key key current.key then next else current ∷ unlink key next

unfoldable pub remove : HashMap → MapKey → HashMap
unfolding find unlink
remove map key =
    let index = index_for key map.num_buckets in
    let bucket = get_or map.buckets index [] in
    elim (find key bucket) [
      | none ↦ map
      | some current ↦
          recalc_load (record map {
            buckets = set map.buckets index (unlink key bucket);
            size = map.size - 1;
          })
    ]

-- `map_try_get`, `map_contains_key` and `map_get_or`: a stored null counts as no value.
abbrev is_null : ColValue → Bool
is_null value_null = true
is_null _ = false

unfoldable pub contains_key : HashMap → MapKey → Bool
unfolding get
contains_key map key = not (is_null (get map key))

unfoldable pub get_or_fallback : HashMap → MapKey → ColValue → ColValue
unfolding get
get_or_fallback map key fallback =
    let value = get map key in if is_null value then fallback else value

-- `map_contains_value`
unfoldable pub bucket_contains : ColValue → List MapNode → Bool
bucket_contains value [] = false
bucket_contains value (current ∷ next) =
    equals_value value current.value || bucket_contains value next

unfoldable pub contains_value : List (List MapNode) → ColValue → Bool
unfolding bucket_contains
contains_value [] value = false
contains_value (bucket ∷ buckets) value =
    bucket_contains value bucket || contains_value buckets value

-- `map_clear`
unfoldable pub clear : HashMap → HashMap
clear map = record map { buckets = replicate map.num_buckets []; load = (0, 1); size = 0 }

-- `map_create`, where the allocator has room: the capacity is clamped, and `initial_capacity / 0.75`
-- rounded down is `initial_capacity * 4 / 3`.
abbrev pub clamped : ℕ → ℕ
clamped initial_capacity = min (max initial_capacity 12) 201326592

unfoldable pub create : ℕ → HashMap
create initial_capacity =
    let num_buckets = next_power_of_two (clamped initial_capacity * 4 / 3) 16 max_num_buckets in
    record {
      buckets = replicate num_buckets [];
      size = 0;
      fill_capacity = num_buckets * 3 / 4;
      load = (0, 1);
      num_buckets = num_buckets;
    }
