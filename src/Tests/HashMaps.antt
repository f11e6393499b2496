-- ===== src/Tests/HashMaps.antt =====
-- A hash map of sixteen buckets.
use c_roblib.Base.{
  ℕ, zero, suc, ◌≡◌, ◌↔◌, ◌^◌, true, false, [], ◌∷◌, none, some, if◌then◌else◌, arith, refl,
}
use c_roblib.Collections.{next_power_of_two, fill_below, value_long, value_null, equals_double}
use c_roblib.HashMap
use c_roblib.HashMap.{HashMap, MapNode}
use c_roblib.HashMap.Keys.{MapKey, hash_function, key_long, key_double, key_string, equals_key}
use c_roblib.HashMap.Inv.{IsValid}
use c_roblib.HashMap.Create.{create_lem}
use c_roblib.HashMap.Put.{put_refines}
use c_roblib.HashMap.Remove.{remove_refines}
use c_roblib.HashMap.Stuck.{IsStuck, put-IsStuck}

abbrev map : HashMap
map = HashMap.create 12

map-IsValid : IsValid map
map-IsValid = (create_lem 12 (key_long 0)).0

abbrev one : MapKey
one = key_string (b'o' ∷ b'n' ∷ b'e' ∷ [])

abbrev two : MapKey
two = key_long 2

with_one :
    (map' : HashMap) × (HashMap.put 1 true true map one (value_long 1) ≡ some map')
    × IsValid map'
    × (HashMap.get map' one ≡ (if equals_key one one then value_long 1 else HashMap.get map one))
with_one = put_refines 0 map one one (value_long 1) map-IsValid

put_refines_example :
    (map' : HashMap) × (HashMap.put 1 true true with_one.0 two (value_long 7) ≡ some map')
    × IsValid map'
    × (HashMap.get map' one
        ≡ (if equals_key one two then value_long 7 else HashMap.get with_one.0 one))
put_refines_example = put_refines 0 with_one.0 two one (value_long 7) with_one.2

remove_refines_example :
    IsValid (HashMap.remove with_one.0 one)
    × (HashMap.get (HashMap.remove with_one.0 one) one
        ≡ (if equals_key one one then value_null else HashMap.get with_one.0 one))
remove_refines_example = remove_refines with_one.0 one one with_one.2

-- The two zeros.
zeros_equal : equals_key (key_double (2 ^ 63)) (key_double 0) ≡ true
unfolding equals_key equals_double
zeros_equal = refl

-- The map after a number of puts that got no memory for buckets.
unfoldable crowd : ℕ → HashMap → HashMap
unfolding HashMap.put
crowd zero m = m
crowd (suc n) m = elim (HashMap.put 1 false true m (key_long n) (value_long 7)) [
  | none ↦ m
  | some m' ↦ crowd n m'
]

-- Sixteen buckets with two dozen entries.
abbrev crowded : HashMap
crowded = crowd 24 map

put-IsStuck_example :
    ((rounds : ℕ) → HashMap.put rounds true true crowded one (value_long 7) ≡ none)
    ↔ IsStuck crowded
unfolding crowd HashMap.create next_power_of_two fill_below hash_function equals_key
put-IsStuck_example = put-IsStuck true true crowded one (value_long 7) (omega arith)

crowded_lem : IsStuck crowded
unfolding crowd HashMap.create next_power_of_two fill_below hash_function equals_key
crowded_lem = (omega arith, omega arith, omega arith)
