-- ===== src/ArrayList.antt =====
-- The array list: src/list/array_list.c and include/roblib/array_list.h. `elements` is the whole
-- buffer, of which the list uses the first `size`; memory that an allocation leaves as it was is
-- `value_none`. `allocated` says whether the allocator has room, and `none` that a call never
-- returns. The list pointer is never null.
pub mod Insert
pub mod Remove
use c_roblib.Base.{
  ℕ, zero, suc, ◌+◌, ◌-◌, ◌*◌, ◌%◌, ◌^◌, Bool, true, false, not, ◌&&◌, ◌||◌, List, [], ◌∷◌, ◌++◌,
  Option, none, some, if◌then◌else◌, ltb, leb, ◌==◌, length, get_or, set, take, replicate,
}
use c_roblib.Base.Shift.{shift_up, shift_down}
use c_roblib.Base.Doubling.{doubled}
use c_roblib.Collections.{
  ColValue, value_none, value_string, value_null, equals_value, next_power_of_two, CollectionsError,
  col_ok, overflow, out_of_mem, index_out_of_range, ColValuePolicyType, policy_none, policy_copy,
  policy_take, policy_shared,
}

-- `ListValuePolicy`: the policy type, and whether there is a callback for values that are freed.
pub record ListValuePolicy : Type 0 where
  pub policy_type : ColValuePolicyType
  pub on_free_value : Bool

pub record ArrayList : Type 0 where
  pub elements : List ColValue
  pub size : ℕ
  pub capacity : ℕ
  pub value_policy : ListValuePolicy

-- What happens to a value that is freed.
pub data Freed : Type 0 where
  by_callback : ColValue → Freed
  bytes : List ℕ → Freed

owns : ColValuePolicyType → Bool
owns policy_shared = false
owns _ = true

-- `list_policy_value_free_default`
free_default : ListValuePolicy → ColValue → List Freed
unfolding owns
free_default policy (value_string text) = if owns policy.policy_type then bytes text ∷ [] else []
free_default policy _ = []

-- `list_free_value_if`
unfoldable pub free_value_if : ArrayList → ColValue → List Freed
unfolding free_default
free_value_if list value =
    if list.value_policy.on_free_value
    then by_callback value ∷ []
    else free_default list.value_policy value

abbrev list_min_capacity : ℕ
list_min_capacity = 16

abbrev list_max_capacity : ℕ
list_max_capacity = 2 ^ 28

-- `mem_realloc_bytes` to `new_capacity` elements. The number of bytes, the product with the size of an
-- element, is left out: it wraps around only where no memory could hold the list that was there.
abbrev reallocated : ArrayList → ℕ → ArrayList
reallocated list new_capacity = record list {
  elements = list.elements ++ replicate (new_capacity - list.capacity) value_none;
  capacity = new_capacity;
}

-- `list_ensure_capacity`
unfoldable pub ensure_capacity : Bool → ArrayList → ℕ → Option (CollectionsError × ArrayList)
ensure_capacity allocated list wanted_capacity =
    if ltb (2 ^ 63) wanted_capacity
    then some (overflow, list)
    else if leb list.capacity wanted_capacity
    then elim (doubled 64 (if list.capacity == 0 then 1 else list.capacity * 2 % 2 ^ 64)
        wanted_capacity) [
          | none ↦ none
          | some new_capacity ↦
              if allocated
              then some (col_ok, reallocated list new_capacity)
              else some (out_of_mem, list)
        ]
    else some (col_ok, list)

-- What a call does once there is room.
abbrev with_room :
    Option (CollectionsError × ArrayList)
    → (ArrayList → ArrayList)
    → Option (CollectionsError × ArrayList)
with_room none store = none
with_room (some (col_ok, list)) store = some (col_ok, store list)
with_room (some (error, list)) store = some (error, list)

-- `list_append`
unfoldable pub append : Bool → ArrayList → ColValue → Option (CollectionsError × ArrayList)
unfolding ensure_capacity
append allocated list value =
    with_room (ensure_capacity allocated list list.size)
      λ room. record room { elements = set room.elements room.size value; size = room.size + 1 }

-- `list_insert`
unfoldable pub insert : Bool → ArrayList → ℕ → ColValue → Option (CollectionsError × ArrayList)
unfolding ensure_capacity shift_up
insert allocated list index value =
    if ltb list.size index
    then some (index_out_of_range, list)
    else with_room (ensure_capacity allocated list list.size) λ room. record room {
      elements = set (shift_up value_none (room.size - index) room.size room.elements) index value;
      size = room.size + 1;
    }

-- `list_remove`
unfoldable pub remove : ArrayList → ℕ → ColValue × ArrayList
unfolding shift_down
remove list index =
    if (list.size == 0 && ltb 0 index)
      || (list.size == index || ltb ((list.size + 2 ^ 64 - 1) % 2 ^ 64) index)
    then (value_null, list)
    else (
      get_or list.elements index value_none,
      record list {
        elements = shift_down value_none (list.size - (index + 1)) (index + 1) list.elements;
        size = list.size - 1;
      },
    )

-- `list_get`
unfoldable pub get : ArrayList → ℕ → ColValue
get list index = if leb list.size index then value_null else get_or list.elements index value_none

contains_loop : ℕ → ℕ → ArrayList → ColValue → Bool
contains_loop zero i list value = false
contains_loop (suc rounds) i list value =
    elim (equals_value (get_or list.elements i value_none) value) [
      | true ↦ true
      | false ↦ contains_loop rounds (suc i) list value
    ]

-- `list_contains`
unfoldable pub contains : ArrayList → ColValue → Bool
unfolding contains_loop equals_value
contains list value = contains_loop list.size 0 list value

clear_loop : ℕ → ℕ → ArrayList → List Freed → List Freed × ArrayList
unfolding free_value_if
clear_loop zero i list freed = (freed, record list { size = 0 })
clear_loop (suc rounds) i list freed =
    clear_loop rounds (suc i) (record list { elements = set list.elements i value_none })
      (freed ++ free_value_if list (get_or list.elements i value_none))

-- `list_clear`
unfoldable pub clear : ArrayList → List Freed × ArrayList
unfolding clear_loop
clear list = clear_loop list.size 0 list []

-- `list_is_empty`, `list_size`
unfoldable pub is_empty : ArrayList → Bool
is_empty list = list.size == 0

-- `list_create`; `list_allocated` and `elements_allocated` are its two allocations.
unfoldable pub create : Bool → Bool → ℕ → ListValuePolicy → Option ArrayList
unfolding next_power_of_two
create list_allocated elements_allocated initial_capacity value_policy =
    let capacity =
      if ltb initial_capacity list_min_capacity
      then list_min_capacity
      else if ltb list_max_capacity initial_capacity
      then list_max_capacity
      else next_power_of_two initial_capacity list_min_capacity list_max_capacity in
    if list_allocated && elements_allocated
    then some (record {
      elements = replicate capacity value_none;
      size = 0;
      capacity = capacity;
      value_policy = value_policy;
    })
    else none
