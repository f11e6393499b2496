-- ===== src/Tests/ArrayLists.antt =====
-- A full list of one value.
use c_roblib.Base.{◌∷◌, [], true, false, arith}
use c_roblib.Collections.{value_long, policy_none}
use c_roblib.ArrayList.{ArrayList, insert, remove}
use c_roblib.ArrayList.Insert.{IsValid, Inserted, insert-Inserted}
use c_roblib.ArrayList.Remove.{Removed, remove-Removed}

abbrev list : ArrayList
list = record {
  elements = value_long 7 ∷ [];
  size = 1;
  capacity = 1;
  value_policy = record { policy_type = policy_none; on_free_value = false };
}

list-IsValid : IsValid list
list-IsValid = record { whole = omega arith; within = omega arith }

insert-Inserted_example : Inserted true list 0 (value_long 8) (insert true list 0 (value_long 8))
insert-Inserted_example = insert-Inserted true list 0 (value_long 8) list-IsValid (omega arith)

remove-Removed_example : Removed list 0 (remove list 0)
remove-Removed_example = remove-Removed list 0 list-IsValid (omega arith) (omega arith)
