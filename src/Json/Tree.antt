-- ===== src/Json/Tree.antt =====
-- `JsonValue` and `JsonObjectEntry` of include/roblib/json_parser.h.
use c_roblib.Base.{ℕ, List, Bool}
use c_roblib.Base.Int.{ℤ}

-- A double stands for the text that `strtod` is given. The arrays of elements and entries are
-- lists in the order of the JSON text.
mutual
  pub data JsonValue : Type 0 where
    json_null : JsonValue
    json_boolean : Bool → JsonValue
    json_long : ℤ → JsonValue
    json_double : List ℕ → JsonValue
    json_string : List ℕ → JsonValue
    json_array : Elements → JsonValue
    json_object : Entries → JsonValue

  pub data Elements : Type 0 where
    no_elements : Elements
    element : JsonValue → Elements → Elements

  pub data Entries : Type 0 where
    no_entries : Entries
    entry : List ℕ → JsonValue → Entries → Entries

-- The linked lists that the parser builds front to back, copied into arrays from the last place
-- down.
unfoldable pub copy_elements : Elements → Elements → Elements
copy_elements no_elements array = array
copy_elements (element v nodes) array = copy_elements nodes (element v array)

unfoldable pub copy_entries : Entries → Entries → Entries
copy_entries no_entries array = array
copy_entries (entry k v nodes) array = copy_entries nodes (entry k v array)
