-- ===== src/Tests/Vectors.antt =====
-- A full vector of one number.
use c_roblib.Base.{ℕ, ◌∷◌, [], refl, true, arith}
use c_roblib.Base.Doubling.{doubled}
use c_roblib.Vector.{Vector, append, pop, ensure_capacity}
use c_roblib.Vector.Insert.{IsValid}
use c_roblib.Vector.Remove.{Popped, pop-append}

abbrev vector : Vector ℕ
vector = record { buffer = 7 ∷ []; length = 1; capacity = 1 }

abbrev after : Vector ℕ
after = record { buffer = 7 ∷ 8 ∷ 0 ∷ 0 ∷ []; length = 2; capacity = 4 }

vector-IsValid : IsValid vector
vector-IsValid = record { whole = omega arith; within = omega arith }

pop-append_example : Popped 0 vector 8 (pop 0 after)
unfolding append ensure_capacity doubled
pop-append_example = pop-append 0 true vector 8 after vector-IsValid (omega arith) refl
