-- ===== src/Tests/BitSets.antt =====
-- A set of two words with the flags 1 and 64, and a mask with the flags 1 and 2.
use c_roblib.Base.{ℕ, List, [], ◌∷◌, ◌≡◌, ◌||◌, not, arith}
use c_roblib.BitSet.{BitSet, test, set_multiple, test_any, test_all}
use c_roblib.BitSet.Flags.{test_any-not_all, test-set_multiple, includes, Fits}

abbrev flags : BitSet
flags = 2 ∷ 1 ∷ []

abbrev mask : BitSet
mask = 6 ∷ 0 ∷ []

abbrev more : List ℕ
more = 3 ∷ 127 ∷ []

test-set_multiple_example : test (set_multiple flags more) 127 ≡ includes more 127 || test flags 127
unfolding Fits
test-set_multiple_example = test-set_multiple flags more 127 (omega arith, (omega arith, tt))

test_any-not_all_example : test_any flags more ≡ not (test_all flags more)
test_any-not_all_example = test_any-not_all flags more
