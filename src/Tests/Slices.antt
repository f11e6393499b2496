-- ===== src/Tests/Slices.antt =====
-- Slices of short texts, among them texts with a delimiter at their end.
use Prim.Native.Char.{code}
use Prim.Native.String.{String}
use c_roblib.Base.{ℕ, List, [], ◌∷◌, ◌≡◌, ◌↔◌, refl, true, arith, length}
use c_roblib.Slice.{StringSlice, items, slice_equal, ends_with}
use c_roblib.Slice.Equal.{slice_equal_lem}
use c_roblib.Slice.Chop.{Chopped, chop_by_delimiter, chop-Chopped}
use c_roblib.Slice.Split.{Split, split, split-Split}
use c_roblib.Slice.Suffix.{with_first, ends_with-with_first}

abbrev codes : String → List ℕ
codes String.[] = []
codes (String.◌∷◌ c s) = code c ∷ codes s

abbrev slice : List ℕ → StringSlice
slice text = record { bytes = text; length = length text }

abbrev distros : StringSlice
distros = slice (codes "a,b,")

abbrev comma : StringSlice
comma = slice (codes ",")

-- The delimiter at the end stays in the piece.
missed_delimiter :
    chop_by_delimiter (slice (codes "b,")) comma
    ≡ (slice (codes "b,"), record { bytes = 0 ∷ []; length = 0 })
unfolding chop_by_delimiter
missed_delimiter = refl

slice_equal_lem_example : (slice_equal distros comma ≡ true) ↔ (items distros ≡ items comma)
slice_equal_lem_example = slice_equal_lem distros comma (omega arith) (omega arith)

chop-Chopped_example : Chopped distros comma (chop_by_delimiter distros comma)
chop-Chopped_example = chop-Chopped distros comma (omega arith) (omega arith)

split-Split_example : Split distros comma (split distros comma)
split-Split_example = split-Split distros comma (omega arith) (omega arith)

ends_with-with_first_example : ends_with distros (with_first 120 comma) ≡ ends_with distros comma
ends_with-with_first_example = ends_with-with_first 120 distros comma
