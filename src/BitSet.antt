-- ===== src/BitSet.antt =====
-- Bit sets: src/set/bitset.c and include/roblib/bitset.h. A set is the list of its 64-bit words.
pub mod Flags
pub mod Masks
use c_roblib.Base.{
  ℕ, zero, suc, ◌-◌, ◌/◌, ◌%◌, ◌^◌, ◌<◌, Bool, true, false, not, List, [], ◌∷◌, if◌then◌else◌, ◌==◌,
  length, get_or, set, bit_and, bit_or,
}

-- `words`; their number is `word_count`.
abbrev pub BitSet : Type 0
BitSet = List ℕ

-- `~word`
abbrev pub complement : ℕ → ℕ
complement word = 2 ^ 64 - 1 - word

-- `(uint64_t)1 << (flag % BITS_PER_WORD)`
unfoldable pub flag_mask : ℕ → ℕ
flag_mask flag = 2 ^ (flag % 64)

-- `bitset_set`
unfoldable pub set_flag : BitSet → ℕ → BitSet
unfolding flag_mask
set_flag b flag = set b (flag / 64) (bit_or (get_or b (flag / 64) 0) (flag_mask flag))

-- `bitset_clear`
unfoldable pub clear_flag : BitSet → ℕ → BitSet
unfolding flag_mask
clear_flag b flag =
    set b (flag / 64) (bit_and (get_or b (flag / 64) 0) (complement (flag_mask flag)))

-- `bitset_test`
unfoldable pub test : BitSet → ℕ → Bool
unfolding flag_mask
test b flag = not (bit_and (get_or b (flag / 64) 0) (flag_mask flag) == 0)

unfoldable pub test_all : BitSet → List ℕ → Bool
unfolding test
test_all b [] = true
test_all b (flag ∷ flags) = let rest = test_all b flags in if not (test b flag) then false else rest

unfoldable pub test_any : BitSet → List ℕ → Bool
unfolding test
test_any b [] = false
test_any b (flag ∷ flags) = let rest = test_any b flags in if not (test b flag) then true else rest

-- `bitset_set_multiple`
unfoldable pub set_multiple : BitSet → List ℕ → BitSet
unfolding set_flag
set_multiple b [] = b
set_multiple b (flag ∷ flags) = set_multiple (set_flag b flag) flags

-- The masks have as many words as the set; the source counts the words of the set only, and reads
-- past a shorter mask, where the model stops.
unfoldable pub contains_mask : BitSet → BitSet → Bool
contains_mask [] mask = true
contains_mask (word ∷ words) [] = true
contains_mask (word ∷ words) (m ∷ mask) =
    let rest = contains_mask words mask in if not (bit_and word m == m) then false else rest

unfoldable pub set_mask : BitSet → BitSet → BitSet
set_mask [] mask = []
set_mask (word ∷ words) [] = word ∷ words
set_mask (word ∷ words) (m ∷ mask) = bit_or word m ∷ set_mask words mask

unfoldable pub clear_mask : BitSet → BitSet → BitSet
clear_mask [] mask = []
clear_mask (word ∷ words) [] = word ∷ words
clear_mask (word ∷ words) (m ∷ mask) = bit_and word (complement m) ∷ clear_mask words mask
