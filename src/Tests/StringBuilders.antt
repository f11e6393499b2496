-- ===== src/Tests/StringBuilders.antt =====
-- A full builder of two characters, and one at the end of its arena.
use c_roblib.Base.{ℕ, zero, suc, ◌<◌, ◌+◌, ◌≡◌, refl, [], ◌∷◌, arith, inr, true, none, some, get_or}
use c_roblib.Allocator.{Arena}
use c_roblib.StringBuilder.{
  StringBuilder, System, append_str, insert_str, replace_match_chars, copy_to, ensure_capacity,
}
use c_roblib.StringBuilder.Text.{IsValid}
use c_roblib.StringBuilder.Append.{Edited, append_str-Edited}
use c_roblib.StringBuilder.Insert.{spliced, insert_str-Edited}
use c_roblib.StringBuilder.Replace.{Replaced, replace_match_chars-Replaced}
use c_roblib.StringBuilder.Copy.{get_or-copy_to}
use c_roblib.StringBuilder.Grow.{Overrun, ensure_capacity_overruns}

abbrev arena : Arena
arena = record {
  blocks = record { block_size = 4096; usable_size = 4016 } ∷ [];
  current_block = 0;
  default_block_size = 4096;
  default_alignment = 16;
  offset = 4003;
  auto_grow = true;
}

abbrev system : System
system = record { page_size = 4096; granted = true; convert = λ n. 0 }

abbrev builder : StringBuilder
builder = record { capacity = 2; length = 2; place = none; buffer = 97 ∷ 98 ∷ 0 ∷ [] }

zeros : (j : ℕ) → 2 < j + 1 → get_or {A = ℕ} (97 ∷ 98 ∷ 0 ∷ []) j 0 ≡ 0
zeros zero h = absurd (omega arith)
zeros (suc zero) h = absurd (omega arith)
zeros (suc (suc zero)) h = refl
zeros (suc (suc (suc j))) h = refl

builder-IsValid : IsValid builder
builder-IsValid = record {
  whole = refl;
  within = omega arith;
  zeros = λ j h. zeros j (omega (arith, h));
}

append_str-Edited_example :
    Edited system arena builder
      (97 ∷ 98 ∷ 99 ∷ 100 ∷ [])
      (append_str system arena builder (99 ∷ 100 ∷ []))
append_str-Edited_example =
    append_str-Edited system arena builder builder-IsValid refl (99 ∷ 100 ∷ []) (omega arith)

insert_str-Edited_example :
    Edited system arena builder
      (spliced 1 (99 ∷ []) (97 ∷ 98 ∷ []))
      (insert_str system arena builder (99 ∷ []) 1)
insert_str-Edited_example =
    insert_str-Edited system arena builder builder-IsValid refl (99 ∷ []) 1 (omega arith)
      (omega arith)

replace_match_chars-Replaced_example :
    Replaced builder (98 ∷ 99 ∷ []) 95 (replace_match_chars builder (some (98 ∷ 99 ∷ [])) 95)
replace_match_chars-Replaced_example =
    replace_match_chars-Replaced builder (98 ∷ 99 ∷ []) 95 builder-IsValid
      (omega arith, (omega arith, tt)) (omega arith) (omega arith)

get_or-copy_to_example : get_or (copy_to builder 5 (1 ∷ 2 ∷ 3 ∷ 4 ∷ 5 ∷ [])) 2 0 ≡ 3
get_or-copy_to_example =
    get_or-copy_to builder 5 (1 ∷ 2 ∷ 3 ∷ 4 ∷ 5 ∷ []) builder-IsValid
      (omega arith, (omega arith, tt)) (omega arith) refl 2

-- A buffer of 3 bytes from 4000 on, of an arena with one block.
abbrev in_arena : StringBuilder
in_arena = record builder { place = some (0, 4000) }

ensure_capacity_overruns_example :
    Overrun arena in_arena 4000 133 (ensure_capacity system arena in_arena 100)
ensure_capacity_overruns_example =
    ensure_capacity_overruns 4096 (λ n. 0) arena in_arena 4000 100 refl refl (omega arith)
      (omega arith) (omega arith) (omega arith) (omega arith) (inr refl)
