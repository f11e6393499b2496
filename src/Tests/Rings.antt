-- ===== src/Tests/Rings.antt =====
-- Rings of four bytes.
use c_roblib.Base.{[], ◌∷◌, ◌++◌, ◌*◌, ◌-◌, ◌+◌, ◌^◌, ◌≡◌, arith, take}
use c_roblib.Ring
use c_roblib.Ring.{Ring, buffer_full, added}
use c_roblib.Ring.Inv.{IsValid, contents}
use c_roblib.Ring.Refine.{keep_last, add_str_refines}
use c_roblib.Ring.Strict.{add_str_strict_lem, advance_buffer_excess}

-- Three bytes that go round the end.
abbrev ring : Ring
ring = record {
  length = 3;
  capacity = 4;
  start_index = 2;
  end_index = 1;
  buffer = 12 ∷ 0 ∷ 10 ∷ 11 ∷ [];
}

ring-IsValid : IsValid ring
ring-IsValid = omega arith

add_str_refines_example :
    IsValid (Ring.add_str ring (13 ∷ 14 ∷ []))
    × ((Ring.add_str ring (13 ∷ 14 ∷ [])).capacity ≡ 4)
    × (contents (Ring.add_str ring (13 ∷ 14 ∷ [])) ≡ keep_last 4 (contents ring ++ 13 ∷ 14 ∷ []))
add_str_refines_example = add_str_refines (13 ∷ 14 ∷ []) ring-IsValid

add_str_strict_lem_example :
    let (reply, r') = Ring.add_str_strict ring (13 ∷ 14 ∷ []) in
    IsValid r'
    × (contents r' ≡ contents ring ++ take (ring.capacity - ring.length) (13 ∷ 14 ∷ []))
    × (reply ≡ added 1)
add_str_strict_lem_example = add_str_strict_lem (13 ∷ 14 ∷ []) ring-IsValid

advance_buffer_excess_example :
    ((Ring.advance_buffer ring 8).1.length ≡ 2 ^ 64 + 2 * 3 - 8)
    × ¬ IsValid (Ring.advance_buffer ring 8).1
advance_buffer_excess_example =
    advance_buffer_excess 8 ring-IsValid (omega arith) (omega arith) (omega arith) (omega arith)
