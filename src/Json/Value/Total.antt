-- ===== src/Json/Value/Total.antt =====
-- How `pvt_parse_value` ends: the fuel for the rounds and calls of a nested value.
use c_roblib.Base.{
  ℕ, zero, suc, ◌+◌, ◌*◌, ◌<◌, ◌≤◌, ◌≢◌, arith, not, ◌&&◌, ◌==◌, Bool-cases, inl, inr, tests,
}
use c_roblib.Json.Parser.{Parser, ◌>>=◌, ◌>>◌}
use c_roblib.Json.Scan.{current_char, skip_whitespace}
use c_roblib.Json.Scan.Moves.{
  IsReady, Onward, Onward-trans, Onward-IsReady, advanced-Moves, current-lt,
}
use c_roblib.Json.Scan.Ends.{
  Ends, Anything, Ends-Onward, Ends-if, Ends-continue, skip_whitespace-Ends,
}
use c_roblib.Json.Tree.{Elements, Entries, no_elements, no_entries, element, entry}
use c_roblib.Json.Value.{
  missing_element, parse_key, parse_value, parse_array, elements_loop, parse_object, entries_loop,
  allow_trailing_commas_in_arrays, allow_trailing_commas_in_objects,
}
use c_roblib.Json.Value.Parts.{
  parse_scalar-Total, close_array-Total, close_object-Total, parse_key-Total, missing_element-Ends,
  separator-Ends, nested-Ends,
}

-- Fuel that is enough: two units for every byte left, and one more for a value or a loop.
record Enough (fuel : ℕ) : Type 0 where
  value :
      (p : Parser)
      → IsReady p
      → 2 * p.length_bytes < 2 * p.current_byte_index + fuel
      → Ends p Anything (parse_value fuel p)
  array :
      (p : Parser)
      → IsReady p
      → current_char p ≢ 0
      → 2 * p.length_bytes ≤ 2 * p.current_byte_index + fuel
      → Ends p Anything (parse_array fuel p)
  elements :
      (p : Parser) (nodes : Elements)
      → IsReady p
      → 2 * p.length_bytes < 2 * p.current_byte_index + fuel
      → Ends p Anything (elements_loop fuel nodes p)
  object :
      (p : Parser)
      → IsReady p
      → current_char p ≢ 0
      → 2 * p.length_bytes ≤ 2 * p.current_byte_index + fuel
      → Ends p Anything (parse_object fuel p)
  entries :
      (p : Parser) (nodes : Entries)
      → IsReady p
      → 2 * p.length_bytes < 2 * p.current_byte_index + fuel
      → Ends p Anything (entries_loop fuel nodes p)

module _ (fuel : ℕ) (ih : Enough fuel) where
  value_step :
      (p : Parser)
      → IsReady p
      → 2 * p.length_bytes < 2 * p.current_byte_index + suc fuel
      → Ends p Anything (parse_value (suc fuel) p)
  unfolding parse_value
  value_step p r h = Ends-continue _ (skip_whitespace-Ends r) λ _ q o _.
      let marked : Parser = record q { parse_start = q.current_byte_index } in
      let o' : Onward q marked = ground arith in
      let ready = Onward-IsReady r (Onward-trans o o') in
      let room : 2 * q.length_bytes ≤ 2 * q.current_byte_index + fuel =
        omega (arith, o.later, o.length_bytes) in
      elim (Bool-cases (current_char q == b'{')) [
        | inl e ↦ rw e (
            Ends-Onward o' (
              nested-Ends (parse_object fuel) ready
                λ entered. ih.object _ entered (grind (arith, tests)) room))
        | inr e ↦ elim (Bool-cases (current_char q == b'[')) [
          | inl d ↦
              rw (e, d)
                (Ends-Onward o' (
                  nested-Ends (parse_array fuel) ready
                    λ entered. ih.array _ entered (grind (arith, tests)) room))
          | inr d ↦
              rw (e, d) (Ends-Onward o' ((parse_scalar-Total (current_char q)).run marked ready))
        ]
      ]

  -- An element and the elements behind it.
  next_element-Ends :
      (p : Parser) (nodes : Elements)
      → IsReady p
      → 2 * p.length_bytes < 2 * p.current_byte_index + fuel
      → Ends p Anything (
          (do
            value ← λ q. missing_element (parse_value fuel q)
            skip_whitespace
            elements_loop fuel (element value nodes))
            p)
  next_element-Ends p nodes r h = Ends-continue _ (missing_element-Ends (ih.value p r h)) λ v q o _.
      Ends-continue _ (skip_whitespace-Ends (Onward-IsReady r o)) λ _ q' o' _.
        let o'' = Onward-trans o o' in
        ih.elements q' (element v nodes) (Onward-IsReady r o'')
          (omega (arith, o''.later, o''.length_bytes))

  elements_step :
      (p : Parser) (nodes : Elements)
      → IsReady p
      → 2 * p.length_bytes < 2 * p.current_byte_index + suc fuel
      → Ends p Anything (elements_loop (suc fuel) nodes p)
  unfolding parse_value
  elements_step p nodes r h =
      elim (Bool-cases (not (current_char p == 0) && not (current_char p == b']'))) [
        | inr e ↦ rw (e) ((close_array-Total nodes).run p r)
        | inl e ↦ rw (e) (
            Ends-continue _ (separator-Ends b']' allow_trailing_commas_in_arrays r)
              λ trailing q o passed.
                let ready = Onward-IsReady r o in
                Ends-if trailing _ _ ((close_array-Total nodes).run q ready)
                  (next_element-Ends q nodes ready (omega (arith, o.length_bytes))))
      ]

  array_step :
      (p : Parser)
      → IsReady p
      → current_char p ≢ 0
      → 2 * p.length_bytes ≤ 2 * p.current_byte_index + suc fuel
      → Ends p Anything (parse_array (suc fuel) p)
  unfolding parse_value
  array_step p r n h =
      let move = advanced-Moves 1 r (omega (arith, current-lt r n)) in
      Ends-Onward move.onward (
        Ends-continue _ (skip_whitespace-Ends (Onward-IsReady r move.onward)) λ _ q o _.
          let ready = Onward-IsReady (Onward-IsReady r move.onward) o in
          let room : 2 * q.length_bytes < 2 * q.current_byte_index + fuel =
            omega (arith, move.at, move.onward.length_bytes, o.later, o.length_bytes) in
          elim (Bool-cases (not (current_char q == 0) && not (current_char q == b']'))) [
            | inl e ↦ rw e (next_element-Ends q no_elements ready room)
            | inr e ↦ rw e (ih.elements q no_elements ready room)
          ])

  -- An entry and the entries behind it.
  next_entry-Ends :
      (p : Parser) (nodes : Entries)
      → IsReady p
      → 2 * p.length_bytes < 2 * p.current_byte_index + fuel
      → Ends p Anything (
          (do
            key ← parse_key
            value ← parse_value fuel
            skip_whitespace
            entries_loop fuel (entry key value nodes))
            p)
  next_entry-Ends p nodes r h = Ends-continue _ (parse_key-Total.run p r) λ key q o _.
      Ends-continue _ (ih.value q (Onward-IsReady r o) (omega (arith, o.later, o.length_bytes)))
        λ v q' o' _.
          let o'' = Onward-trans o o' in
          Ends-continue _ (skip_whitespace-Ends (Onward-IsReady r o'')) λ _ q'' f _.
            let g = Onward-trans o'' f in
            ih.entries q'' (entry key v nodes) (Onward-IsReady r g)
              (omega (arith, g.later, g.length_bytes))

  entries_step :
      (p : Parser) (nodes : Entries)
      → IsReady p
      → 2 * p.length_bytes < 2 * p.current_byte_index + suc fuel
      → Ends p Anything (entries_loop (suc fuel) nodes p)
  unfolding parse_value
  entries_step p nodes r h =
      elim (Bool-cases (not (current_char p == 0) && not (current_char p == b'}'))) [
        | inr e ↦ rw (e) ((close_object-Total nodes).run p r)
        | inl e ↦ rw (e) (
            Ends-continue _ (separator-Ends b'}' allow_trailing_commas_in_objects r)
              λ trailing q o passed.
                let ready = Onward-IsReady r o in
                Ends-if trailing _ _ ((close_object-Total nodes).run q ready)
                  (next_entry-Ends q nodes ready (omega (arith, o.length_bytes))))
      ]

  object_step :
      (p : Parser)
      → IsReady p
      → current_char p ≢ 0
      → 2 * p.length_bytes ≤ 2 * p.current_byte_index + suc fuel
      → Ends p Anything (parse_object (suc fuel) p)
  unfolding parse_value
  object_step p r n h =
      let move = advanced-Moves 1 r (omega (arith, current-lt r n)) in
      Ends-Onward move.onward (
        Ends-continue _ (skip_whitespace-Ends (Onward-IsReady r move.onward)) λ _ q o _.
          let ready = Onward-IsReady (Onward-IsReady r move.onward) o in
          let room : 2 * q.length_bytes < 2 * q.current_byte_index + fuel =
            omega (arith, move.at, move.onward.length_bytes, o.later, o.length_bytes) in
          elim (Bool-cases (not (current_char q == 0) && not (current_char q == b'}'))) [
            | inl e ↦ rw e (next_entry-Ends q no_entries ready room)
            | inr e ↦ rw e (ih.entries q no_entries ready room)
          ])

enough : (fuel : ℕ) → Enough fuel
enough zero = record {
  value = λ p r h. absurd (omega (arith, r.within));
  array = λ p r n h. absurd (omega (arith, current-lt r n));
  elements = λ p nodes r h. absurd (omega (arith, r.within));
  object = λ p r n h. absurd (omega (arith, current-lt r n));
  entries = λ p nodes r h. absurd (omega (arith, r.within));
}
enough (suc fuel) =
    let ih = enough fuel in
    record {
      value = value_step fuel ih;
      array = array_step fuel ih;
      elements = elements_step fuel ih;
      object = object_step fuel ih;
      entries = entries_step fuel ih;
    }

pub parse_value-Ends :
    (fuel : ℕ) (p : Parser)
    → IsReady p
    → 2 * p.length_bytes < 2 * p.current_byte_index + fuel
    → Ends p Anything (parse_value fuel p)
parse_value-Ends fuel p r h = (enough fuel).value p r h
