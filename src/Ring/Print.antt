-- ===== src/Ring/Print.antt =====
-- `crb_sprint_buffer_CharRingBuffer` over the list of the bytes stored.
use native.Mathlib.Decide.{dec_lt}
use native.Mathlib.Nat.{mod-eq_of_lt, mod-eq-sub-mod}
use c_roblib.Base.{
  ℕ, zero, suc, ◌+◌, ◌-◌, ◌%◌, ◌≤◌, ◌<◌, ◌≡◌, refl, ap, ap₂, ◌∙◌, sym, List, [], ◌∷◌, ◌++◌,
  append-nil, append_assoc, arith, length, get_or, length-append, min,
}
use c_roblib.Ring.{Ring, print_loop, sprint_buffer}
use c_roblib.Ring.Inv.{IsValid, items, contents, items_congr}

-- The bytes at the places from `i` on, with no turn round the ring.
run_of : List ℕ → ℕ → ℕ → List ℕ
run_of buffer i zero = []
run_of buffer i (suc n) = get_or buffer i 0 ∷ run_of buffer (i + 1) n

-- The loop writes until the bound or the length is reached.
print_loop_lem :
    (rounds : ℕ) (r : Ring) (i m : ℕ) (out : List ℕ)
    → m ≡ min rounds (r.length - length out)
    → (print_loop rounds r i out).1 ≡ out ++ run_of r.buffer i m
unfolding print_loop run_of
print_loop_lem zero r i m out e =
    let none_left : m ≡ 0 = omega arith in rw none_left (sym (append-nil out))
print_loop_lem (suc rounds) r i zero out e = ground (arith, append-nil out)
print_loop_lem (suc rounds) r i (suc m) out e =
    let x = get_or r.buffer i 0 in
    ground (
      arith,
      print_loop_lem rounds r (i + 1) m (out ++ x ∷ []),
      append_assoc out (x ∷ []) (run_of r.buffer (i + 1) m),
      length-append out (x ∷ []),
    )

length-run_of : (buffer : List ℕ) (i n : ℕ) → length (run_of buffer i n) ≡ n
unfolding run_of
length-run_of buffer i zero = refl
length-run_of buffer i (suc n) = ap suc (length-run_of buffer (i + 1) n)

-- Short of the end of the buffer the places are the indices.
items-low : (buffer : List ℕ) (cap i n : ℕ) → i + n ≤ cap → items buffer cap i n ≡ run_of buffer i n
unfolding run_of
items-low buffer cap i zero h = refl
items-low buffer cap i (suc n) h =
    ap₂ ◌∷◌ (ap (λ k. get_or buffer k 0) (mod-eq_of_lt (omega arith)))
      (items-low buffer cap (i + 1) n (omega arith))

items-split :
    (buffer : List ℕ) (cap i a b n : ℕ)
    → n ≡ a + b
    → items buffer cap i n ≡ items buffer cap i a ++ items buffer cap (i + a) b
items-split buffer cap i zero b n e = ap₂ (items buffer cap) (omega arith) (omega arith)
items-split buffer cap i (suc a) b zero e = absurd (omega arith)
items-split buffer cap i (suc a) b (suc n) e = ap (◌∷◌ (get_or buffer (i % cap) 0)) (
    items-split buffer cap (i + 1) a b n (omega arith)
    ∙ ap (λ k. items buffer cap (i + 1) a ++ items buffer cap k b) (omega arith))

-- A stretch that goes past the end of the buffer goes on at its start.
items-wrapped :
    (buffer : List ℕ) (cap i a b : ℕ)
    → i + a ≡ cap
    → b ≤ cap
    → items buffer cap i (a + b) ≡ run_of buffer i a ++ run_of buffer 0 b
items-wrapped buffer cap i a b e h =
    items-split buffer cap i a b (a + b) refl
    ∙ ap₂ ◌++◌ (items-low buffer cap i a (omega arith)) (
        items_congr buffer cap (i + a) 0 b (rw e (grind arith))
        ∙ items-low buffer cap 0 b (omega arith))

abbrev first_part : Ring → List ℕ
first_part r = (print_loop (r.capacity - r.start_index) r r.start_index []).1

first_part_lem :
    (r : Ring) (m : ℕ)
    → m ≡ min (r.capacity - r.start_index) r.length
    → first_part r ≡ run_of r.buffer r.start_index m
first_part_lem r m e =
    print_loop_lem (r.capacity - r.start_index) r r.start_index m [] (omega arith)

sprint-straight :
    {r : Ring} → IsValid r → r.start_index + r.length ≤ r.capacity → sprint_buffer r ≡ contents r
unfolding sprint_buffer run_of
sprint-straight {r} v h = ground (
  arith,
  first_part_lem r r.length,
  print_loop_lem (r.end_index + 1) r 0 0 (first_part r),
  length-run_of r.buffer r.start_index r.length,
  append-nil (first_part r),
  items-low r.buffer r.capacity r.start_index r.length h,
)

sprint-wrapped :
    {r : Ring} → IsValid r → r.capacity < r.start_index + r.length → sprint_buffer r ≡ contents r
unfolding sprint_buffer
sprint-wrapped {r} v h =
    let a = r.capacity - r.start_index in
    let b = r.length - a in
    ground (
      arith,
      at_end,
      first_part_lem r a,
      print_loop_lem (r.end_index + 1) r 0 b (first_part r),
      length-run_of r.buffer r.start_index a,
      items-wrapped r.buffer r.capacity r.start_index a b,
    )
  where
    at_end : r.end_index ≡ r.start_index + r.length - r.capacity
    at_end = omega (
      arith,
      mod-eq-sub-mod {n = r.start_index + r.length} {m = r.capacity} (omega arith),
      mod-eq_of_lt {n = r.start_index + r.length - r.capacity} {m = r.capacity} (omega arith),
    )

-- `crb_sprint_buffer` of a valid ring writes exactly its contents, oldest byte first, whether or
-- not they go round the end of the buffer.
pub sprint_buffer_lem : {r : Ring} → IsValid r → sprint_buffer r ≡ contents r
sprint_buffer_lem {r} v = elim (dec_lt r.capacity (r.start_index + r.length)) [
  | yes turned ↦ sprint-wrapped v turned
  | no straight ↦ sprint-straight v (omega arith)
]
