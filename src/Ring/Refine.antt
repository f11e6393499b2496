-- ===== src/Ring/Refine.antt =====
-- `crb_add_char_to_buffer`, `crb_add_str_to_buffer`, `crb_get_next_char` and `crb_peek_char`,
-- over the list of the bytes stored.
use native.Mathlib.Nat.{mod-mod, mod-add-mod, mod-eq_of_lt, add-zero}
use native.Mathlib.Decide.{dec_lt}
use c_roblib.Base.{
  ℕ, zero, suc, ◌+◌, ◌-◌, ◌%◌, ◌≤◌, ◌<◌, ◌≡◌, refl, ap, ap₂, ◌∙◌, sym, List, [], ◌∷◌, ◌++◌,
  append-nil, append_assoc, arith, length, get_or, get_elem?, set, drop, get_or-set_self,
  length-set, length-append, length-drop, drop-append, drop-append_beyond, drop-drop, Bool-cases,
  inl, inr, none, some, ltb, leb, ltb→lt, if◌then◌else◌,
}
use c_roblib.Ring.{Ring, add_char, add_each, add_str, get_next_char, peek_char}
use c_roblib.Ring.Inv.{
  IsValid, items, contents, items-set, items-snoc, items_congr, length-contents, length-items,
}

-- The last `cap` bytes of a list.
abbrev pub keep_last : ℕ → List ℕ → List ℕ
keep_last cap q = drop (length q - cap) q

-- A write at the place behind `n` bytes makes them `n + 1`.
pub items-push :
    (buffer : List ℕ) (cap x i n e : ℕ)
    → length buffer ≡ cap
    → n < cap
    → e ≡ (i + n) % cap
    → items (set buffer e x) cap i (suc n) ≡ items buffer cap i n ++ x ∷ []
items-push buffer cap x i n e stored room at =
    items-snoc (set buffer e x) cap i n ∙ rw (at, kept, written)
  where
    kept : items (set buffer ((i + n) % cap) x) cap i n ≡ items buffer cap i n
    kept = items-set buffer cap x i n (i + n) (omega arith) (omega arith)

    written : get_or (set buffer ((i + n) % cap) x) ((i + n) % cap) 0 ≡ x
    written = get_or-set_self buffer ((i + n) % cap) x 0 (omega arith)

record Pushes (r : Ring) (q : List ℕ) (r' : Ring) : Type 0 where
  valid : IsValid r'
  same : r'.capacity ≡ r.capacity
  reads : contents r' ≡ q

pub next_end : (s l e cap : ℕ) → e ≡ (s + l) % cap → (e + 1) % cap ≡ (s + (l + 1)) % cap
next_end s l e cap at = rw at (mod-add-mod (s + l) cap 1 ∙ ap (λ k. k % cap) (omega arith))

moved_start : (s l cap : ℕ) → ((s + 1) % cap + l) % cap ≡ (s + (l + 1)) % cap
moved_start s l cap = mod-add-mod (s + 1) cap l ∙ ap (λ k. k % cap) (omega arith)

add_char-IsValid : {r : Ring} (c : ℕ) → IsValid r → IsValid (add_char r c)
unfolding add_char
add_char-IsValid {r} c v = ground (
  arith,
  length-set r.buffer r.end_index c,
  next_end r.start_index r.length r.end_index r.capacity,
  moved_start r.start_index r.length r.capacity,
)

-- With room left the byte goes behind the others.
add_char-room :
    {r : Ring} (c : ℕ)
    → IsValid r
    → r.length < r.capacity
    → contents (add_char r c) ≡ contents r ++ c ∷ []
unfolding add_char
add_char-room {r} c v room = ground (
  arith,
  items-push r.buffer r.capacity c r.start_index r.length r.end_index v.storage room v.end_at,
)

-- A full ring forgets its oldest byte.
add_char-full :
    {r : Ring} (c n : ℕ)
    → IsValid r
    → r.length ≡ r.capacity
    → r.length ≡ suc n
    → contents (add_char r c) ≡ items r.buffer r.capacity (r.start_index + 1) n ++ c ∷ []
unfolding add_char
add_char-full {r} c n v full e = ground (
  arith,
  items-push r.buffer r.capacity c (r.start_index + 1) n r.end_index v.storage (omega arith)
      (v.end_at ∙ ap (λ k. k % r.capacity) (omega arith)),
  items_congr (set r.buffer r.end_index c) r.capacity ((r.start_index + 1) % r.capacity)
      (r.start_index + 1) (suc n) (mod-mod (r.start_index + 1) r.capacity),
)

-- A full list with one more byte, from its first byte on.
keep_last-snoc :
    (cap b c : ℕ) (q : List ℕ)
    → length q + 1 ≡ cap
    → keep_last cap ((b ∷ q) ++ c ∷ []) ≡ q ++ c ∷ []
keep_last-snoc cap b c q e =
    let one : length ((b ∷ q) ++ c ∷ []) - cap ≡ 1 = omega (arith, length-append q (c ∷ [])) in
    rw one

keep_last_short : (cap : ℕ) (q : List ℕ) → length q ≤ cap → keep_last cap q ≡ q
keep_last_short cap q h = let none_over : length q - cap ≡ 0 = omega arith in rw none_over

contents-suc :
    (r : Ring) (n : ℕ)
    → r.length ≡ suc n
    → contents r
      ≡ get_or r.buffer (r.start_index % r.capacity) 0
        ∷ items r.buffer r.capacity (r.start_index + 1) n
contents-suc r n e = ap (items r.buffer r.capacity r.start_index) e

full_reads :
    {r : Ring} (c n : ℕ)
    → IsValid r
    → r.length ≡ r.capacity
    → r.length ≡ n
    → contents (add_char r c) ≡ keep_last r.capacity (contents r ++ c ∷ [])
full_reads c zero v full e = absurd (omega arith)
full_reads {r} c (suc n) v full e =
    let rest = items r.buffer r.capacity (r.start_index + 1) n in
    let oldest = get_or r.buffer (r.start_index % r.capacity) 0 in
    add_char-full c n v full e
    ∙ sym (
        keep_last-snoc r.capacity oldest c rest
          (omega (arith, length-items r.buffer r.capacity (r.start_index + 1) n)))
    ∙ ap (λ q. keep_last r.capacity (q ++ c ∷ [])) (sym (contents-suc r n e))

room_reads :
    {r : Ring} (c : ℕ)
    → IsValid r
    → r.length < r.capacity
    → contents (add_char r c) ≡ keep_last r.capacity (contents r ++ c ∷ [])
room_reads {r} c v room =
    let fits : length (contents r ++ c ∷ []) ≤ r.capacity =
      omega (arith, length-append (contents r) (c ∷ []), length-contents r) in
    add_char-room c v room ∙ sym (keep_last_short r.capacity (contents r ++ c ∷ []) fits)

add_char_reads :
    {r : Ring} (c : ℕ)
    → IsValid r
    → contents (add_char r c) ≡ keep_last r.capacity (contents r ++ c ∷ [])
add_char_reads {r} c v = elim (dec_lt r.length r.capacity) [
  | yes room ↦ room_reads c v room
  | no full ↦ full_reads c r.length v (omega arith) refl
]

capacity-add_char : (r : Ring) (c : ℕ) → (add_char r c).capacity ≡ r.capacity
unfolding add_char
capacity-add_char r c = ground arith

-- `crb_add_char_to_buffer` keeps the ring valid, and the ring then holds the newest `capacity` of
-- its bytes and the new one, in order.
pub add_char_refines :
    {r : Ring} (c : ℕ)
    → IsValid r
    → IsValid (add_char r c)
      × ((add_char r c).capacity ≡ r.capacity)
      × (contents (add_char r c) ≡ keep_last r.capacity (contents r ++ c ∷ []))
add_char_refines {r} c v = (add_char-IsValid c v, capacity-add_char r c, add_char_reads c v)

-- Forgetting early or late makes no difference.
keep_last_absorb :
    (cap : ℕ) (q cs : List ℕ) → keep_last cap (keep_last cap q ++ cs) ≡ keep_last cap (q ++ cs)
keep_last_absorb cap q cs =
    let b = length q - cap in
    let head : drop b (q ++ cs) ≡ drop b q ++ cs = drop-append b q cs (omega arith) in
    ap (λ l. drop (length l - cap) l) (sym head)
    ∙ drop-drop (length (drop b (q ++ cs)) - cap) b (length (q ++ cs) - cap) (q ++ cs)
        (omega (arith, length-drop b (q ++ cs), length-append q cs))

add_each_refines :
    (cs : List ℕ) {r : Ring}
    → IsValid r
    → IsValid (add_each r cs)
      × ((add_each r cs).capacity ≡ r.capacity)
      × (contents (add_each r cs) ≡ keep_last r.capacity (contents r ++ cs))
unfolding add_each
add_each_refines [] {r} v =
    let fits : length (contents r) ≤ r.capacity = omega (arith, length-contents r) in
    (v, refl, rw append-nil (sym (keep_last_short r.capacity (contents r) fits)))
add_each_refines (c ∷ cs) {r} v =
    let step = add_char_refines c v in
    let (valid, same, reads) = add_each_refines cs step.0 in
    (
      valid,
      same ∙ step.1,
      reads
          ∙ ap₂ (λ k q. keep_last k (q ++ cs)) step.1 step.2
          ∙ keep_last_absorb r.capacity (contents r ++ c ∷ []) cs
          ∙ ap (keep_last r.capacity) (append_assoc (contents r) (c ∷ []) cs),
    )

-- Only the last `cap` bytes of a long text matter.
keep_last_skip :
    (cap : ℕ) (q src : List ℕ)
    → cap < length src
    → keep_last cap (q ++ drop (length src - cap) src) ≡ keep_last cap (q ++ src)
keep_last_skip cap q src long =
    let k = length src - cap in
    drop-append_beyond (length (q ++ drop k src) - cap) 0 q (drop k src)
      (omega (arith, length-append q (drop k src), length-drop k src))
    ∙ sym
        (drop-append_beyond (length (q ++ src) - cap) k q src (omega (arith, length-append q src)))

-- `crb_add_str_to_buffer` of any text, also one longer than the ring: the ring stays valid and holds
-- the newest `capacity` of its bytes followed by the text.
pub add_str_refines :
    (src : List ℕ) {r : Ring}
    → IsValid r
    → IsValid (add_str r src)
      × ((add_str r src).capacity ≡ r.capacity)
      × (contents (add_str r src) ≡ keep_last r.capacity (contents r ++ src))
unfolding add_str
add_str_refines src {r} v = elim (Bool-cases (ltb r.capacity (length src))) [
  | inl long ↦
      let (valid, same, reads) = add_each_refines (drop (length src - r.capacity) src) v in
      rw long (valid, same, reads ∙ keep_last_skip r.capacity (contents r) src (ltb→lt _ _ long))
  | inr short ↦ rw short (add_each_refines src v)
]

taken :
    (n : ℕ) {r : Ring}
    → IsValid r
    → r.length ≡ n
    → IsValid (get_next_char r).1
      × (contents (get_next_char r).1 ≡ drop 1 (contents r))
      × ((get_next_char r).0 ≡ get_elem? (contents r) 0)
unfolding get_next_char
taken zero {r} v e = let empty = ap (items r.buffer r.capacity r.start_index) e in ground arith
taken (suc n) {r} v e = ground (
  arith,
  contents-suc r n e,
  mod-eq_of_lt v.start_in,
  mod-add-mod (r.start_index + 1) r.capacity n,
  items_congr r.buffer r.capacity ((r.start_index + 1) % r.capacity) (r.start_index + 1) n
      (mod-mod (r.start_index + 1) r.capacity),
)

-- `crb_get_next_char` of a valid ring takes the oldest byte off, and reports EOF exactly where
-- there is none.
pub get_next_char_refines :
    {r : Ring}
    → IsValid r
    → IsValid (get_next_char r).1
      × (contents (get_next_char r).1 ≡ drop 1 (contents r))
      × ((get_next_char r).0 ≡ get_elem? (contents r) 0)
get_next_char_refines {r} v = taken r.length v refl

get_elem?-items :
    (buffer : List ℕ) (cap i n k : ℕ)
    → get_elem? (items buffer cap i n) k
      ≡ (if leb n k then none else some (get_or buffer ((i + k) % cap) 0))
get_elem?-items buffer cap i zero k = ground arith
get_elem?-items buffer cap i (suc n) zero = rw add-zero (ground arith)
get_elem?-items buffer cap i (suc n) (suc k) =
    let e : i + 1 + k ≡ i + suc k = omega arith in
    ground (arith, get_elem?-items buffer cap (i + 1) n k)

-- `crb_peek_char` of a valid ring reads the byte at that place of its contents, and reports EOF
-- exactly past their end.
pub peek_char_refines :
    {r : Ring} (offset : ℕ) → IsValid r → peek_char r offset ≡ get_elem? (contents r) offset
unfolding peek_char
peek_char_refines {r} offset v =
    ground (arith, get_elem?-items r.buffer r.capacity r.start_index r.length offset)
