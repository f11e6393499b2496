-- ===== src/Ring/Strict.antt =====
-- The operations that never overwrite, and the bulk removal: `crb_add_str_to_buffer_strict`,
-- `crb_add_char_to_buffer_strict` and `crb_advance_buffer`.
use native.Mathlib.Nat.{mod-mod, mod-add-mod}
use c_roblib.Base.{
  ℕ, zero, suc, ◌+◌, ◌-◌, ◌*◌, ◌%◌, ◌^◌, ◌≤◌, ◌<◌, ◌≡◌, refl, ap, ap₂, ◌∙◌, sym, List, [], ◌∷◌,
  ◌++◌, append-nil, append_assoc, arith, length, take, drop, length-set, Bool-cases, inl, inr, ltb,
  leb, ltb→lt, min, if◌then◌else◌, some, none,
}
use c_roblib.Ring.{Ring, append, strict_loop, buffer_full, added, add_str_strict, advance_buffer}
use c_roblib.Ring.Inv.{IsValid, items, contents, items_congr}
use c_roblib.Ring.Refine.{items-push, next_end}

append_lem :
    {r : Ring} (c : ℕ)
    → IsValid r
    → r.length < r.capacity
    → IsValid (append r c)
      × (contents (append r c) ≡ contents r ++ c ∷ [])
      × ((append r c).capacity ≡ r.capacity)
      × ((append r c).length ≡ r.length + 1)
unfolding append
append_lem {r} c v room = ground (
  arith,
  length-set r.buffer r.end_index c,
  next_end r.start_index r.length r.end_index r.capacity,
  items-push r.buffer r.capacity c r.start_index r.length r.end_index v.storage room v.end_at,
)

-- What the loop has done when it stops, started at `r` with `n` bytes added.
record Wrote (r : Ring) (src : List ℕ) (n : ℕ) (out : ℕ × Ring) : Type 0 where
  valid : IsValid out.1
  same : out.1.capacity ≡ r.capacity
  count : out.0 ≡ n + min (length src) (r.capacity - r.length)
  reads : contents out.1 ≡ contents r ++ take (r.capacity - r.length) src

take-suc : (k m : ℕ) (c : ℕ) (cs : List ℕ) → k ≡ m + 1 → take k (c ∷ cs) ≡ c ∷ take m cs
take-suc zero m c cs e = absurd (omega arith)
take-suc (suc k) m c cs e = ap (λ j. c ∷ take j cs) (omega arith)

take-none : (k : ℕ) (cs : List ℕ) → k ≡ 0 → take k cs ≡ []
take-none zero cs e = refl
take-none (suc k) cs e = absurd (omega arith)

take-nil : (k : ℕ) → take {A = ℕ} k [] ≡ []
take-nil zero = refl
take-nil (suc k) = refl

strict_loop-Wrote :
    (src : List ℕ) {r : Ring} (n : ℕ) → IsValid r → Wrote r src n (strict_loop r src n)
unfolding strict_loop
strict_loop-Wrote [] {r} n v = record {
  valid = v;
  same = refl;
  count = omega arith;
  reads = rw (take-nil (r.capacity - r.length)) (sym (append-nil (contents r)));
}
strict_loop-Wrote (c ∷ cs) {r} n v = elim (Bool-cases (ltb r.length r.capacity)) [
  | inr full ↦ ground (arith, take-none (r.capacity - r.length) (c ∷ cs), append-nil (contents r))
  | inl room ↦
      let (valid, reads, same, longer) = append_lem c v (ltb→lt _ _ room) in
      let rest = strict_loop-Wrote cs (n + 1) valid in
      ground (
        arith,
        take-suc (r.capacity - r.length) (r.capacity - r.length - 1) c cs,
        append_assoc (contents r) (c ∷ []) (take (r.capacity - r.length - 1) cs),
      )
]

-- `crb_add_str_to_buffer_strict` of a valid ring overwrites nothing: a text that is not empty is
-- refused by a full ring, and otherwise as much of it as fits goes behind the old bytes, in order,
-- and that much is reported.
pub add_str_strict_lem :
    {r : Ring} (src : List ℕ)
    → IsValid r
    → let (reply, r') = add_str_strict r src in
      IsValid r'
      × (contents r' ≡ contents r ++ take (r.capacity - r.length) src)
      × (reply ≡ (
          if ltb 0 (length src)
          then if leb r.capacity r.length
            then buffer_full
            else added (min (length src) (r.capacity - r.length))
          else added 0))
unfolding add_str_strict
add_str_strict_lem {r} src v = ground (
  arith,
  strict_loop-Wrote src 0 v,
  take-none (r.capacity - r.length) src,
  append-nil (contents r),
)

items-drop :
    (buffer : List ℕ) (cap i n k : ℕ)
    → drop k (items buffer cap i n) ≡ items buffer cap (i + k) (n - k)
items-drop buffer cap i n zero = ap₂ (items buffer cap) (omega arith) (omega arith)
items-drop buffer cap i zero (suc k) = let spent : 0 - suc k ≡ 0 = omega arith in rw spent
items-drop buffer cap i (suc n) (suc k) =
    items-drop buffer cap (i + 1) n k ∙ ap₂ (items buffer cap) (omega arith) (omega arith)

-- `crb_advance_buffer` by no more bytes than a valid ring holds drops that many and reports it;
-- an empty ring reports EOF.
pub advance_buffer_lem :
    {r : Ring} (n : ℕ)
    → IsValid r
    → r.capacity < 2 ^ 31
    → n ≤ r.length
    → let (reply, r') = advance_buffer r n in
      IsValid r'
      × (contents r' ≡ drop n (contents r))
      × (reply ≡ (if ltb 0 r.length then some n else none))
unfolding advance_buffer
advance_buffer_lem {r} n v small within =
    let s = r.start_index + n in
    ground (
      arith,
      items-drop r.buffer r.capacity r.start_index r.length n,
      items_congr r.buffer r.capacity (s % r.capacity) s (r.length - n) (mod-mod s r.capacity),
      mod-add-mod s r.capacity (r.length - n),
    )

-- Asked for more than twice the bytes that are stored in a valid ring which is not empty, both the
-- capacity and the count below 2^31, `crb_advance_buffer` takes the excess off and not the bytes
-- stored: the length wraps below zero, and the ring is no longer valid.
pub advance_buffer_excess :
    {r : Ring} (n : ℕ)
    → IsValid r
    → r.capacity < 2 ^ 31
    → 0 < r.length
    → 2 * r.length < n
    → n < 2 ^ 31
    → ((advance_buffer r n).1.length ≡ 2 ^ 64 + 2 * r.length - n) × ¬ IsValid (advance_buffer r n).1
unfolding advance_buffer
advance_buffer_excess {r} n v small some_left over below =
    (wrapped, λ bad. absurd (omega (arith, bad.length_in, same, wrapped)))
  where
    wrapped : (advance_buffer r n).1.length ≡ 2 ^ 64 + 2 * r.length - n
    wrapped = ground arith

    same : (advance_buffer r n).1.capacity ≡ r.capacity
    same = ground arith
