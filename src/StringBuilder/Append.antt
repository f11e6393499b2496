-- ===== src/StringBuilder/Append.antt =====
-- `sb_append_str` and `sb_append_char`.
use c_roblib.Base.{
  ℕ, zero, suc, ◌+◌, ◌-◌, ◌*◌, ◌/◌, ◌%◌, ◌^◌, ◌≤◌, ◌<◌, ◌≡◌, refl, sym, ap, ◌∙◌, arith, true, false,
  List, [], ◌∷◌, ◌++◌, none, if◌then◌else◌, ◌==◌, length, get_or, get_or_beyond, length-append,
  append-nil, Bool-cases, inl, inr,
}
use c_roblib.Base.Shift.{get_or-++}
use c_roblib.Allocator.{Arena}
use c_roblib.StringBuilder.{
  StringBuilder, System, Outcome, overwrite, with_room, append_char, append_str,
}
use c_roblib.StringBuilder.Text.{
  IsValid, text, length-text, get_or-text, length-overwrite, get_or-overwrite, Holds, reads-Holds,
  Room, roomy, no_memory, ensure_capacity-Room,
}

-- How an operation that makes the text longer ends.
pub data Edited (system : System) (arena : Arena) (sb : StringBuilder) (all : List ℕ)
    (out : Outcome) : Type 0 where
  edited :
      (next : StringBuilder)
      → out ≡ (true, (arena, next))
      → Holds next all
      → next.place ≡ none
      → Edited system arena sb all out
  unchanged :
      out ≡ (false, (arena, sb))
      → system.granted ≡ false
      → sb.capacity < length all
      → Edited system arena sb all out

-- What an operation does in a buffer with room for the longer text.
pub with_room-Edited :
    {system : System} {arena : Arena} {sb : StringBuilder} {out : Outcome} (all : List ℕ)
    (body : StringBuilder → StringBuilder) (n : ℕ)
    → length all ≡ n
    → Room system arena sb n out
    → ((room : StringBuilder)
        → Holds room (text sb)
        → room.length ≡ sb.length
        → n ≤ room.capacity
        → Holds (body room) all)
    → ((room : StringBuilder) → (body room).place ≡ room.place)
    → Edited system arena sb all (with_room out body)
with_room-Edited all body n size (roomy room e held same enough owned) works keeps =
    edited (body room) (ap (λ o. with_room o body) e) (works room held same enough)
      (keeps room ∙ owned)
with_room-Edited all body n size (no_memory e refused full) works keeps =
    unchanged (ap (λ o. with_room o body) e) refused (rw size full)

terminator : (k : ℕ) → get_or {A = ℕ} (0 ∷ []) k 0 ≡ 0
terminator zero = refl
terminator (suc k) = refl

-- The text and a string behind it, with a new terminator.
extended :
    (sb room : StringBuilder) (str : List ℕ) (n : ℕ)
    → IsValid sb
    → Holds room (text sb)
    → room.length ≡ sb.length
    → sb.length + length str ≡ n
    → n ≤ room.capacity
    → Holds
        (record room { buffer = overwrite room.length (str ++ 0 ∷ []) room.buffer; length = n })
        (text sb ++ str)
extended sb room str n valid held same size enough =
    let ended : List ℕ = str ++ 0 ∷ [] in
    let ends : length ended ≡ length str + 1 = length-append str (0 ∷ []) in
    let fits : room.length + length ended ≤ length room.buffer =
      omega (arith, ends, held.sound.whole) in
    reads-Holds (record room { buffer = overwrite room.length ended room.buffer; length = n })
      (text sb ++ str) (length-overwrite room.length ended room.buffer fits ∙ held.sound.whole)
      enough (omega (arith, length-append (text sb) str, length-text sb valid))
      λ j.
        let kept : get_or room.buffer j 0 ≡ get_or (text sb) j 0 =
          sym (get_or-text room held.sound j) ∙ ap (λ t. get_or t j 0) held.holds in
        ground (
          arith,
          get_or-overwrite room.length ended room.buffer j fits,
          get_or-++ str (0 ∷ []) (j - room.length) 0,
          terminator (j - room.length - length str),
          get_or-++ (text sb) str j 0,
          length-text sb valid,
          kept,
          get_or_beyond (text sb) j 0,
          get_or_beyond str (j - room.length) 0,
        )

module _ (system : System) (arena : Arena) (sb : StringBuilder) (valid : IsValid sb)
    (owned : sb.place ≡ none) where
  -- Of a builder with a buffer from `malloc`, where four thirds of the new length fit into
  -- `uint32_t`, the appended string is behind the text, with a terminator, zeros up to the capacity
  -- and an intact buffer; where the text does not fit and the C library refuses memory, the builder
  -- stays as it was.
  pub append_str-Edited :
      (str : List ℕ)
      → (sb.length + length str) * 4 / 3 < 2 ^ 32
      → Edited system arena sb (text sb ++ str) (append_str system arena sb str)
  unfolding append_str
  append_str-Edited [] word =
      edited sb refl (record { sound = valid; holds = sym (append-nil (text sb)) }) owned
  append_str-Edited (c ∷ cs) word =
      let str = c ∷ cs in
      let n = sb.length + length str in
      let new_length : n % 2 ^ 32 ≡ n = omega (arith, word) in
      let more : (length str == 0) ≡ false = ground arith in
      rw (more, new_length)
        (with_room-Edited (text sb ++ str)
          (λ room. record room {
            buffer = overwrite room.length (str ++ 0 ∷ []) room.buffer;
            length = n;
          })
          n (omega (arith, length-append (text sb) str, length-text sb valid))
          (ensure_capacity-Room system arena sb valid owned n word)
          (λ room held same enough. extended sb room str n valid held same refl enough)
          (λ room. refl))

  pub append_char-Edited :
      (c : ℕ)
      → (sb.length + 1) * 4 / 3 < 2 ^ 32
      → Edited system arena sb
          (text sb ++ (if c == 0 then [] else c ∷ []))
          (append_char system arena sb c)
  unfolding append_char
  append_char-Edited c word = elim (Bool-cases (c == 0)) [
    | inl null ↦
        rw null
          (edited sb refl (record { sound = valid; holds = sym (append-nil (text sb)) }) owned)
    | inr more ↦
        let n = sb.length + 1 in
        let new_length : n % 2 ^ 32 ≡ n = omega (arith, word) in
        rw (more, new_length)
          (with_room-Edited (text sb ++ c ∷ [])
            (λ room. record room {
              buffer = overwrite room.length (c ∷ 0 ∷ []) room.buffer;
              length = room.length + 1;
            })
            n (omega (arith, length-append (text sb) (c ∷ []), length-text sb valid))
            (ensure_capacity-Room system arena sb valid owned n word)
            (λ room held same enough.
              extended sb room (c ∷ []) (room.length + 1) valid held same (omega (arith, same))
                (omega (arith, same, enough)))
            (λ room. refl))
  ]
