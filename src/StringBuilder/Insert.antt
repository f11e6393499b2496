-- ===== src/StringBuilder/Insert.antt =====
-- `sb_insert_str` and `sb_insert_char`.
use c_roblib.Base.{
  ℕ, ◌+◌, ◌-◌, ◌*◌, ◌/◌, ◌%◌, ◌^◌, ◌≤◌, ◌<◌, ◌≡◌, refl, sym, ap, ◌∙◌, arith, false, List, [], ◌∷◌,
  ◌++◌, none, if◌then◌else◌, ltb, ◌==◌, length, get_or, get_or_beyond, take, drop, length-append,
  length-take, length-drop, take-append-drop,
}
use c_roblib.Base.Shift.{
  get_or-++, get_or-take, get_or-drop, memmove, length-memmove, get_or-memmove,
}
use c_roblib.Allocator.{Arena}
use c_roblib.StringBuilder.{StringBuilder, System, overwrite, insert_char, insert_str}
use c_roblib.StringBuilder.Text.{
  IsValid, text, length-text, get_or-text, length-overwrite, get_or-overwrite, Holds, reads-Holds,
  ensure_capacity-Room,
}
use c_roblib.StringBuilder.Append.{Edited, edited, with_room-Edited}

-- A string put into another one.
unfoldable pub spliced : ℕ → List ℕ → List ℕ → List ℕ
spliced index str all = take index all ++ (str ++ drop index all)

length-spliced :
    (index : ℕ) (str all : List ℕ)
    → index ≤ length all
    → length (spliced index str all) ≡ length all + length str
unfolding spliced
length-spliced index str all h = omega (
  arith,
  length-append (take index all) (str ++ drop index all),
  length-append str (drop index all),
  length-take index all,
  length-drop index all,
)

get_or-spliced :
    (index : ℕ) (str all : List ℕ) (j : ℕ)
    → index ≤ length all
    → get_or (spliced index str all) j 0 ≡ (
        if ltb j index
        then get_or all j 0
        else if ltb j (index + length str)
        then get_or str (j - index) 0
        else get_or all (j - length str) 0)
unfolding spliced
get_or-spliced index str all j h = ground (
  arith,
  get_or-++ (take index all) (str ++ drop index all) j 0,
  get_or-++ str (drop index all) (j - index) 0,
  length-take index all,
  get_or-take index j all 0,
  get_or-drop index (j - index - length str) (j - length str) all 0,
)

-- The text behind the index moves up by the length of the string, with `n` bytes.
module _ (sb room : StringBuilder) (valid : IsValid sb) (held : Holds room (text sb))
    (same : room.length ≡ sb.length) (str : List ℕ) (index n : ℕ) (inside : index ≤ sb.length)
    (enough : sb.length + length str ≤ room.capacity) (whole : sb.length ≤ index + n)
    (bytes : index + length str + n ≤ room.capacity + 1) where
  abbrev moved : List ℕ
  moved = memmove (index + length str) index n room.buffer

  inserted :
      Holds
        (record room { buffer = overwrite index str moved; length = sb.length + length str })
        (spliced index str (text sb))
  inserted =
      let size =
        length-memmove (index + length str) index n room.buffer
          (omega (arith, bytes, held.sound.whole)) (omega (arith, bytes, held.sound.whole)) in
      let fits : index + length str ≤ length moved = omega (arith, size, held.sound.whole) in
      let all = length-text sb valid in
      reads-Holds
        (record room { buffer = overwrite index str moved; length = sb.length + length str })
        (spliced index str (text sb))
        (length-overwrite index str moved fits ∙ size ∙ held.sound.whole) enough
        (omega (arith, length-spliced index str (text sb) (omega arith), all))
        λ j.
          let kept : (k : ℕ) → get_or room.buffer k 0 ≡ get_or (text sb) k 0 =
            λ k. sym (get_or-text room held.sound k) ∙ ap (λ t. get_or t k 0) held.holds in
          ground (
            arith,
            get_or-overwrite index str moved j fits,
            get_or-memmove (index + length str) index n j room.buffer 0,
            get_or-spliced index str (text sb) j,
            kept j,
            kept (j - (index + length str) + index),
            kept (j - length str),
            get_or_beyond (text sb) j 0,
            get_or_beyond (text sb) (j - length str) 0,
            held.sound.whole,
            bytes,
          )

module _ (system : System) (arena : Arena) (sb : StringBuilder) (valid : IsValid sb)
    (owned : sb.place ≡ none) where
  -- Of a builder with a buffer from `malloc`, at an index inside the text, where four thirds of the
  -- new length fit into `uint32_t`, the string is put into the text, with zeros behind it up to the
  -- capacity, although the terminator is not moved; where it does not fit and the C library refuses
  -- memory, the builder stays as it was.
  pub insert_str-Edited :
      (str : List ℕ) (index : ℕ)
      → index ≤ sb.length
      → (sb.length + length str) * 4 / 3 < 2 ^ 32
      → Edited system arena sb (spliced index str (text sb)) (insert_str system arena sb str index)
  unfolding insert_str spliced
  insert_str-Edited [] index inside word =
      edited sb refl (record { sound = valid; holds = sym (take-append-drop index (text sb)) })
        owned
  insert_str-Edited (c ∷ cs) index inside word =
      let str = c ∷ cs in
      let n = sb.length + length str in
      let new_length : n % 2 ^ 32 ≡ n = omega (arith, word) in
      let more : (length str == 0) ≡ false = ground arith in
      let all = length-text sb valid in
      rw (more, new_length)
        (with_room-Edited (spliced index str (text sb))
          (λ room. record room {
            buffer =
                overwrite index str
                  (memmove (index + length str) index (room.length - index) room.buffer);
            length = n;
          })
          n (length-spliced index str (text sb) (omega (arith, all)) ∙ ap (λ k. k + length str) all)
          (ensure_capacity-Room system arena sb valid owned n word)
          (λ room held same enough.
            inserted sb room valid held same str index (room.length - index) inside enough
              (omega (arith, same)) (omega (arith, same, enough, inside)))
          (λ room. refl))

  pub insert_char-Edited :
      (c index : ℕ)
      → 0 < c
      → index ≤ sb.length
      → (sb.length + 1) * 4 / 3 < 2 ^ 32
      → Edited system arena sb
          (spliced index (c ∷ []) (text sb))
          (insert_char system arena sb c index)
  unfolding insert_char
  insert_char-Edited c index char inside word =
      let n = sb.length + 1 in
      let new_length : n % 2 ^ 32 ≡ n = omega (arith, word) in
      let more : (c == 0) ≡ false = ground arith in
      let all = length-text sb valid in
      rw (more, new_length)
        (with_room-Edited (spliced index (c ∷ []) (text sb))
          (λ room. record room {
            buffer = overwrite index (c ∷ []) (memmove (index + 1) index (n - index) room.buffer);
            length = n;
          })
          n (length-spliced index (c ∷ []) (text sb) (omega (arith, all)) ∙ ap (λ k. k + 1) all)
          (ensure_capacity-Room system arena sb valid owned n word)
          (λ room held same enough.
            inserted sb room valid held same (c ∷ []) index (n - index) inside enough (omega arith)
              (omega (arith, enough, inside)))
          (λ room. refl))
