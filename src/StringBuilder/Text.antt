-- ===== src/StringBuilder/Text.antt =====
-- The text that a builder holds, and `sb_ensure_capacity` of a builder whose buffer `malloc` gave.
use c_roblib.Base.{
  ℕ, ◌+◌, ◌-◌, ◌*◌, ◌/◌, ◌^◌, ◌≤◌, ◌<◌, ◌≡◌, refl, ap, ◌∙◌, arith, true, false, List, ◌++◌, none,
  if◌then◌else◌, ltb, leb, ◌&&◌, length, get_or, take, drop, replicate, length-take, length-drop,
  length-append, length-replicate, get_or-replicate, get_or_beyond, Bool-cases, inl, inr,
}
use c_roblib.Base.Shift.{get_or-take, get_or-drop, get_or-++, list_ext}
use c_roblib.Allocator.{Arena}
use c_roblib.StringBuilder.{
  StringBuilder, System, Outcome, scaled, grow_buffer, ensure_capacity, reallocated, overwrite,
}

pub record IsValid (sb : StringBuilder) : Type 0 where
  pub whole : length sb.buffer ≡ sb.capacity + 1
  pub within : sb.length ≤ sb.capacity
  pub zeros : (j : ℕ) → sb.length ≤ j → get_or sb.buffer j 0 ≡ 0

abbrev pub text : StringBuilder → List ℕ
text sb = take sb.length sb.buffer

pub length-text : (sb : StringBuilder) → IsValid sb → length (text sb) ≡ sb.length
length-text sb v = omega (arith, length-take sb.length sb.buffer, v.whole, v.within)

pub get_or-text :
    (sb : StringBuilder) → IsValid sb → (j : ℕ) → get_or (text sb) j 0 ≡ get_or sb.buffer j 0
get_or-text sb v j = ground (arith, get_or-take sb.length j sb.buffer 0, v.zeros j)

pub length-overwrite :
    (at : ℕ) (str bytes : List ℕ)
    → at + length str ≤ length bytes
    → length (overwrite at str bytes) ≡ length bytes
unfolding overwrite
length-overwrite at str bytes h = omega (
  arith,
  length-append (take at bytes) (str ++ drop (at + length str) bytes),
  length-append str (drop (at + length str) bytes),
  length-take at bytes,
  length-drop (at + length str) bytes,
)

pub get_or-overwrite :
    (at : ℕ) (str bytes : List ℕ) (j : ℕ)
    → at + length str ≤ length bytes
    → get_or (overwrite at str bytes) j 0
      ≡ (if leb at j && ltb j (at + length str) then get_or str (j - at) 0 else get_or bytes j 0)
unfolding overwrite
get_or-overwrite at str bytes j h =
    let rest = drop (at + length str) bytes in
    ground (
      arith,
      get_or-++ (take at bytes) (str ++ rest) j 0,
      get_or-++ str rest (j - at) 0,
      length-take at bytes,
      get_or-take at j bytes 0,
      get_or-drop (at + length str) (j - at - length str) j bytes 0,
    )

-- A buffer that reads as a text, with zeros behind it.
pub record Holds (next : StringBuilder) (all : List ℕ) : Type 0 where
  pub sound : IsValid next
  pub holds : text next ≡ all

pub reads-Holds :
    (next : StringBuilder) (all : List ℕ)
    → length next.buffer ≡ next.capacity + 1
    → next.length ≤ next.capacity
    → length all ≡ next.length
    → ((j : ℕ) → get_or next.buffer j 0 ≡ get_or all j 0)
    → Holds next all
reads-Holds next all whole within size read = record {
  sound = record {
    whole = whole;
    within = within;
    zeros = λ j h. read j ∙ get_or_beyond all j 0 (omega (arith, size));
  };
  holds =
      list_ext (take next.length next.buffer) all 0
        (omega (arith, size, whole, length-take next.length next.buffer))
        λ j l. ground (
          arith,
          read j,
          get_or-take next.length j next.buffer 0,
          length-take next.length next.buffer,
        );
}

-- How `sb_ensure_capacity` ends.
pub data Room (system : System) (arena : Arena) (sb : StringBuilder) (wanted : ℕ) (out : Outcome)
    : Type 0 where
  roomy :
      (room : StringBuilder)
      → out ≡ (true, (arena, room))
      → Holds room (text sb)
      → room.length ≡ sb.length
      → wanted ≤ room.capacity
      → room.place ≡ none
      → Room system arena sb wanted out
  no_memory :
      out ≡ (false, (arena, sb))
      → system.granted ≡ false
      → sb.capacity < wanted
      → Room system arena sb wanted out

module _ (system : System) (arena : Arena) (sb : StringBuilder) (valid : IsValid sb)
    (owned : sb.place ≡ none) where
  reallocated-Holds :
      (n : ℕ)
      → sb.capacity ≤ n
      → Holds
          (record sb {
            capacity = n;
            buffer = take sb.capacity sb.buffer ++ replicate (n - sb.capacity + 1) 0;
          })
          (text sb)
  reallocated-Holds n more =
      let spare : List ℕ = replicate (n - sb.capacity + 1) 0 in
      let size : length spare ≡ n - sb.capacity + 1 =
        length-replicate {A = ℕ} (n - sb.capacity + 1) 0 in
      reads-Holds (record sb { capacity = n; buffer = take sb.capacity sb.buffer ++ spare })
        (text sb)
        (omega (
          arith,
          length-append (take sb.capacity sb.buffer) spare,
          length-take sb.capacity sb.buffer,
          size,
          valid.whole,
        ))
        (omega (arith, valid.within)) (length-text sb valid)
        λ j. ground (
          arith,
          get_or-++ (take sb.capacity sb.buffer) spare j 0,
          length-take sb.capacity sb.buffer,
          valid.whole,
          get_or-take sb.capacity j sb.buffer 0,
          get_or-replicate {A = ℕ} (n - sb.capacity + 1) (j - sb.capacity) 0,
          get_or-text sb valid j,
          valid.zeros j,
          valid.within,
        )

  pub ensure_capacity-Room :
      (wanted : ℕ)
      → wanted * 4 / 3 < 2 ^ 32
      → Room system arena sb wanted (ensure_capacity system arena sb wanted)
  unfolding ensure_capacity scaled grow_buffer reallocated
  ensure_capacity-Room wanted word = elim (Bool-cases (leb wanted sb.capacity)) [
    | inl fits ↦
        roomy sb (rw fits refl) (record { sound = valid; holds = refl }) refl (ground arith) owned
    | inr more ↦
        let in_range : scaled system wanted ≡ wanted * 4 / 3 = ground arith in
        let n = wanted * 4 / 3 in
        let grown : grow_buffer system arena sb n sb.place ≡ reallocated system arena sb n =
          ap (grow_buffer system arena sb n) owned in
        let larger : ltb (wanted * 4 / 3) sb.capacity ≡ false = ground arith in
        let moved : ensure_capacity system arena sb wanted ≡ reallocated system arena sb n =
          rw (more, in_range, larger) grown in
        elim (Bool-cases system.granted) [
          | inl given ↦
              roomy
                (record sb {
                  capacity = wanted * 4 / 3;
                  buffer =
                      take sb.capacity sb.buffer ++ replicate (wanted * 4 / 3 - sb.capacity + 1) 0;
                })
                (moved ∙ rw given refl) (reallocated-Holds (wanted * 4 / 3) (ground arith)) refl
                (omega arith) owned
          | inr refused ↦ no_memory (moved ∙ rw refused refl) refused (ground arith)
        ]
  ]
