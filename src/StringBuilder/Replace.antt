-- ===== src/StringBuilder/Replace.antt =====
-- `sb_replace_match_chars`, `sb_init` and `sb_copy_to`.
use c_roblib.Base.{
  ℕ, zero, suc, ◌+◌, ◌-◌, ◌<◌, ◌≡◌, refl, ap, ◌∙◌, arith, false, List, [], ◌∷◌, ◌++◌, some,
  if◌then◌else◌, ◌==◌, length, get_or, get_or_beyond, take, drop, length-append, length-drop,
  Bool-cases, inl, inr,
}
use c_roblib.Base.Shift.{get_or-++, get_or-drop}
use c_roblib.StringBuilder.{StringBuilder, has_char, is_match, replace_loop, replace_match_chars}
use c_roblib.StringBuilder.Text.{IsValid, text, length-text, Holds, reads-Holds}

-- The characters with those of a set replaced, and how many these are.
unfoldable pub replaced : List ℕ → ℕ → List ℕ → List ℕ
replaced match_chars r [] = []
replaced match_chars r (c ∷ cs) =
    (if has_char match_chars c then r else c) ∷ replaced match_chars r cs

unfoldable pub matches : List ℕ → List ℕ → ℕ
matches match_chars [] = 0
matches match_chars (c ∷ cs) =
    (if has_char match_chars c then matches match_chars cs + 1 else matches match_chars cs)

-- No terminator stands among the characters.
abbrev pub IsString : List ℕ → Type 0
IsString [] = Unit
IsString (c ∷ cs) = (0 < c) × IsString cs

is_match_lem : (match_chars : List ℕ) (c : ℕ) → is_match match_chars c ≡ has_char match_chars c
unfolding is_match has_char
is_match_lem [] c = refl
is_match_lem (x ∷ []) c = ground arith
is_match_lem (x ∷ y ∷ cs) c = ground arith

replace_loop_lem :
    (match_chars : List ℕ) (r n : ℕ) (bytes : List ℕ)
    → IsString (take n bytes)
    → (get_or bytes n 0 ≡ 0)
    → replace_loop match_chars r bytes
      ≡ (matches match_chars (take n bytes), replaced match_chars r (take n bytes) ++ drop n bytes)
unfolding replace_loop matches replaced
replace_loop_lem match_chars r zero [] s e = refl
replace_loop_lem match_chars r (suc n) [] s e = refl
replace_loop_lem match_chars r zero (c ∷ cs) s e = ground arith
replace_loop_lem match_chars r (suc n) (c ∷ cs) (pos, s) e =
    let rest = replace_loop_lem match_chars r n cs s e in
    let more : (c == 0) ≡ false = ground arith in
    rw (more, is_match_lem match_chars c, rest)
      (elim (Bool-cases (has_char match_chars c)) [
        | inl hit ↦ rw hit refl
        | inr miss ↦ rw miss refl
      ])

length-replaced :
    (match_chars : List ℕ) (r : ℕ) (cs : List ℕ) → length (replaced match_chars r cs) ≡ length cs
unfolding replaced
length-replaced match_chars r [] = refl
length-replaced match_chars r (c ∷ cs) = ap suc (length-replaced match_chars r cs)

-- The number of replacements, and the builder with the characters replaced.
pub record Replaced (sb : StringBuilder) (match_chars : List ℕ) (r : ℕ) (out : ℕ × StringBuilder)
    : Type 0 where
  pub number : out.0 ≡ matches match_chars (text sb)
  pub held : Holds out.1 (replaced match_chars r (text sb))

-- Of a text without terminators in it, each character of the set is replaced, and no other; the
-- result is their number, and the builder is as sound as it was.
pub replace_match_chars-Replaced :
    (sb : StringBuilder) (match_chars : List ℕ) (r : ℕ)
    → IsValid sb
    → IsString (text sb)
    → 0 < length match_chars
    → 0 < r
    → Replaced sb match_chars r (replace_match_chars sb (some match_chars) r)
unfolding replace_match_chars
replace_match_chars-Replaced sb match_chars r valid string some_chars char =
    let loop =
      replace_loop_lem match_chars r sb.length sb.buffer string
        (valid.zeros sb.length (omega arith)) in
    let set : (length match_chars == 0) ≡ false = ground arith in
    let written : (r == 0) ≡ false = ground arith in
    let all = replaced match_chars r (text sb) in
    let size : length all ≡ sb.length =
      length-replaced match_chars r (text sb) ∙ length-text sb valid in
    let rest = drop sb.length sb.buffer in
    rw (set, written, loop)
      (record {
        number = refl;
        held =
            reads-Holds (record sb { buffer = all ++ rest }) all
              (omega (
                arith,
                length-append all rest,
                size,
                length-drop sb.length sb.buffer,
                valid.whole,
                valid.within,
              ))
              valid.within size
              λ j. ground (
                arith,
                get_or-++ all rest j 0,
                size,
                get_or-drop sb.length (j - sb.length) j sb.buffer 0,
                valid.zeros j,
                get_or_beyond all j 0,
              );
      })
