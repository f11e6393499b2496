-- ===== src/StringUtils/Strip.antt =====
-- `sutil_strip`, `sutil_strip_left` and `sutil_strip_right`.
use c_roblib.Base.{
  ℕ, zero, suc, ◌+◌, ◌-◌, ◌≤◌, ◌<◌, ◌≡◌, refl, ap, ◌∙◌, arith, Bool, true, false, List, [], ◌∷◌,
  none, some, if◌then◌else◌, leb, ◌==◌, length, get_or, take, drop, Bool-cases, inl, inr,
  length-drop, length-take,
}
use c_roblib.StringUtils.{CString, char_in, from_char, copy_char, new_string}

-- `SUTIL_WHITESPACE`
abbrev pub whitespace : List ℕ
whitespace = 32 ∷ 9 ∷ 10 ∷ 13 ∷ 11 ∷ 12 ∷ []

unfoldable pub char_set : CString → List ℕ
char_set none = whitespace
char_set (some []) = whitespace
char_set (some (c ∷ chars)) = c ∷ chars

-- Whether a character of the string is stripped.
unfoldable pub is_stripped : List ℕ → ℕ → Bool
unfolding char_in from_char
is_stripped set c = char_in (from_char c) set

-- The index of the first character that is not stripped.
unfoldable pub leading : List ℕ → List ℕ → ℕ
unfolding is_stripped
leading set [] = 0
leading set (c ∷ str) = elim (is_stripped set c) [ true ↦ suc (leading set str) | false ↦ 0 ]

-- The index of the last one, counted from the end, with the rounds that are left.
unfoldable pub trailing : List ℕ → ℕ → ℕ → List ℕ → ℕ
unfolding is_stripped
trailing set zero index str = index
trailing set (suc rounds) index str =
    elim (is_stripped set (get_or str (length str - index - 1) 0)) [
      | true ↦ trailing set rounds (suc index) str
      | false ↦ index
    ]

unfoldable pub strip_in : Bool → List ℕ → List ℕ → CString
unfolding leading trailing copy_char
strip_in allocated set str =
    let left_index = leading set str in
    let end = trailing set (length str) 0 str in
    if left_index == length str
    then copy_char allocated (some [])
    else new_string allocated (take (length str - left_index - end) (drop left_index str))

-- `sutil_strip`
unfoldable pub strip : Bool → CString → CString → CString
unfolding char_set strip_in
strip allocated none chars = none
strip allocated (some str) chars = strip_in allocated (char_set chars) str

-- `sutil_strip_left`
unfoldable pub strip_left : Bool → CString → CString → CString
unfolding char_set leading
strip_left allocated none chars = none
strip_left allocated (some str) chars =
    new_string allocated (drop (leading (char_set chars) str) str)

-- `sutil_strip_right`
unfoldable pub strip_right : Bool → CString → CString → CString
unfolding char_set trailing
strip_right allocated none chars = none
strip_right allocated (some str) chars =
    new_string allocated (take (length str - trailing (char_set chars) (length str) 0 str) str)

-- The characters up to a place are stripped, and the one at it is not.
record Leading (set str : List ℕ) (k : ℕ) : Type 0 where
  within : k ≤ length str
  before : (j : ℕ) → j < k → is_stripped set (get_or str j 0) ≡ true
  stop : k < length str → is_stripped set (get_or str k 0) ≡ false

leading-Leading : (set str : List ℕ) → Leading set str (leading set str)
unfolding leading
leading-Leading set [] = record {
  within = omega arith;
  before = λ j h. absurd (omega arith);
  stop = λ h. absurd (omega arith);
}
leading-Leading set (c ∷ str) =
    let rest = leading-Leading set str in
    elim (Bool-cases (is_stripped set c)) [
      | inl hit ↦
          rw (hit, leading)
            (record {
              within = omega (arith, rest.within);
              before = before c rest hit;
              stop = λ h. rest.stop (omega arith);
            })
      | inr miss ↦
          rw (miss, leading)
            (record {
              within = omega arith;
              before = λ j h. absurd (omega arith);
              stop = λ h. miss;
            })
    ]
  where
    before :
        (c : ℕ)
        → {k : ℕ} → Leading set str k
        → is_stripped set c ≡ true
        → (j : ℕ) → j < suc k
        → is_stripped set (get_or (c ∷ str) j 0) ≡ true
    before c rest hit zero h = hit
    before c rest hit (suc j) h = rest.before j (omega arith)

-- The characters behind a place are stripped, and the one before it is not.
record Trailing (set str : List ℕ) (k : ℕ) : Type 0 where
  within : k ≤ length str
  behind : (j : ℕ) → length str - k ≤ j → j < length str → is_stripped set (get_or str j 0) ≡ true
  stop : k < length str → is_stripped set (get_or str (length str - k - 1) 0) ≡ false

trailing-Trailing :
    (set str : List ℕ) (rounds index : ℕ)
    → rounds + index ≡ length str
    → ((j : ℕ) → length str - index ≤ j → j < length str → is_stripped set (get_or str j 0) ≡ true)
    → Trailing set str (trailing set rounds index str)
unfolding trailing
trailing-Trailing set str zero index e behind = record {
  within = omega arith;
  behind = behind;
  stop = λ h. absurd (omega arith);
}
trailing-Trailing set str (suc rounds) index e behind =
    elim (Bool-cases (is_stripped set (get_or str (length str - index - 1) 0))) [
      | inl hit ↦
          rw (hit, trailing)
            (trailing-Trailing set str rounds (suc index) (omega arith) λ j a b.
              elim (Bool-cases (j == length str - index - 1)) [
                | inl same ↦
                    let at : j ≡ length str - index - 1 = ground arith in
                    ap (λ k. is_stripped set (get_or str k 0)) at ∙ hit
                | inr other ↦ behind j (ground arith) b
              ])
      | inr miss ↦
          rw (miss, trailing) (record { within = omega arith; behind = behind; stop = λ h. miss })
    ]

-- The same with the code's test of a character.
pub record Cut (set str : List ℕ) (out : List ℕ) : Type 0 where
  pub left : ℕ
  pub within : left + length out ≤ length str
  pub part : out ≡ take (length out) (drop left str)
  pub before : (j : ℕ) → j < left → is_stripped set (get_or str j 0) ≡ true
  pub behind :
      (j : ℕ) → left + length out ≤ j → j < length str → is_stripped set (get_or str j 0) ≡ true
  pub first : 0 < length out → is_stripped set (get_or str left 0) ≡ false
  pub last : 0 < length out → is_stripped set (get_or str (left + length out - 1) 0) ≡ false

pub strip_in-Cut :
    (set str : List ℕ) → (out : List ℕ) × (strip_in true set str ≡ some out) × Cut set str out
unfolding strip_in copy_char
strip_in-Cut set str =
    let left = leading set str in
    let end = trailing set (length str) 0 str in
    let l = leading-Leading set str in
    let t =
      trailing-Trailing set str (length str) 0 (omega arith) (λ j a b. absurd (omega arith)) in
    elim (Bool-cases (left == length str)) [
      | inl all ↦
          let whole : left ≡ length str = ground arith in
          (
            [],
            rw all refl,
            record {
              left = left;
              within = omega (arith, whole);
              part = refl;
              before = l.before;
              behind = λ j a b. absurd (omega (arith, whole));
              first = λ h. absurd (omega arith);
              last = λ h. absurd (omega arith);
            },
          )
      | inr some_left ↦
          let less : left < length str = ground (arith, l.within) in
          let apart : left + end < length str = elim (Bool-cases (leb (length str) (left + end))) [
            | inl over ↦
                let hit = t.behind left (ground arith) less in absurd (cc (hit, l.stop less))
            | inr under ↦ ground arith
          ] in
          let n = length str - left - end in
          let size : length (take n (drop left str)) ≡ n =
            omega (arith, length-take n (drop left str), length-drop left str) in
          (
            take n (drop left str),
            rw some_left refl,
            record {
              left = left;
              within = omega (arith, size, apart);
              part = rw size refl;
              before = l.before;
              behind = λ j a b. t.behind j (omega (arith, a, size, apart)) b;
              first = λ h. l.stop less;
              last = λ h.
                  let at : left + length (take n (drop left str)) - 1 ≡ length str - end - 1 =
                    omega (arith, size, apart) in
                  ap (λ k. is_stripped set (get_or str k 0)) at ∙ t.stop (omega (arith, apart));
            },
          )
    ]
