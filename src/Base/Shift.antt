-- ===== src/Base/Shift.antt =====
-- Parts of arrays that move by one place, read place by place.
use Prim.Native.Nat.{ℕ, zero, suc, ◌+◌, ◌-◌, ◌≤◌, ◌<◌}
use mathlib.Core.Path.{◌≡◌, refl, ap, ◌∙◌}
use mathlib.Core.Bool.{◌&&◌}
use mathlib.Core.List.{List, [], ◌∷◌, ◌++◌}
use native.Mathlib.Omega.{arith}
use c_roblib.Base.Tests.{ltb, leb, ◌==◌, if◌then◌else◌}
use c_roblib.Base.Lists.{
  length, get_or, set, take, drop, length-set, length-append, length-take, length-drop,
}

module _ {ℓ} {A : Type ℓ} where
  -- `for (; rounds > 0; --i) elements[i] = elements[i - 1];`
  unfoldable pub shift_up : A → ℕ → ℕ → List A → List A
  shift_up d zero i xs = xs
  shift_up d (suc rounds) i xs = shift_up d rounds (i - 1) (set xs i (get_or xs (i - 1) d))

  -- `for (; rounds > 0; ++i) elements[i - 1] = elements[i];`
  unfoldable pub shift_down : A → ℕ → ℕ → List A → List A
  shift_down d zero i xs = xs
  shift_down d (suc rounds) i xs = shift_down d rounds (i + 1) (set xs (i - 1) (get_or xs i d))

  -- `memmove(&v[to], &v[from], n)`
  unfoldable pub memmove : ℕ → ℕ → ℕ → List A → List A
  memmove to from n xs = take to xs ++ (take n (drop from xs) ++ drop (to + n) xs)

  pub get_or-set :
      (xs : List A) (i j : ℕ) (v d : A)
      → i < length xs
      → get_or (set xs i v) j d ≡ (if i == j then v else get_or xs j d)
  get_or-set [] i j v d h = absurd (omega arith)
  get_or-set (x ∷ xs) zero zero v d h = refl
  get_or-set (x ∷ xs) zero (suc j) v d h = ground arith
  get_or-set (x ∷ xs) (suc i) zero v d h = ground arith
  get_or-set (x ∷ xs) (suc i) (suc j) v d h = ground (arith, get_or-set xs i j v d)

  pub get_or-take :
      (n j : ℕ) (xs : List A) (d : A)
      → get_or (take n xs) j d ≡ (if ltb j n then get_or xs j d else d)
  get_or-take zero j xs d = ground arith
  get_or-take (suc n) j [] d = ground arith
  get_or-take (suc n) zero (x ∷ xs) d = ground arith
  get_or-take (suc n) (suc j) (x ∷ xs) d = ground (arith, get_or-take n j xs d)

  pub get_or-drop :
      (n j k : ℕ) (xs : List A) (d : A) → k ≡ n + j → get_or (drop n xs) j d ≡ get_or xs k d
  get_or-drop zero j k xs d e = ap (λ i. get_or xs i d) (omega arith)
  get_or-drop (suc n) j k [] d e = refl
  get_or-drop (suc n) j zero (x ∷ xs) d e = absurd (omega arith)
  get_or-drop (suc n) j (suc k) (x ∷ xs) d e = get_or-drop n j k xs d (omega arith)

  pub get_or-++ :
      (xs ys : List A) (j : ℕ) (d : A)
      → get_or (xs ++ ys) j d
        ≡ (if ltb j (length xs) then get_or xs j d else get_or ys (j - length xs) d)
  get_or-++ [] ys j d = ground arith
  get_or-++ (x ∷ xs) ys zero d = ground arith
  get_or-++ (x ∷ xs) ys (suc j) d = ground (arith, get_or-++ xs ys j d)

  -- Two lists of one length that read alike are equal.
  pub list_ext :
      (xs ys : List A) (d : A)
      → length xs ≡ length ys
      → ((j : ℕ) → j < length xs → get_or xs j d ≡ get_or ys j d)
      → xs ≡ ys
  list_ext [] [] d e h = refl
  list_ext [] (y ∷ ys) d e h = absurd (omega arith)
  list_ext (x ∷ xs) [] d e h = absurd (omega arith)
  list_ext (x ∷ xs) (y ∷ ys) d e h =
      let head : x ≡ y = h 0 (omega arith) in
      let tail = list_ext xs ys d (omega arith) (λ j l. h (suc j) (omega arith)) in
      rw (head, tail) refl

  pub length-shift_up :
      (d : A) (rounds i : ℕ) (xs : List A) → length (shift_up d rounds i xs) ≡ length xs
  unfolding shift_up
  length-shift_up d zero i xs = refl
  length-shift_up d (suc rounds) i xs = length-shift_up d rounds (i - 1) _ ∙ length-set xs i _

  pub length-shift_down :
      (d : A) (rounds i : ℕ) (xs : List A) → length (shift_down d rounds i xs) ≡ length xs
  unfolding shift_down
  length-shift_down d zero i xs = refl
  length-shift_down d (suc rounds) i xs =
      length-shift_down d rounds (i + 1) _ ∙ length-set xs (i - 1) _

-- `ground` splits on numbers only below `Type 1`.
module _ {A : Type 0} where
  pub get_or-shift_up :
      (d : A) (rounds i j : ℕ) (xs : List A)
      → i < length xs
      → rounds ≤ i
      → get_or (shift_up d rounds i xs) j d
        ≡ (if ltb (i - rounds) j && leb j i then get_or xs (j - 1) d else get_or xs j d)
  unfolding shift_up
  get_or-shift_up d zero i j xs h k = ground arith
  get_or-shift_up d (suc rounds) i j xs h k =
      let x = get_or xs (i - 1) d in
      ground (
        arith,
        get_or-shift_up d rounds (i - 1) j (set xs i x),
        length-set xs i x,
        get_or-set xs i j x d h,
        get_or-set xs i (j - 1) x d h,
      )

  pub get_or-shift_down :
      (d : A) (rounds i j : ℕ) (xs : List A)
      → 0 < i
      → i + rounds ≤ length xs
      → get_or (shift_down d rounds i xs) j d
        ≡ (if leb (i - 1) j && ltb j (i - 1 + rounds) then get_or xs (j + 1) d else get_or xs j d)
  unfolding shift_down
  get_or-shift_down d zero i j xs h k = ground arith
  get_or-shift_down d (suc rounds) i j xs h k =
      let x = get_or xs i d in
      ground (
        arith,
        get_or-shift_down d rounds (i + 1) j (set xs (i - 1) x),
        length-set xs (i - 1) x,
        get_or-set xs (i - 1) j x d,
        get_or-set xs (i - 1) (j + 1) x d,
      )

  pub length-memmove :
      (to from n : ℕ) (xs : List A)
      → to + n ≤ length xs
      → from + n ≤ length xs
      → length (memmove to from n xs) ≡ length xs
  unfolding memmove
  length-memmove to from n xs h k =
      let a = take to xs in
      let b = take n (drop from xs) in
      let c = drop (to + n) xs in
      omega (
        arith,
        length-append a (b ++ c),
        length-append b c,
        length-take to xs,
        length-take n (drop from xs),
        length-drop from xs,
        length-drop (to + n) xs,
      )

  pub get_or-memmove :
      (to from n j : ℕ) (xs : List A) (d : A)
      → to + n ≤ length xs
      → from + n ≤ length xs
      → get_or (memmove to from n xs) j d
        ≡ (if leb to j && ltb j (to + n) then get_or xs (j - to + from) d else get_or xs j d)
  unfolding memmove
  get_or-memmove to from n j xs d h k =
      let b = take n (drop from xs) in
      let c = drop (to + n) xs in
      ground (
        arith,
        get_or-++ (take to xs) (b ++ c) j d,
        get_or-++ b c (j - to) d,
        length-take to xs,
        length-take n (drop from xs),
        length-drop from xs,
        get_or-take to j xs d,
        get_or-take n (j - to) (drop from xs) d,
        get_or-drop from (j - to) (j - to + from) xs d (omega arith),
        get_or-drop (to + n) (j - to - n) j xs d,
      )

-- What an array holds after an element was put in between, and after one was taken out.
unfoldable pub insert_at {ℓ} : {A : Type ℓ} → ℕ → A → List A → List A
insert_at i v xs = take i xs ++ v ∷ drop i xs

unfoldable pub erase_at {ℓ} : {A : Type ℓ} → ℕ → List A → List A
erase_at i xs = take i xs ++ drop (i + 1) xs

module _ {A : Type 0} (xs ys : List A) (i n : ℕ) (d : A) (inside : n ≤ length xs) where
  behind :
      (v : A) (all : List A) (k : ℕ)
      → get_or (v ∷ drop i all) k d ≡ (if k == 0 then v else get_or (drop i all) (k - 1) d)
  behind v all zero = refl
  behind v all (suc k) = ground arith

  pub take-insert_at :
      (v : A)
      → i ≤ n
      → n + 1 ≤ length ys
      → ((j : ℕ)
          → j ≤ n
          → get_or ys j d
            ≡ (if j == i then v else if ltb j i then get_or xs j d else get_or xs (j - 1) d))
      → take (n + 1) ys ≡ insert_at i v (take n xs)
  unfolding insert_at
  take-insert_at v h k read =
      let all = take n xs in
      let size = length-append (take i all) (v ∷ drop i all) in
      let sizes : length (take (n + 1) ys) ≡ length (take i all ++ v ∷ drop i all) = omega (
        arith,
        length-take n xs,
        length-take i all,
        length-drop i all,
        size,
        length-take (n + 1) ys,
      ) in
      list_ext (take (n + 1) ys) (take i all ++ v ∷ drop i all) d sizes λ j l.
        let inside_ys : j < n + 1 = omega (arith, l, length-take (n + 1) ys) in
        ground (
          arith,
          get_or-take (n + 1) j ys d,
          read j (omega arith),
          get_or-++ (take i all) (v ∷ drop i all) j d,
          length-take i all,
          length-take n xs,
          get_or-take i j all d,
          get_or-take n j xs d,
          behind v all (j - i),
          get_or-drop i (j - i - 1) (j - 1) all d,
          get_or-take n (j - 1) xs d,
        )

  pub take-erase_at :
      i < n
      → n ≤ length ys
      → ((j : ℕ)
          → j < n - 1
          → get_or ys j d ≡ (if ltb j i then get_or xs j d else get_or xs (j + 1) d))
      → take (n - 1) ys ≡ erase_at i (take n xs)
  unfolding erase_at
  take-erase_at h k read =
      let all = take n xs in
      let sizes : length (take (n - 1) ys) ≡ length (take i all ++ drop (i + 1) all) = omega (
        arith,
        length-take n xs,
        length-take i all,
        length-drop (i + 1) all,
        length-append (take i all) (drop (i + 1) all),
        length-take (n - 1) ys,
      ) in
      list_ext (take (n - 1) ys) (take i all ++ drop (i + 1) all) d sizes λ j l.
        let inside_ys : j < n - 1 = omega (arith, l, length-take (n - 1) ys) in
        ground (
          arith,
          get_or-take (n - 1) j ys d,
          read j inside_ys,
          get_or-++ (take i all) (drop (i + 1) all) j d,
          length-take i all,
          length-take n xs,
          get_or-take i j all d,
          get_or-take n j xs d,
          get_or-drop (i + 1) (j - i) (j + 1) all d,
          get_or-take n (j + 1) xs d,
        )
