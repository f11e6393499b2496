-- ===== src/Slice/Split.antt =====
-- `slice_split`. The list of nodes that is copied into the array of the result is a list here.
use c_roblib.Base.{
  ℕ, zero, suc, ◌+◌, ◌<◌, ◌≡◌, ◌⊎◌, refl, sym, ◌∙◌, true, false, Option, none, some, List, [], ◌∷◌,
  ◌++◌, arith, ◌==◌, inl, inr, ==_iff, eq-or-ne, append-nil, append_assoc,
}
use c_roblib.Slice.{StringSlice, items}
use c_roblib.Slice.Equal.{IsInside}
use c_roblib.Slice.Chop.{
  chop_by_delimiter, Chopped, only_delimiter, chopped, not_found, chop-Chopped,
}

-- `SLLQueuePush` of a piece before those of the later rounds.
abbrev pushed : StringSlice → Option (List StringSlice) → Option (List StringSlice)
pushed piece none = none
pushed piece (some pieces) = some (piece ∷ pieces)

-- `while (s.length > 0)` with fuel; `none` means that the fuel ran out.
split_loop : ℕ → StringSlice → StringSlice → Option (List StringSlice)
unfolding chop_by_delimiter
split_loop zero s delimiter = none
split_loop (suc fuel) s delimiter = elim (s.length == 0) [
  | true ↦ some []
  | false ↦
      let (piece, rest) = chop_by_delimiter s delimiter in
      pushed piece (split_loop fuel rest delimiter)
]

-- Every round chops a byte off or ends the loop, so the length and one more is enough.
unfoldable pub split : StringSlice → StringSlice → Option (List StringSlice)
unfolding split_loop
split s delimiter = split_loop (s.length + 1) s delimiter

-- The pieces with a delimiter between any two of them, behind a first one.
unfoldable pub joined_behind : List ℕ → List StringSlice → List ℕ
joined_behind d [] = []
joined_behind d (piece ∷ pieces) = d ++ (items piece ++ joined_behind d pieces)

unfoldable pub joined : List ℕ → List StringSlice → List ℕ
unfolding joined_behind
joined d [] = []
joined d (piece ∷ pieces) = items piece ++ joined_behind d pieces

-- The pieces of a slice, but for one delimiter that may be lost at the end.
pub record Split (s d : StringSlice) (out : Option (List StringSlice)) : Type 0 where
  pub pieces : List StringSlice
  pub ends : out ≡ some pieces
  pub some_pieces :
      (s.length ≡ 0) ⊎ (joined_behind (items d) pieces ≡ items d ++ joined (items d) pieces)
  pub joins : (joined (items d) pieces ≡ items s) ⊎ (joined (items d) pieces ++ items d ≡ items s)

behind-cons :
    (d : List ℕ) (p : StringSlice) (ps : List StringSlice)
    → joined_behind d (p ∷ ps) ≡ d ++ joined d (p ∷ ps)
unfolding joined joined_behind
behind-cons d p ps = refl

module _ (s d : StringSlice) (hs : IsInside s) (full : 0 < s.length) where
  -- The last piece.
  last_piece :
      (piece : StringSlice)
      → (items piece ≡ items s) ⊎ ((piece.length ≡ 0) × (items s ≡ items d))
      → Split s d (pushed piece (some []))
  unfolding joined joined_behind
  last_piece piece joins = record {
    pieces = piece ∷ [];
    ends = refl;
    some_pieces = inr refl;
    joins = elim joins [
      | inl same ↦ inl (append-nil (items piece) ∙ same)
      | inr (empty, same) ↦ inr (rw (empty, same) refl)
    ];
  }

  -- A piece before others.
  next_piece :
      (piece rest : StringSlice) (out : Option (List StringSlice))
      → items s ≡ items piece ++ (items d ++ items rest)
      → 0 < rest.length
      → Split rest d out
      → Split s d (pushed piece out)
  unfolding joined joined_behind
  next_piece piece rest out e some_rest more = rw more.ends (record {
    pieces = piece ∷ more.pieces;
    ends = refl;
    some_pieces = inr refl;
    joins = elim more.some_pieces [
      | inl empty ↦ absurd (omega arith)
      | inr behind ↦ elim more.joins [
        | inl same ↦ inl (rw (behind, same) (sym e))
        | inr same ↦ inr (rw behind (simp append_assoc (rw same (sym e))))
      ]
    ];
  })

split_empty :
    (fuel : ℕ) (s d : StringSlice) → 0 < fuel → s.length ≡ 0 → split_loop fuel s d ≡ some []
unfolding split_loop
split_empty zero s d h e = absurd (omega arith)
split_empty (suc fuel) s d h e = rw ((==_iff s.length 0).1 e, split_loop) refl

one_piece :
    (fuel : ℕ) (s d piece rest : StringSlice)
    → IsInside s
    → 0 < s.length
    → s.length < suc fuel
    → Chopped s d (piece, rest)
    → (IsInside rest → rest.length < fuel → Split rest d (split_loop fuel rest d))
    → Split s d (pushed piece (split_loop fuel rest d))
one_piece fuel s d piece rest hs full h (only_delimiter same no_piece no_rest) more =
    rw (split_empty fuel rest d (omega arith) no_rest)
      (last_piece s d hs full piece (inr (no_piece, same)))
one_piece fuel s d piece rest hs full h (chopped e some_rest inside shorter first) more =
    next_piece s d hs full piece rest (split_loop fuel rest d) e some_rest
      (more inside (omega arith))
one_piece fuel s d piece rest hs full h (not_found no_rest differs nowhere) more =
    rw (split_empty fuel rest d (omega arith) no_rest) (last_piece s d hs full s (inl refl))

split_loop-Split :
    (fuel : ℕ) (s d : StringSlice)
    → IsInside s
    → IsInside d
    → s.length < fuel
    → Split s d (split_loop fuel s d)
unfolding split_loop joined
split_loop-Split zero s d hs hd h = absurd (omega arith)
split_loop-Split (suc fuel) s d hs hd h = elim (eq-or-ne s.length 0) [
  | inl e ↦
      rw (split_empty (suc fuel) s d (omega arith) e)
        (record { pieces = []; ends = refl; some_pieces = inl e; joins = inl (rw e refl) })
  | inr full ↦
      let (piece, rest) = chop_by_delimiter s d in
      let running : (s.length == 0) ≡ false = ground arith in
      rw (running, split_loop)
        (one_piece fuel s d piece rest hs (omega arith) h (chop-Chopped s d hs hd)
          (λ inside less. split_loop-Split fuel rest d inside hd less))
]

-- `slice_split` ends, and the pieces with a delimiter between any two of them make the slice again,
-- but for one delimiter at its end that may be lost.
pub split-Split : (s d : StringSlice) → IsInside s → IsInside d → Split s d (split s d)
unfolding split
split-Split s d hs hd = split_loop-Split (s.length + 1) s d hs hd (omega arith)
