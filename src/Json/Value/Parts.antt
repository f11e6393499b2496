-- ===== src/Json/Value/Parts.antt =====
-- How the parts of `pvt_parse_value` end, and at which depth.
use c_roblib.Base.{
  ℕ, ◌<◌, ◌≡◌, refl, ap, ◌∙◌, List, [], ◌∷◌, arith, Bool, ◌==◌, ltb, sym, Bool-cases, inl, inr,
  tests,
}
use c_roblib.Json.Error.{ErrType, is_error}
use c_roblib.Json.Parser.{Parser, M, Outcome, ◌>>◌, modify}
use c_roblib.Json.Scan.{current_char, advanced, recorded, blame}
use c_roblib.Json.Scan.Moves.{IsReady, Onward, Onward-IsReady, advanced-Moves, current-lt}
use c_roblib.Json.Scan.Ends.{
  Ends, done, failed, Anything, Ends-record, Ends-Onward, Ends-continue, Ends-weaken,
  skip_whitespace-Ends,
}
use c_roblib.Json.Scan.Total.{
  Total, Total-return, Total-error, Total-advance, totality, is_error-≢, not_error,
}
use c_roblib.Json.Text.Total.{parse_string-Total}
use c_roblib.Json.Number.Total.{parse_number-Total}
use c_roblib.Json.Tree.{JsonValue, Elements, Entries}
use c_roblib.Json.Value.{
  behind_comma, parse_literal, max_depth_exceeded, enter, left, nested, missing_type,
  missing_element, trailing_comma, separator, close_array, close_object, parse_key, parse_scalar,
}

parse_literal-Total :
    (literal : JsonValue) (keyword : List ℕ) → Total (parse_literal literal keyword)
unfolding parse_literal
parse_literal-Total literal [] = Total-return
parse_literal-Total literal (k ∷ ks) = record {
  run = λ p r. elim (Bool-cases (current_char p == 0)) [
    | inl e ↦ rw (e, parse_literal) ((Total-error ErrType.unexpected_eof refl).run p r)
    | inr e ↦ elim (Bool-cases (k == current_char p)) [
      | inr d ↦ rw (e, d, parse_literal) ((Total-error ErrType.unexpected_text refl).run p r)
      | inl d ↦ rw (e, d, parse_literal) ((Total-advance (parse_literal-Total literal ks)).run p r)
    ]
  ];
}

pub parse_scalar-Total : (c : ℕ) → Total (parse_scalar c)
unfolding parse_scalar
parse_scalar-Total c =
    search (totality, parse_string-Total, parse_number-Total, parse_literal-Total) depth 12

trailing_comma-Total : (comma_index : ℕ) → Total (trailing_comma {A = Bool} comma_index)
unfolding trailing_comma blame recorded
trailing_comma-Total comma_index = record { run = λ p r. failed (ground arith) (is_error-≢ refl) }

module _ {A : Type 0} where
  -- Where the item starts is noted in `parse_start`.
  Total-mark :
      {k : M A}
      → Total k
      → Total (modify (λ q. record q { parse_start = q.current_byte_index }) >> k)
  Total-mark t = record {
    run = λ p r.
        let o : Onward p (record p { parse_start = p.current_byte_index }) = ground arith in
        Ends-Onward o (t.run _ (Onward-IsReady r o));
  }

pub close_array-Total : (nodes : Elements) → Total (close_array nodes)
unfolding close_array
close_array-Total nodes = search totality depth 9

pub close_object-Total : (nodes : Entries) → Total (close_object nodes)
unfolding close_object
close_object-Total nodes = search totality depth 9

pub parse_key-Total : Total parse_key
unfolding parse_key
parse_key-Total = search (totality, Total-mark, parse_string-Total) depth 20 fits 2000

missing_type-is_error : (e : ErrType) → is_error (missing_type e) ≡ is_error e
missing_type-is_error ErrType.unexpected_text = refl
missing_type-is_error _ = refl

pub missing_element-Ends :
    {p : Parser} {out : Outcome JsonValue × Parser}
    → Ends p Anything out
    → Ends p Anything (missing_element out)
missing_element-Ends (done o _) = done o tt
missing_element-Ends (failed {q = q} o h) =
    failed (ground arith)
      (λ e. h (not_error _ (sym (missing_type-is_error q.error.err_type) ∙ ap is_error e)))

behind_comma-Total : (close flag comma_index : ℕ) → Total (behind_comma close flag comma_index)
unfolding behind_comma
behind_comma-Total close flag comma_index = search (totality, trailing_comma-Total) depth 9

pub separator-Ends :
    {p : Parser} (close flag : ℕ)
    → IsReady p
    → Ends p (λ _ q. p.current_byte_index < q.current_byte_index) (separator close flag p)
unfolding separator
separator-Ends {p} close flag r = Ends-continue _ (skip_whitespace-Ends r) λ _ q o _.
    let ready = Onward-IsReady r o in
    elim (Bool-cases (current_char q == b',')) [
      | inr e ↦ rw e (Ends-record ErrType.missing_comma (is_error-≢ refl) ready)
      | inl e ↦
          let move =
            advanced-Moves 1 ready (omega (arith, current-lt ready (grind (arith, tests)))) in
          rw e (
            Ends-Onward move.onward (
              Ends-weaken
                ((behind_comma-Total close flag q.current_byte_index).run (advanced q 1)
                  (Onward-IsReady ready move.onward))
                (λ _ q' o' _. omega (arith, move.at, o.later, o'.later))))
    ]

pub nested-Ends :
    {p : Parser} (body : M JsonValue)
    → IsReady p
    → (IsReady (enter p) → Ends (enter p) Anything (body (enter p)))
    → Ends p Anything (nested body p)
unfolding nested max_depth_exceeded recorded
nested-Ends {p} body r inner = elim (Bool-cases (ltb p.depth_max (enter p).depth_current)) [
  | inl e ↦ rw e (failed (ground arith) (is_error-≢ refl))
  | inr e ↦ rw e (left-Ends (inner (ground arith)))
]
  where
    left-Ends :
        {out : Outcome JsonValue × Parser}
        → Ends (enter p) Anything out
        → Ends p Anything (left out)
    left-Ends (done o _) = done (ground arith) tt
    left-Ends (failed o h) = failed (ground arith) h
