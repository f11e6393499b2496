-- ===== src/Json/Scan/Ends.antt =====
-- How a parse function ends: with a value and a fact about it, or with an error record; never for
-- want of fuel. The rules follow the monad's operations.
use c_roblib.Base.{
  ℕ, zero, suc, ◌+◌, ◌<◌, ◌≡◌, ◌≢◌, refl, ap, ◌∙◌, sym, Bool, true, false, arith, if◌then◌else◌,
  Bool-cases, inl, inr,
}
use c_roblib.Json.Error.{ErrType}
use c_roblib.Json.Parser.{Parser, Outcome, ok, null, M, continue}
use c_roblib.Json.Scan.{current_char, recorded, skip_loop, skip_whitespace}
use c_roblib.Json.Scan.Moves.{
  IsReady, Onward, Onward-refl, Onward-trans, Onward-IsReady, recorded-Onward, err_type-recorded,
  skip_one-Moves, current-lt,
}

pub data Ends {ℓ κ} {A : Type ℓ} (p : Parser) (Q : A → Parser → Type κ)
    : Outcome A × Parser → Type (ℓ ⊔ κ) where
  done : {a : A} {q : Parser} → Onward p q → Q a q → Ends p Q (ok a, q)
  failed : {q : Parser} → Onward p q → q.error.err_type ≢ ErrType.none → Ends p Q (null, q)

-- No more is said of the value.
abbrev pub Anything {ℓ} : {A : Type ℓ} → A → Parser → Type 0
Anything a q = Unit

module _ {ℓ κ} {A : Type ℓ} {Q : A → Parser → Type κ} where
  pub Ends-Onward :
      {p q : Parser} {out : Outcome A × Parser} → Onward p q → Ends q Q out → Ends p Q out
  Ends-Onward o (done f h) = done (Onward-trans o f) h
  Ends-Onward o (failed f h) = failed (Onward-trans o f) h

  pub Ends-record :
      {p : Parser} (e : ErrType) → e ≢ ErrType.none → IsReady p → Ends p Q (null, recorded e p)
  Ends-record {p} e h r =
      failed (recorded-Onward e r) (λ same. h (sym (err_type-recorded p e) ∙ same))

  pub Ends-cases :
      (b : Bool) (m k : M A) {p : Parser}
      → (b ≡ true → Ends p Q (m p))
      → (b ≡ false → Ends p Q (k p))
      → Ends p Q ((if b then m else k) p)
  Ends-cases true m k f g = f refl
  Ends-cases false m k f g = g refl

  pub Ends-if :
      (b : Bool) (m k : M A) {p : Parser}
      → Ends p Q (m p)
      → Ends p Q (k p)
      → Ends p Q ((if b then m else k) p)
  Ends-if true m k f g = f
  Ends-if false m k f g = g

module _ {ℓ κ ι μ} {A : Type ℓ} {B : Type κ} {Q : A → Parser → Type ι}
    {R : B → Parser → Type μ} where
  pub Ends-continue :
      {p : Parser} {out : Outcome A × Parser} (f : A → M B)
      → Ends p Q out
      → ((a : A) (q : Parser) → Onward p q → Q a q → Ends q R (f a q))
      → Ends p R (continue out f)
  Ends-continue f (done {a = a} {q = q} o h) k = Ends-Onward o (k a q o h)
  Ends-continue f (failed o h) k = failed o h

  pub Ends-map :
      {p : Parser} {out : Outcome A × Parser} (f : A → B)
      → Ends p Q out
      → ((a : A) (q : Parser) → Onward p q → Q a q → R (f a) q)
      → Ends p R (continue out (λ a q. (ok (f a), q)))
  Ends-map f (done {a = a} {q = q} o h) k = done o (k a q o h)
  Ends-map f (failed o h) k = failed o h

module _ {ℓ κ ι} {A : Type ℓ} {Q : A → Parser → Type κ} {R : A → Parser → Type ι} where
  pub Ends-weaken :
      {p : Parser} {out : Outcome A × Parser}
      → Ends p Q out
      → ((a : A) (q : Parser) → Onward p q → Q a q → R a q)
      → Ends p R out
  Ends-weaken (done {a = a} {q = q} o h) k = done o (k a q o h)
  Ends-weaken (failed o h) k = failed o h

-- What `pvt_skip_whitespace` leaves.
pub record Skipped (p q : Parser) : Type 0 where
  pub stopped : q.ws_table (current_char q) ≡ false
  pub error : q.error ≡ p.error

-- White space ends before the fuel does.
skip_loop-Ends :
    (fuel : ℕ) {p : Parser}
    → IsReady p
    → p.length_bytes < p.current_byte_index + fuel
    → Ends p (λ _ q. Skipped p q) (skip_loop fuel p)
unfolding skip_loop
skip_loop-Ends zero {p} r h = absurd (omega (arith, r.within))
skip_loop-Ends (suc fuel) {p} r h = elim (Bool-cases (p.ws_table (current_char p))) [
  | inr text_here ↦
      rw (text_here, skip_loop)
        (done (Onward-refl r) (record { stopped = text_here; error = refl }))
  | inl space_here ↦
      let inside = current-lt r (λ e. cc (space_here, r.stops, ap p.ws_table e)) in
      let move = skip_one-Moves r inside in
      let ready = Onward-IsReady r move.onward in
      rw (space_here, skip_loop)
        (Ends-Onward move.onward (
          Ends-weaken (skip_loop-Ends fuel ready (omega (arith, move.at, move.onward.length_bytes)))
            λ _ q o s. record { stopped = s.stopped; error = s.error ∙ move.error }))
]

-- `pvt_skip_whitespace` ends on a byte that is no white space, inside the text or on its
-- terminator, with no error.
pub skip_whitespace-Ends :
    {p : Parser} → IsReady p → Ends p (λ _ q. Skipped p q) (skip_whitespace p)
unfolding skip_whitespace
skip_whitespace-Ends {p} r = skip_loop-Ends (suc p.length_bytes) r (omega arith)
