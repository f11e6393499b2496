-- ===== src/Json/Value/Limits.antt =====
-- The limit on the nesting of arrays and objects.
use c_roblib.Base.{◌+◌, ◌-◌, ap, sym, ◌^◌, ◌<◌, ◌≤◌, ◌≡◌, refl, arith, Bool-cases, inl, inr, ltb}
use c_roblib.Json.Error.{ErrType}
use c_roblib.Json.Parser.{Parser, Outcome, M, null}
use c_roblib.Json.Scan.{recorded}
use c_roblib.Json.Tree.{JsonValue}
use c_roblib.Json.Value.{enter, leave, nested, max_depth_exceeded}

-- How an array or object ends, below the limit of the nesting and at it.
pub data Nested (body : M JsonValue) (p : Parser) : Outcome JsonValue × Parser → Type 0 where
  below :
      {out : Outcome JsonValue} {q : Parser}
      → p.depth_current < p.depth_max
      → body (record p { depth_current = p.depth_current + 1 }) ≡ (out, q)
      → Nested body p (out, leave q)
  at_limit :
      {q : Parser}
      → p.depth_max ≤ p.depth_current
      → q.error.err_type ≡ ErrType.max_nested_depth_exceeded
      → q.depth_current ≡ p.depth_current
      → q.current_byte_index ≡ p.current_byte_index
      → Nested body p (null, q)

-- Where the nesting is below the greatest `uint32_t`, an array or object is read, one level deeper
-- and with one level counted back behind it, exactly below the limit of the nesting. At the limit it is refused before any of it is read,
-- whatever its body would do: with `JSON_ERR_MAX_NESTED_DEPTH_EXCEEDED`, at the same place, and at
-- the depth at which it was met.
pub nested_lem :
    (body : M JsonValue) (p : Parser) → p.depth_current < 2 ^ 32 - 1 → Nested body p (nested body p)
unfolding nested max_depth_exceeded recorded
nested_lem body p h = elim (Bool-cases (ltb p.depth_max (enter p).depth_current)) [
  | inl e ↦ rw e (at_limit (ground arith) refl (omega arith) refl)
  | inr e ↦
      let deeper : enter p ≡ record p { depth_current = p.depth_current + 1 } =
        ap (λ d. record p { depth_current = d }) (omega arith) in
      rw e (below (ground arith) (ap body (sym deeper)))
]
