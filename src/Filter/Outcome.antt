-- ===== src/Filter/Outcome.antt =====
-- What a filter returns, and the loop that all filters over a list of requirements share: the
-- nodes are narrowed by one requirement after the other, and the first requirement that no node
-- meets is an error.
use classicswarm.Prelude.{◌≡◌, refl, Bool, true, false, List, [], ◌∷◌, Option, none, some}
use classicswarm.Text.{Str}
use classicswarm.Filter.Expr.{Expr, ParseError, Parsed, parsed, parse_error}

pub data Error : Type 0 where
  no_healthy_node no_free_slots no_node_available no_resources not_supported : Error
  bad_expression : ParseError → Error
  unsatisfied_affinity unsatisfied_constraint unsatisfied_whitelist : Expr → Error
  port_unavailable exposed_port_unavailable dependencies conditions : Str → Error

-- `panic` is a run-time panic of the Go program.
pub data Outcome {ℓ} (A : Type ℓ) : Type ℓ where
  ok : A → Outcome A
  err : Error → Outcome A
  panic : Outcome A

-- A split on a computed outcome.
pub data Cases {A : Type 0} (o : Outcome A) : Type 0 where
  is_ok : (a : A) → o ≡ ok a → Cases o
  is_err : (e : Error) → o ≡ err e → Cases o
  is_panic : o ≡ panic → Cases o

pub outcome-Cases : {A : Type 0} (o : Outcome A) → Cases o
outcome-Cases (ok a) = is_ok a refl
outcome-Cases (err e) = is_err e refl
outcome-Cases panic = is_panic refl

infixl 5 ◌>>=◌
abbrev pub ◌>>=◌ {ℓ κ} : {A : Type ℓ} {B : Type κ} → Outcome A → (A → Outcome B) → Outcome B
ok a >>= f = f a
err e >>= f = err e
panic >>= f = panic

unfoldable pub parsed_or_error : Parsed → Outcome (List Expr)
parsed_or_error (parsed xs) = ok xs
parsed_or_error (parse_error e) = err (bad_expression e)

module _ {A : Type 0} where
  unfoldable pub add_candidate : Bool → A → Option (List A) → Option (List A)
  add_candidate b n none = none
  add_candidate true n (some ns) = some (n ∷ ns)
  add_candidate false n (some ns) = some ns

  -- The loop over the nodes with a test that may panic.
  unfoldable pub select : (A → Option Bool) → List A → Option (List A)
  unfolding add_candidate
  select test [] = some []
  select test (n ∷ ns) = elim (test n) [ none ↦ none | some b ↦ add_candidate b n (select test ns) ]

  unfoldable pub or_error : Error → Option (List A) → Outcome (List A)
  or_error e none = panic
  or_error e (some []) = err e
  or_error e (some (n ∷ ns)) = ok (n ∷ ns)

module _ {X A : Type 0} (skip : X → Bool) (test : X → A → Option Bool) (error : X → Error) where
  unfoldable pub narrow : List X → List A → Outcome (List A)
  unfolding select or_error
  narrow [] nodes = ok nodes
  narrow (x ∷ xs) nodes = elim (skip x) [
    | true ↦ narrow xs nodes
    | false ↦ or_error (error x) (select (test x) nodes) >>= λ candidates. narrow xs candidates
  ]
