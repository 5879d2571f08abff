-- ===== src/Scheduler/Admission.antt =====
-- What each filter demands of a single node when soft expressions do not count, and that no filter
-- returns a node that fails its demand.
use classicswarm.Prelude.{
  ◌≡◌, refl, sym, subst, ◌⊎◌, inl, inr, Bool, true, false, not, ◌||◌, List, [], ◌∷◌, Option, none,
  some, arith, keep, all, all_mono, In, In-keep, if◌then◌else◌, Bool-cases, Option-cases,
}
use classicswarm.Text.{codes, str_eq, join}
use classicswarm.Externals.{Externals}
use classicswarm.Config.{ContainerConfig, affinities, constraints, whitelists}
use classicswarm.Node.{Node, is_healthy}
use classicswarm.Filter.Expr.{Expr, Parsed, parsed, parse_error, parse_exprs, match_expr}
use classicswarm.Filter.Outcome.{
  Error, exposed_port_unavailable, port_unavailable, unsatisfied_whitelist, dependencies, Outcome,
  ok, err, panic, ◌>>=◌, select, add_candidate, or_error, narrow, parsed_or_error,
}
use classicswarm.Filter.Labels.{
  passed_over, constraint_words, affinity_words, whitelisted, constraint_filter, affinity_filter,
  whitelist_filter,
}
use classicswarm.Filter.Capacity.{
  has_free_slot, fulfils, dependency_filters, health_filter, slots_filter, dependency_filter,
}
use classicswarm.Filter.Port.{
  port_already_in_use, port_already_exposed, bindings, port_filter, never,
}
use classicswarm.Filter.Batch.{
  Filter, health, port, slots, dependency, affinity, constraint, whitelist, run,
}

unfoldable pub is_true : Option Bool → Bool
is_true none = false
is_true (some b) = b

-- Every expression that is not soft holds.
unfoldable pub holds : (Expr → Bool) → Parsed → Bool
unfolding all
holds test (parsed xs) = all (λ e. e.is_soft || test e) xs
holds test (parse_error e) = false

module _ (x : Externals) (config : ContainerConfig) (n : Node) where
  open x use {json, compile, truncate, unspecified_ip}

  unfoldable pub admits : Filter → Bool
  unfolding is_true holds
  admits health = is_healthy n
  admits port =
      if str_eq config.host_config.network_mode (codes "host")
      then all (λ p. not (port_already_exposed n p)) config.exposed_ports
      else all (λ b. not (port_already_in_use unspecified_ip n b))
          (bindings config.host_config.port_bindings)
  admits slots = has_free_slot n
  admits dependency = fulfils truncate config n
  admits affinity =
      holds (λ e. is_true (match_expr compile e (affinity_words e.key n)))
        (parse_exprs (affinities json config))
  admits constraint =
      holds (λ e. is_true (match_expr compile e (constraint_words e.key n)))
        (parse_exprs (constraints json config))
  admits whitelist = holds (λ e. whitelisted e n) (parse_exprs (whitelists json config))

module _ {A : Type 0} where
  add_candidate-In :
      (test : A → Option Bool) (b : Bool) (n : A) (nodes r out : List A) (m : A)
      → test n ≡ some b
      → add_candidate b n (some r) ≡ some out
      → (In m r → In m nodes × (is_true (test m) ≡ true))
      → In m out
      → In m (n ∷ nodes) × (is_true (test m) ≡ true)
  unfolding add_candidate is_true
  add_candidate-In test true n nodes r out m h e ih i =
      let same : n ∷ r ≡ out = cc in split (subst (In m) (sym same) i)
    where
      split : (m ≡ n) ⊎ In m r → In m (n ∷ nodes) × (is_true (test m) ≡ true)
      split (inl p) = (inl p, rw (p, h) refl)
      split (inr j) = let (k, t) = ih j in (inr k, t)
  add_candidate-In test false n nodes r out m h e ih i =
      let same : r ≡ out = cc in let (k, t) = ih (subst (In m) (sym same) i) in (inr k, t)

  pub select-In :
      (test : A → Option Bool) (nodes : List A) {out : List A} (m : A)
      → select test nodes ≡ some out
      → In m out
      → In m nodes × (is_true (test m) ≡ true)
  unfolding select
  select-In test [] {out} m e i = let same : [] ≡ out = cc in absurd (subst (In m) (sym same) i)
  select-In test (n ∷ nodes) {out} m e i = elim (Option-cases (test n)) [
    | inl h ↦ absurd (ground arith)
    | inr (b, h) ↦ elim (Option-cases (select test nodes)) [
      | inl k ↦ absurd (unfold add_candidate in ground arith)
      | inr (r, k) ↦
          add_candidate-In test b n nodes r out m h (rw (h, select, k) at e)
            (select-In test nodes m k) i
    ]
  ]

  or_error-some :
      (e : Error) (o : Option (List A)) {out : List A} → or_error e o ≡ ok out → o ≡ some out
  unfolding or_error
  or_error-some e none h = cc
  or_error-some e (some []) h = cc
  or_error-some e (some (n ∷ ns)) h = cc

  >>=-ok :
      {B : Type 0} (o : Outcome B) (f : B → Outcome A) {a : A}
      → (o >>= f) ≡ ok a
      → (b : B) × (o ≡ ok b) × (f b ≡ ok a)
  >>=-ok (ok b) f h = (b, refl, h)
  >>=-ok (err e) f h = cc
  >>=-ok panic f h = cc

module _ {X A : Type 0} (skip : X → Bool) (test : X → A → Option Bool) (error : X → Error) where
  -- A node that the loop returns was given, and passes the test of every requirement that counts.
  pub narrow-In :
      (xs : List X) (nodes : List A) {out : List A} (m : A)
      → narrow skip test error xs nodes ≡ ok out
      → In m out
      → In m nodes × (all (λ x. skip x || is_true (test x m)) xs ≡ true)
  unfolding narrow all
  narrow-In [] nodes {out} m e i = let same : nodes ≡ out = cc in (subst (In m) (sym same) i, refl)
  narrow-In (x ∷ xs) nodes {out} m e i = elim (Bool-cases (skip x)) [
    | inl h ↦ let (j, t) = narrow-In xs nodes m (rw (h, narrow) at e) i in (j, ground arith)
    | inr h ↦
        let (candidates, p, q) =
          >>=-ok (or_error (error x) (select (test x) nodes))
            (λ candidates. narrow skip test error xs candidates) (rw (h, narrow) at e) in
        let (j, t) = narrow-In xs candidates m q i in
        let (k, u) = select-In (test x) nodes m (or_error-some _ _ p) j in (k, ground arith)
  ]

-- The filters whose requirements are expressions.
module _ (test : Expr → Node → Option Bool) (error : Expr → Error) (soft : Bool) where
  exprs_In :
      (p : Parsed) (nodes : List Node) {out : List Node} (m : Node)
      → (parsed_or_error p >>= λ exprs. narrow (passed_over soft) test error exprs nodes) ≡ ok out
      → In m out
      → In m nodes × (holds (λ e. is_true (test e m)) p ≡ true)
  unfolding parsed_or_error holds passed_over
  exprs_In (parsed xs) nodes m e i =
      let (j, t) = narrow-In (passed_over soft) test error xs nodes m e i in
      (
        j,
        all_mono (λ x. passed_over soft x || is_true (test x m))
            (λ x. x.is_soft || is_true (test x m)) xs (λ x h. ground arith) t,
      )
  exprs_In (parse_error p) nodes m e i = cc

kept_In :
    (p : Node → Bool) (e : Error) (nodes : List Node) {out : List Node} (m : Node)
    → or_error e (some (keep p nodes)) ≡ ok out
    → In m out
    → In m nodes × (p m ≡ true)
kept_In p e nodes {out} m h i =
    let same : keep p nodes ≡ out = let q = or_error-some e (some (keep p nodes)) h in cc in
    In-keep p m nodes (subst (In m) (sym same) i)

module _ (x : Externals) (config : ContainerConfig) (soft : Bool) where
  port_In :
      (nodes : List Node) {out : List Node} (m : Node)
      → port_filter x.unspecified_ip config nodes ≡ ok out
      → In m out
      → In m nodes × (admits x config m port ≡ true)
  unfolding port_filter never is_true admits
  port_In nodes m e i = elim (Bool-cases (str_eq config.host_config.network_mode (codes "host"))) [
    | inl h ↦ rw h (
        narrow-In never (λ port n. some (not (port_already_exposed n port)))
          exposed_port_unavailable config.exposed_ports nodes m (rw h at e) i)
    | inr h ↦ rw h (
        narrow-In never (λ b n. some (not (port_already_in_use x.unspecified_ip n b)))
          (λ b. port_unavailable b.host_port) (bindings config.host_config.port_bindings) nodes m
          (rw h at e) i)
  ]

  -- Every node that a filter returns was given to it, and meets the filter's demand.
  pub run-admits :
      (f : Filter) (nodes : List Node) {out : List Node} (m : Node)
      → run x f config nodes soft ≡ ok out
      → In m out
      → In m nodes × (admits x config m f ≡ true)
  unfolding run admits
  run-admits health nodes m e i = unfold health_filter in kept_In _ _ nodes m e i
  run-admits port nodes m e i = port_In nodes m e i
  run-admits slots nodes m e i = unfold slots_filter in kept_In _ _ nodes m e i
  run-admits dependency [] {out} m e i =
      let same : [] ≡ out = unfold dependency_filter in cc in absurd (subst (In m) (sym same) i)
  run-admits dependency (n ∷ nodes) m e i =
      unfold dependency_filter in
      kept_In (fulfils x.truncate config)
        (dependencies (join (codes " ") (dependency_filters config))) (n ∷ nodes) m e i
  run-admits affinity nodes m e i = unfold affinity_filter in exprs_In _ _ soft _ nodes m e i
  run-admits constraint nodes m e i = unfold constraint_filter in exprs_In _ _ soft _ nodes m e i
  run-admits whitelist nodes m e i =
      unfold whitelist_filter in
      exprs_In (λ e n. some (whitelisted e n)) unsatisfied_whitelist soft _ nodes m e i
