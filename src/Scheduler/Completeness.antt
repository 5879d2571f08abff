-- ===== src/Scheduler/Completeness.antt =====
-- A node that can take the container is not overlooked: the filters keep it, and the pass without
-- soft expressions selects nodes.
use classicswarm.Prelude.{
  ℕ, ◌≡◌, ◌≢◌, refl, subst, inl, inr, Bool, true, false, not, ◌||◌, List, [], ◌∷◌, Option, some,
  arith, keep, all, In, In-keep_of, Bool-cases, Option-cases,
}
use classicswarm.Text.{Str, codes, str_eq, join}
use classicswarm.Externals.{Externals}
use classicswarm.Config.{ContainerConfig, affinities, constraints, whitelists}
use classicswarm.Node.{Node, is_healthy}
use classicswarm.Filter.Expr.{
  Expr, Parsed, parsed, parse_error, parse_exprs, pattern_of, any_match, apply_operator, match_expr,
}
use classicswarm.Filter.Outcome.{
  Error, no_healthy_node, no_free_slots, exposed_port_unavailable, port_unavailable,
  unsatisfied_whitelist, unsatisfied_affinity, unsatisfied_constraint, dependencies, Outcome, ok,
  panic, ◌>>=◌, select, add_candidate, or_error, narrow, parsed_or_error,
}
use classicswarm.Filter.Labels.{
  passed_over, constraint_words, affinity_words, whitelisted, constraint_filter, affinity_filter,
  whitelist_filter,
}
use classicswarm.Filter.Capacity.{
  has_free_slot, fulfils, dependency_filters, health_filter, slots_filter, dependency_filter,
}
use classicswarm.Filter.Port.{
  port_already_in_use, port_already_exposed, bindings, filter_host, filter_bridge, port_filter,
  never,
}
use classicswarm.Filter.Batch.{
  Filter, health, port, slots, dependency, affinity, constraint, whitelist, run, apply_from,
}
use classicswarm.Filter.Outcome.{is_ok, is_err, is_panic, outcome-Cases}
use classicswarm.Filter.Batch.{apply_filters}
use classicswarm.Strategy.Sorting.{Sorter}
use classicswarm.Strategy.Weight.{accepted}
use classicswarm.Strategy.Ranking.{Ranked, ranked, none_accepted, rank_and_sort-Ranked}
use classicswarm.Strategy.Random.{IsBounded, rank_and_sort_random}
use classicswarm.Strategy.{WeightedNode, PlacementStrategy, spread, binpack, random, rank_and_sort}
use classicswarm.Scheduler.{Scheduler, rank_accepted, select_pass, select_nodes_for_container}
use classicswarm.Scheduler.Admission.{is_true, holds, admits}

-- The outcome is a list with this element.
abbrev pub Keeps : {A : Type 0} → A → Outcome (List A) → Type 0
Keeps {A} n o = (out : List A) × (o ≡ ok out) × In n out

module _ {A : Type 0} where
  -- A test that never panics keeps what it holds of.
  select-keep :
      (test : A → Option Bool)
      → ((m : A) → (b : Bool) × (test m ≡ some b))
      → (nodes : List A) → select test nodes ≡ some (keep (λ m. is_true (test m)) nodes)
  unfolding select keep is_true add_candidate
  select-keep test total [] = refl
  select-keep test total (m ∷ nodes) =
      let (b, e) = total m in ground (arith, e, select-keep test total nodes)

  select_complete :
      (test : A → Option Bool) (nodes : List A) (n : A)
      → ((m : A) → (b : Bool) × (test m ≡ some b))
      → In n nodes
      → is_true (test n) ≡ true
      → (out : List A) × (select test nodes ≡ some out) × In n out
  select_complete test nodes n total i h =
      (_, select-keep test total nodes, In-keep_of (λ m. is_true (test m)) n nodes i h)

  or_error_complete : (e : Error) (out : List A) (n : A) → In n out → or_error e (some out) ≡ ok out
  unfolding or_error
  or_error_complete e [] n i = elim i [ ]
  or_error_complete e (m ∷ out) n i = refl

module _ {X A : Type 0} (skip : X → Bool) (test : X → A → Option Bool) (error : X → Error)
    (uniform : (x : X) (m n : A)
      → is_true (test x n) ≡ true
      → (b : Bool) × (test x m ≡ some b)) where
  narrow_complete :
      (xs : List X) (nodes : List A) (n : A)
      → In n nodes
      → all (λ x. skip x || is_true (test x n)) xs ≡ true
      → Keeps n (narrow skip test error xs nodes)
  unfolding narrow all
  narrow_complete [] nodes n i h = (nodes, refl, i)
  narrow_complete (x ∷ xs) nodes n i h = elim (Bool-cases (skip x)) [
    | inl e ↦ rw (e, narrow) (narrow_complete xs nodes n i (ground arith))
    | inr e ↦
        let met : is_true (test x n) ≡ true = ground arith in
        let (kept, s, j) = select_complete (test x) nodes n (λ m. uniform x m n met) i met in
        rw (e, narrow, s, or_error_complete (error x) kept n j)
          (narrow_complete xs kept n j (ground arith))
  ]

-- Whether an expression panics does not depend on what it is matched against.
match_uniform :
    (compile : Str → Option (Str → Bool)) (e : Expr) (vs ws : List Str)
    → is_true (match_expr compile e ws) ≡ true
    → (b : Bool) × (match_expr compile e vs ≡ some b)
unfolding match_expr is_true
match_uniform compile e vs ws h = elim (Option-cases (pattern_of e.value)) [
  | inl p ↦ absurd (ground arith)
  | inr (pattern, p) ↦ elim (Option-cases (compile pattern)) [
    | inl q ↦ (apply_operator e.operator false, rw (p, match_expr, q) refl)
    | inr (m, q) ↦ (apply_operator e.operator (any_match m vs), rw (p, match_expr, q) refl)
  ]
]

module _ (test : Expr → Node → Option Bool) (error : Expr → Error)
    (uniform : (x : Expr) (m n : Node)
      → is_true (test x n) ≡ true
      → (b : Bool) × (test x m ≡ some b)) where
  exprs_complete :
      (p : Parsed) (nodes : List Node) (n : Node)
      → In n nodes
      → holds (λ e. is_true (test e n)) p ≡ true
      → Keeps n (parsed_or_error p >>= λ exprs. narrow (passed_over false) test error exprs nodes)
  unfolding parsed_or_error holds passed_over
  exprs_complete (parsed xs) nodes n i h =
      narrow_complete (passed_over false) test error uniform xs nodes n i h
  exprs_complete (parse_error e) nodes n i h = cc

kept_complete :
    (p : Node → Bool) (e : Error) (nodes : List Node) (n : Node)
    → In n nodes
    → p n ≡ true
    → Keeps n (or_error e (some (keep p nodes)))
kept_complete p e nodes n i h =
    let j = In-keep_of p n nodes i h in (keep p nodes, or_error_complete e (keep p nodes) n j, j)

module _ (x : Externals) (config : ContainerConfig) where
  port_complete :
      (nodes : List Node) (n : Node)
      → In n nodes
      → admits x config n port ≡ true
      → Keeps n (port_filter x.unspecified_ip config nodes)
  unfolding port_filter filter_host filter_bridge admits never is_true
  port_complete nodes n i h =
      elim (Bool-cases (str_eq config.host_config.network_mode (codes "host"))) [
        | inl e ↦ rw e (
            narrow_complete never (λ port n. some (not (port_already_exposed n port)))
              exposed_port_unavailable (λ p m n t. (_, refl)) config.exposed_ports nodes n i
              (rw e at h))
        | inr e ↦ rw e (
            narrow_complete never (λ b n. some (not (port_already_in_use x.unspecified_ip n b)))
              (λ b. port_unavailable b.host_port) (λ p m n t. (_, refl))
              (bindings config.host_config.port_bindings) nodes n i (rw e at h))
      ]

  -- Without soft expressions a filter keeps every given node that meets its demand, and so it
  -- neither fails nor panics if there is one.
  pub run_complete :
      (f : Filter) (nodes : List Node) (n : Node)
      → In n nodes
      → admits x config n f ≡ true
      → Keeps n (run x f config nodes false)
  unfolding run admits
  run_complete health nodes n i h =
      unfold health_filter in kept_complete is_healthy no_healthy_node nodes n i h
  run_complete port nodes n i h = port_complete nodes n i h
  run_complete slots nodes n i h =
      unfold slots_filter in kept_complete has_free_slot no_free_slots nodes n i h
  run_complete dependency [] n i h = elim i [ ]
  run_complete dependency (m ∷ nodes) n i h =
      unfold dependency_filter in
      kept_complete (fulfils x.truncate config)
        (dependencies (join (codes " ") (dependency_filters config))) (m ∷ nodes) n i h
  run_complete affinity nodes n i h =
      unfold affinity_filter in
      exprs_complete (λ e n. match_expr x.compile e (affinity_words e.key n)) unsatisfied_affinity
        (λ e m n t. match_uniform x.compile e _ _ t) (parse_exprs (affinities x.json config)) nodes
        n i h
  run_complete constraint nodes n i h =
      unfold constraint_filter in
      exprs_complete (λ e n. match_expr x.compile e (constraint_words e.key n))
        unsatisfied_constraint (λ e m n t. match_uniform x.compile e _ _ t)
        (parse_exprs (constraints x.json config)) nodes n i h
  run_complete whitelist nodes n i h =
      unfold whitelist_filter in
      exprs_complete (λ e n. some (whitelisted e n)) unsatisfied_whitelist (λ e m n t. (_, refl))
        (parse_exprs (whitelists x.json config)) nodes n i h

  pub apply_from_complete :
      (every fs : List Filter) (nodes : List Node) (n : Node)
      → In n nodes
      → all (admits x config n) fs ≡ true
      → Keeps n (apply_from x every config false fs nodes)
  unfolding apply_from all
  apply_from_complete every [] nodes n i h = (nodes, refl, i)
  apply_from_complete every (f ∷ fs) nodes n i h =
      let (kept, e, j) = run_complete f nodes n i (ground arith) in
      rw (e, apply_from) (apply_from_complete every fs kept n j (ground arith))

ranking_some :
    {config : ContainerConfig} {nodes : List Node} {o : Outcome (List Node)}
    → keep (accepted config) nodes ≢ []
    → Ranked config nodes o
    → (out : List Node) × (o ≡ ok out)
ranking_some ne (ranked out some_left p) = (out, refl)
ranking_some ne (none_accepted e) = absurd (ne e)

module _ (x : Externals) (sorter : Sorter WeightedNode) (intn : ℕ → ℕ) (bounded : IsBounded intn)
    (s : Scheduler) (config : ContainerConfig) where
  rank_complete :
      (strategy : PlacementStrategy) (nodes : List Node) (n : Node)
      → In n nodes
      → accepted config n ≡ true
      → (out : List Node) × (rank_and_sort sorter intn strategy config nodes ≡ ok out)
  rank_complete spread nodes n i h =
      ranking_some (λ e. absurd (subst (In n) e (In-keep_of (accepted config) n nodes i h)))
        (rank_and_sort-Ranked sorter intn spread config nodes (λ q. cc))
  rank_complete binpack nodes n i h =
      ranking_some (λ e. absurd (subst (In n) e (In-keep_of (accepted config) n nodes i h)))
        (rank_and_sort-Ranked sorter intn binpack config nodes (λ q. cc))
  rank_complete random nodes n i h =
      let (out, e, p) = rank_and_sort_random sorter intn config nodes bounded in (out, e)

  left_ranked :
      (left : List Node) (n : Node)
      → In n left
      → accepted config n ≡ true
      → (out : List Node) × (rank_accepted x sorter intn s config left ≡ ok out)
  unfolding rank_accepted
  left_ranked [] n i a = elim i [ ]
  left_ranked (m ∷ left) n i a = rank_complete s.strategy (m ∷ left) n i a

  hard_pass :
      (nodes : List Node) (n : Node)
      → In n nodes
      → all (admits x config n) s.filters ≡ true
      → accepted config n ≡ true
      → (out : List Node) × (select_pass x sorter intn s nodes config false ≡ ok out)
  unfolding select_pass apply_filters
  hard_pass nodes n i h a =
      let (kept, e, j) = apply_from_complete x config s.filters s.filters nodes n i h in
      rw (e, select_pass) (left_ranked kept n j a)

  -- If a node was offered, meets the demand of every filter that is not soft and is accepted by the
  -- weighing, and the pass with soft expressions does not panic, then the scheduler selects nodes,
  -- whatever the other nodes are. This holds of every strategy, for a source of random numbers that
  -- keeps to its bound.
  pub select_nodes_complete :
      (nodes : List Node) (n : Node)
      → In n nodes
      → all (admits x config n) s.filters ≡ true
      → accepted config n ≡ true
      → (select_pass x sorter intn s nodes config true ≢ panic)
      → (out : List Node) × (select_nodes_for_container x sorter intn s nodes config ≡ ok out)
  unfolding select_nodes_for_container
  select_nodes_complete nodes n i h a np =
      elim (outcome-Cases (select_pass x sorter intn s nodes config true)) [
        | is_ok out e ↦ (out, rw (e, select_nodes_for_container) refl)
        | is_err r e ↦ rw (e, select_nodes_for_container) (hard_pass nodes n i h a)
        | is_panic e ↦ absurd (np e)
      ]
