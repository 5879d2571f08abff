-- ===== src/Cluster/Attempts.antt =====
-- How often CreateContainer asks an engine.
use classicswarm.Prelude.{
  ℕ, zero, suc, ◌+◌, ◌-◌, ◌≤◌, ◌≡◌, refl, ◌∙◌, Bool, true, false, not, ◌&&◌, List, [], ◌++◌, ◌∷◌,
  arith, leb, is_empty, if◌then◌else◌, inl, inr, Bool-cases, Option-cases,
}
use classicswarm.Text.{Str, codes}
use classicswarm.Config.{ContainerConfig, have_node_constraint, swarm_id, add_constraint}
use classicswarm.Externals.{Externals}
use classicswarm.Filter.Outcome.{Outcome, ok, err, panic}
use classicswarm.Strategy.Sorting.{Sorter}
use classicswarm.Strategy.{WeightedNode}
use classicswarm.Assoc.{lookup}
use classicswarm.Node.{Node}
use classicswarm.Engine.{Response}
use classicswarm.Cluster.{Cluster, or_else, image, check_name_uniqueness}
use classicswarm.Cluster.Creation.{
  Placement, placed, name_conflict, engine_gone, crash, undrawn, unplaceable, enter, choose, place,
  finish, generate_unique_id,
}
use classicswarm.Cluster.Errors.{Failure, text_of}
use classicswarm.Cluster.Creating.{
  Attempt, Run, Result, done, failure, crashed, no_draw, Patterns, is_missing, ask_engine,
  after_place, create_once, retry, with_image, then_retry, after_mismatch, recover, with_os_type,
  create_container,
}

abbrev pub IsFailure : Result → Type 0
IsFailure (failure f) = Unit
IsFailure (done k) = ⊥
IsFailure crashed = ⊥
IsFailure no_draw = ⊥

-- How many attempts CreateContainer makes after n others, of a cluster that allows k retries.
pub record Attempted (n k : ℕ) (s : Run × Result) : Type 0 where
  pub most : s.0.attempts ≤ n + 1 + (if leb 2 k then k else 2)
  pub least : IsFailure s.1 → n + 1 + k ≤ s.0.attempts

enter-retry :
    (id name : Str) (config : ContainerConfig) (o : Outcome (List Node)) (c : Cluster)
    → (enter id name config o c).0.create_retry ≡ c.create_retry
unfolding enter
enter-retry id name config (err e) c = refl
enter-retry id name config panic c = refl
enter-retry id name config (ok []) c = refl
enter-retry id name config (ok (n ∷ ns)) c = elim (Option-cases (lookup n.id c.engines)) [
  | inl e ↦ rw (e, enter) refl
  | inr (g, e) ↦ rw (e, enter) refl
]

module _ (x : Externals) (sorter : Sorter WeightedNode) (intn : ℕ → ℕ) (name : Str)
    (answers : ℕ → Attempt) where
  place-retry :
      (affine : Bool) (draws : List Str) (config : ContainerConfig) (c : Cluster)
      → (place x sorter intn affine draws name config c).0.0.create_retry ≡ c.create_retry
  unfolding place choose
  place-retry affine draws config c = elim (Bool-cases (not (check_name_uniqueness name c))) [
    | inl e ↦ rw e refl
    | inr e ↦ elim (Bool-cases (is_empty (swarm_id config))) [
      | inr f ↦ rw (e, f) (enter-retry _ _ _ _ c)
      | inl f ↦ elim (Option-cases (generate_unique_id x draws c)) [
        | inl g ↦ rw (e, f, g) refl
        | inr (id, g) ↦ rw (e, f, g) (enter-retry _ _ _ _ c)
      ]
    ]
  ]

  after_place-retry :
      (p : Placement) (a : Attempt) (c : Cluster)
      → (after_place x sorter intn name answers p a c).0.create_retry ≡ c.create_retry
  unfolding after_place ask_engine finish
  after_place-retry (placed id key e) a c = refl
  after_place-retry name_conflict a c = refl
  after_place-retry engine_gone a c = refl
  after_place-retry (unplaceable e) a c = refl
  after_place-retry crash a c = refl
  after_place-retry undrawn a c = refl

  create_once-retry :
      (affine : Bool) (r : Run)
      → (create_once x sorter intn name answers affine r).0.cluster.create_retry
        ≡ r.cluster.create_retry
  unfolding create_once
  create_once-retry affine r =
      after_place-retry _ _ _ ∙ place-retry affine (answers r.attempts).draws r.config r.cluster

  create_once-attempts :
      (affine : Bool) (r : Run)
      → (create_once x sorter intn name answers affine r).0.attempts ≡ suc r.attempts
  unfolding create_once
  create_once-attempts affine r = refl

  -- What the loop adds to n attempts.
  record Retried (n left : ℕ) (s : Run × Result) : Type 0 where
    most : s.0.attempts ≤ n + left
    least : IsFailure s.1 → n + left ≤ s.0.attempts

  retry-Retried :
      (left : ℕ) (r : Run) (out : Result)
      → Retried r.attempts left (retry x sorter intn name answers left r out)
  unfolding retry
  retry-Retried zero r out = record { most = omega arith; least = λ h. omega arith }
  retry-Retried (suc left) r (done k) = record { most = omega arith; least = λ h. absurd h }
  retry-Retried (suc left) r crashed = record { most = omega arith; least = λ h. absurd h }
  retry-Retried (suc left) r no_draw = record { most = omega arith; least = λ h. absurd h }
  retry-Retried (suc left) r (failure f) =
      let (s, out) = create_once x sorter intn name answers false r in
      let h = retry-Retried left s out in
      let a = create_once-attempts false r in
      let m = h.most in record { most = omega arith; least = λ g. let l = h.least g in omega arith }

  -- n attempts and one more than `retries` were made, of a cluster that allows k retries.
  record Tally (n k : ℕ) (t : (Run × Result) × ℕ) : Type 0 where
    made : t.0.0.attempts ≡ n + 1 + t.1
    few : t.1 ≤ 2
    allowed : t.0.0.cluster.create_retry ≡ k

  image-Tally :
      (n k : ℕ) (p : Patterns) (retries : ℕ) (r : Run) (f : Failure)
      → r.attempts ≡ n + 1 + retries
      → retries ≤ 1
      → r.cluster.create_retry ≡ k
      → Tally n k (with_image x sorter intn name answers p retries r f)
  unfolding with_image
  image-Tally n k p retries r f made few allowed =
      elim (Bool-cases (is_missing p f && not (have_node_constraint x.json r.config))) [
        | inr e ↦ rw e (record { made = made; few = omega arith; allowed = allowed })
        | inl e ↦ elim (Option-cases (image r.config.image r.cluster)) [
          | inl g ↦ rw (e, g) (record { made = made; few = omega arith; allowed = allowed })
          | inr (i, g) ↦
              let a = create_once-attempts true r in
              rw (e, g)
                (record {
                  made = omega arith;
                  few = omega arith;
                  allowed = create_once-retry true r ∙ allowed;
                })
        ]
      ]

  then-Attempted :
      (n k : ℕ) (t : (Run × Result) × ℕ)
      → Tally n k t
      → Attempted n k (then_retry x sorter intn name answers t)
  unfolding then_retry
  then-Attempted n k ((r, out), retries) t =
      let h = retry-Retried (r.cluster.create_retry - retries) r out in
      let made = t.made in
      let few = t.few in
      let allowed = t.allowed in
      let m = h.most in
      record { most = ground arith; least = λ g. let l = h.least g in omega arith }

  mismatch-Attempted :
      (n k : ℕ) (p : Patterns) (t : Run × Result)
      → t.0.attempts ≡ n + 2
      → t.0.cluster.create_retry ≡ k
      → Attempted n k (after_mismatch x sorter intn name answers p t)
  unfolding after_mismatch
  mismatch-Attempted n k p (r, done c) made allowed = record {
    most = ground arith;
    least = λ h. absurd h;
  }
  mismatch-Attempted n k p (r, crashed) made allowed = record {
    most = ground arith;
    least = λ h. absurd h;
  }
  mismatch-Attempted n k p (r, no_draw) made allowed = record {
    most = ground arith;
    least = λ h. absurd h;
  }
  mismatch-Attempted n k p (r, failure f) made allowed =
      then-Attempted n k _ (image-Tally n k p 1 r f (omega arith) (omega arith) allowed)

  recover-Attempted :
      (n k : ℕ) (p : Patterns) (t : Run × Result)
      → t.0.attempts ≡ n + 1
      → t.0.cluster.create_retry ≡ k
      → Attempted n k (recover x sorter intn name answers p t)
  unfolding recover
  recover-Attempted n k p (r, done c) made allowed = record {
    most = ground arith;
    least = λ h. absurd h;
  }
  recover-Attempted n k p (r, crashed) made allowed = record {
    most = ground arith;
    least = λ h. absurd h;
  }
  recover-Attempted n k p (r, no_draw) made allowed = record {
    most = ground arith;
    least = λ h. absurd h;
  }
  recover-Attempted n k p (r, failure f) made allowed =
      elim (Bool-cases (is_empty (p.image_os (text_of f)))) [
        | inl e ↦
            rw e
              (then-Attempted n k _ (image-Tally n k p 0 r f (omega arith) (omega arith) allowed))
        | inr e ↦
            let os = p.image_os (text_of f) in
            let tied = record r {
              config = or_else r.config (add_constraint x.json (codes "ostype==" ++ os) r.config);
            } in
            let t = create_once x sorter intn name answers false tied in
            let a = create_once-attempts false tied in
            rw e (mismatch-Attempted n k p t (omega arith) (create_once-retry false tied ∙ allowed))
      ]

  -- CreateContainer makes no more attempts to create the container than one and the number of
  -- retries of the cluster, or three where that number is below two; and where it returns an error
  -- of the last attempt, it has made all that the number of retries allows: one more than it.
  pub create_container-Attempted :
      (p : Patterns) (platforms : Response (List Str)) (r : Run)
      → Attempted r.attempts r.cluster.create_retry
          (create_container x sorter intn name answers p platforms r)
  unfolding create_container
  create_container-Attempted p platforms r =
      elim (Option-cases (with_os_type x sorter intn name answers platforms r)) [
        | inl e ↦ rw (e, create_container) (record { most = ground arith; least = λ h. absurd h })
        | inr (config, e) ↦
            let tied = record r { config = config } in
            let t = create_once x sorter intn name answers false tied in
            let a = create_once-attempts false tied in
            rw (e, create_container)
              (recover-Attempted r.attempts r.cluster.create_retry p t (omega arith)
                (create_once-retry false tied))
      ]
