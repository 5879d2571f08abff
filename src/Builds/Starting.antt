-- ===== src/Builds/Starting.antt =====
-- What startBuild does to the tables, the counters and the channels.
use classicswarm.Prelude.{
  ℕ, ◌==◌, ◌≡◌, ◌≢◌, refl, sym, ◌∙◌, ap, inl, inr, true, Option, none, some, arith, Bool-cases,
  Option-cases,
}
use classicswarm.Text.{Str}
use classicswarm.Text.Laws.{str_eq_iff}
use classicswarm.Assoc.{Assoc, lookup, insert}
use classicswarm.Assoc.Laws.{lookup-insert, lookup-insert_self}
use classicswarm.Node.{Node}
use classicswarm.Builds.{
  BuildSyncer, Start, started, already_started, write, choose_node, signal_build, signal_session,
  signal, signal_then, with_start, start_build,
}

-- What signalling leaves as it was, and that the two objects are closed.
pub record Signalled (build session : Option ℕ) (b c : BuildSyncer) : Type 0 where
  pub queue_build : c.queue_build ≡ b.queue_build
  pub queue_session : c.queue_session ≡ b.queue_session
  pub next : c.next ≡ b.next
  pub node_by_build_id : c.node_by_build_id ≡ b.node_by_build_id
  pub node_by_session_id : c.node_by_session_id ≡ b.node_by_session_id
  pub counts : (p : ℕ) → (c.counters p).count ≡ (b.counters p).count
  pub woken : (r : ℕ) → build ≡ some r → (c.counters r).done ≡ true
  pub woken_session : (r : ℕ) → session ≡ some r → c.channels r ≡ true

abbrev IsSignalled : (build session : Option ℕ) → BuildSyncer → Option BuildSyncer → Type 0
IsSignalled build session b none = Unit
IsSignalled build session b (some c) = Signalled build session b c

-- What closes the channel of a session where the counter of a build was signalled, or none was.
module _ (build : Option ℕ) (b c : BuildSyncer) (before : Signalled build none b c) where
  signal_session_lem : (session : Option ℕ) → IsSignalled build session b (signal_session session c)
  unfolding signal_session write
  signal_session_lem none = before
  signal_session_lem (some ch) = elim (Bool-cases (c.channels ch)) [
    | inl e ↦ rw e tt
    | inr e ↦ rw e (record {
      queue_build = before.queue_build;
      queue_session = before.queue_session;
      next = before.next;
      node_by_build_id = before.node_by_build_id;
      node_by_session_id = before.node_by_session_id;
      counts = before.counts;
      woken = before.woken;
      woken_session = λ r h. ground arith;
    })
  ]

unsignalled : (b : BuildSyncer) → Signalled none none b b
unsignalled b = record {
  queue_build = refl;
  queue_session = refl;
  next = refl;
  node_by_build_id = refl;
  node_by_session_id = refl;
  counts = λ p. refl;
  woken = λ r h. absurd (ground arith);
  woken_session = λ r h. absurd (ground arith);
}

closed_counter :
    (r : ℕ) (b : BuildSyncer)
    → Signalled
        (some r)
        none
        b
        (record b { counters = write r (record (b.counters r) { done = true }) b.counters })
unfolding write
closed_counter r b = record {
  queue_build = refl;
  queue_session = refl;
  next = refl;
  node_by_build_id = refl;
  node_by_session_id = refl;
  counts = λ p. elim (Bool-cases (p == r)) [
    | inl e ↦ let s : p ≡ r = ground arith in rw e (ap (λ q. (b.counters q).count) (sym s))
    | inr e ↦ rw e refl
  ];
  woken = λ q h. let s : q ≡ r = ground arith in ground arith;
  woken_session = λ q h. absurd (ground arith);
}

module _ (session_id : Str) (b : BuildSyncer) where
  signal_then_lem :
      (build : Option ℕ)
      → IsSignalled build
          (lookup session_id b.queue_session)
          b
          (signal_then session_id (signal_build build b))
  unfolding signal_then signal_build
  signal_then_lem none =
      signal_session_lem none b b (unsignalled b) (lookup session_id b.queue_session)
  signal_then_lem (some r) = elim (Bool-cases (b.counters r).done) [
    | inl e ↦ rw e tt
    | inr e ↦
        rw e
          (signal_session_lem (some r) b _ (closed_counter r b) (lookup session_id b.queue_session))
  ]

  signal_lem :
      (build_id : Str)
      → IsSignalled
          (lookup build_id b.queue_build)
          (lookup session_id b.queue_session)
          b
          (signal session_id build_id b)
  unfolding signal
  signal_lem build_id = signal_then_lem (lookup build_id b.queue_build)

lookup-insert_other :
    (k j : Str) (n : Node) (m : Assoc Node) → j ≢ k → lookup j (insert k n m) ≡ lookup j m
lookup-insert_other k j n m ne = ground (arith, lookup-insert k j n m, str_eq_iff k j)

-- What startBuild makes of a state, where the build was not started: the result is the node of the
-- build, nobody loses the place in a queue, and everybody who waits for the build or the session
-- is woken.
pub record Began (session_id build_id : Str) (b c : BuildSyncer) (n : Node) : Type 0 where
  pub queue_build : c.queue_build ≡ b.queue_build
  pub queue_session : c.queue_session ≡ b.queue_session
  pub next : c.next ≡ b.next
  pub counts : (p : ℕ) → (c.counters p).count ≡ (b.counters p).count
  pub fresh : lookup build_id b.node_by_build_id ≡ none
  pub recorded : lookup build_id c.node_by_build_id ≡ some n
  pub others :
      (id : Str) → id ≢ build_id → lookup id c.node_by_build_id ≡ lookup id b.node_by_build_id
  pub other_sessions :
      (id : Str) → id ≢ session_id → lookup id c.node_by_session_id ≡ lookup id b.node_by_session_id
  pub recorded_session :
      lookup build_id b.node_by_session_id ≡ none → lookup session_id c.node_by_session_id ≡ some n
  pub woken : (r : ℕ) → lookup build_id b.queue_build ≡ some r → (c.counters r).done ≡ true
  pub woken_session : (r : ℕ) → lookup session_id b.queue_session ≡ some r → c.channels r ≡ true

abbrev pub Outcome :
    (session_id build_id : Str) → BuildSyncer → Option (BuildSyncer × Start) → Type 0
Outcome session_id build_id b none = Unit
Outcome session_id build_id b (some (c, already_started)) = c ≡ b
Outcome session_id build_id b (some (c, started n)) = Began session_id build_id b c n

module _ (session_id build_id : Str) (b : BuildSyncer) where
  began :
      (n : Node) (nodes : BuildSyncer) (r : Option BuildSyncer)
      → nodes.queue_build ≡ b.queue_build
      → nodes.queue_session ≡ b.queue_session
      → nodes.next ≡ b.next
      → nodes.counters ≡ b.counters
      → lookup build_id b.node_by_build_id ≡ none
      → lookup build_id nodes.node_by_build_id ≡ some n
      → ((id : Str)
          → id ≢ build_id
          → lookup id nodes.node_by_build_id ≡ lookup id b.node_by_build_id)
      → ((id : Str)
          → id ≢ session_id
          → lookup id nodes.node_by_session_id ≡ lookup id b.node_by_session_id)
      → (lookup build_id b.node_by_session_id ≡ none
          → lookup session_id nodes.node_by_session_id ≡ some n)
      → IsSignalled
          (lookup build_id nodes.queue_build)
          (lookup session_id nodes.queue_session)
          nodes
          r
      → Outcome session_id build_id b (with_start n r)
  unfolding with_start
  began n nodes none q s x k f l o p g h = tt
  began n nodes (some c) q s x k f l o w g h = record {
    queue_build = h.queue_build ∙ q;
    queue_session = h.queue_session ∙ s;
    next = h.next ∙ x;
    counts = λ p. h.counts p ∙ ap (λ f. (f p).count) k;
    fresh = f;
    recorded = ap (lookup build_id) h.node_by_build_id ∙ l;
    others = λ id ne. ap (lookup id) h.node_by_build_id ∙ o id ne;
    other_sessions = λ id ne. ap (lookup id) h.node_by_session_id ∙ w id ne;
    recorded_session = λ e. ap (lookup session_id) h.node_by_session_id ∙ g e;
    woken = λ r e. h.woken r (ap (lookup build_id) q ∙ e);
    woken_session = λ r e. h.woken_session r (ap (lookup session_id) s ∙ e);
  }

  pub start_build-Outcome :
      (node : Node) → Outcome session_id build_id b (start_build session_id build_id node b)
  unfolding start_build choose_node
  start_build-Outcome node = elim (Option-cases (lookup build_id b.node_by_build_id)) [
    | inr (n, e) ↦ rw (e, start_build) refl
    | inl e ↦ elim (Option-cases (lookup build_id b.node_by_session_id)) [
      | inl f ↦
          rw (e, start_build, choose_node, f)
            (began node _ _ refl refl refl refl e
              (lookup-insert_self build_id node b.node_by_build_id)
              (λ id ne. lookup-insert_other build_id id node b.node_by_build_id ne)
              (λ id ne. lookup-insert_other session_id id node b.node_by_session_id ne)
              (λ k. lookup-insert_self session_id node b.node_by_session_id)
              (signal_lem session_id _ build_id))
      | inr (n, f) ↦
          rw (e, start_build, choose_node, f)
            (began n _ _ refl refl refl refl e (lookup-insert_self build_id n b.node_by_build_id)
              (λ id ne. lookup-insert_other build_id id n b.node_by_build_id ne) (λ id ne. refl)
              (λ k. absurd (ground arith)) (signal_lem session_id _ build_id))
    ]
  ]
