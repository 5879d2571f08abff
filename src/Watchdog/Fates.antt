-- ===== src/Watchdog/Fates.antt =====
-- What becomes of each container of an engine that has failed.
use classicswarm.Prelude.{
  ℕ, ◌≡◌, ◌≢◌, refl, ◌⊎◌, true, false, [], is_empty, inl, inr, Bool-cases, if◌then◌else◌,
}
use classicswarm.Text.{codes}
use classicswarm.Assoc.{Assoc}
use classicswarm.Config.{ContainerConfig, EndpointSettings, has_reschedule_policy}
use classicswarm.Container.{Container, EngineRef}
use classicswarm.Externals.{Externals}
use classicswarm.Strategy.Sorting.{Sorter}
use classicswarm.Strategy.{WeightedNode}
use classicswarm.Cluster.{Cluster, networks}
use classicswarm.Cluster.Errors.{Failure}
use classicswarm.Cluster.Creating.{Run, Result, done, failure, crashed, no_draw, create_container}
use classicswarm.Watchdog.{
  World, State, Fate, skipped, nameless, restored, unfinished, recreated, Draw, drawn, no_engine,
  broken, is_nameless, forget, random_engine, start, create_again, settle, attach,
  with_own_endpoints, recreate, detach, detach_and_recreate, move, reschedule_container, plain_name,
}
use classicswarm.Watchdog.Caches.{
  IsCached, IsForgotten, nonempty, add_back-IsCached, forget-IsForgotten,
}

module _ {S : Type 0} (x : Externals) (sorter : Sorter WeightedNode) (intn : ℕ → ℕ)
    (w : World S) where
  -- CreateContainer was asked for the container in this cluster, under its name and with its
  -- configuration but for the endpoints, and came to `out`.
  pub record Tried (c : Container) (cluster : Cluster) (out : Result) : Type 0 where
    pub world : S
    pub config : ContainerConfig
    pub same : config ≡ record c.config { endpoints_config = config.endpoints_config }
    pub run : Run
    pub asked :
        create_container x sorter intn c.info.name
          (w.answers world)
          (w.patterns world)
          (w.platforms world)
          (record { cluster = cluster; config = config; attempts = 0 })
        ≡ (run, out)

  -- The container k was created for c and, if c was running, started.
  pub record Recreated (c k : Container) (cluster : Cluster) (t : State S) : Type 0 where
    pub tried : Tried c cluster (done k)
    pub attached : State S
    pub there : attached.cluster ≡ tried.run.cluster
    pub ended : t ≡ (if c.info.running then start x sorter intn w k attached else attached)

  -- What becomes of a container with a name that was taken out of the cache, in the cluster
  -- without it.
  abbrev pub Moved : Container → Cluster → State S × Fate → Type 0
  Moved c cluster (t, skipped) = ⊥
  Moved c cluster (t, nameless) = ⊥
  Moved c cluster (t, restored) =
      IsCached c t.cluster
      × (((c.info.networks ≢ []) × (random_engine x sorter intn w cluster ≡ no_engine))
          ⊎ ((f : Failure) × Tried c cluster (failure f)))
  Moved c cluster (t, unfinished) =
      (random_engine x sorter intn w cluster ≡ broken)
      ⊎ (Tried c cluster crashed ⊎ Tried c cluster no_draw)
  Moved c cluster (t, recreated k) = Recreated c k cluster t

  -- The container as the watchdog passes it on: with other endpoints.
  abbrev pub with_networks : Container → Assoc EndpointSettings → Container
  with_networks c nets = record c { info = record c.info { networks = nets } }

  settle-Moved :
      (c : Container) (nets own shared : Assoc EndpointSettings) (cluster : Cluster) (v : S)
      (r : Run) (out : Result)
      → create_again x sorter intn w
          (record (with_networks c nets) { config = record c.config { endpoints_config = own } })
          (record { cluster = cluster; world = v })
        ≡ (r, out)
      → Moved c cluster (
          settle x sorter intn w
            (record (with_networks c nets) { config = record c.config { endpoints_config = own } })
            shared
            v
            (r, out))
  unfolding settle create_again attach
  settle-Moved c nets own shared cluster v r (failure f) h = (
    add_back-IsCached (record (with_networks c nets) { config = r.config }) r.cluster,
    inr (f, record { world = v; config = _; same = refl; run = r; asked = h }),
  )
  settle-Moved c nets own shared cluster v r crashed h =
      inr (inl (record { world = v; config = _; same = refl; run = r; asked = h }))
  settle-Moved c nets own shared cluster v r no_draw h =
      inr (inr (record { world = v; config = _; same = refl; run = r; asked = h }))
  settle-Moved c nets own shared cluster v r (done k) h = record {
    tried = record { world = v; config = _; same = refl; run = r; asked = h };
    attached = attach x sorter intn w k c.info.name shared r.cluster v;
    there = refl;
    ended = refl;
  }

  recreate-Moved :
      (c : Container) (nets shared : Assoc EndpointSettings) (cluster : Cluster) (v : S)
      → Moved c cluster (
          recreate x sorter intn w
            (with_networks c nets)
            shared
            (record { cluster = cluster; world = v }))
  unfolding recreate with_own_endpoints
  recreate-Moved c nets shared cluster v =
      let s : State S = record { cluster = cluster; world = v } in
      let d = with_own_endpoints x sorter intn w cluster (with_networks c nets) in
      let (r, out) = create_again x sorter intn w d s in
      settle-Moved c nets d.config.endpoints_config shared cluster v r out refl

  detach-Moved :
      (c : Container) (engine : EngineRef) (s : State S)
      → Moved c s.cluster (detach_and_recreate x sorter intn w c engine s)
  unfolding detach_and_recreate
  detach-Moved c engine s =
      let (v, (shared, every)) =
        detach x sorter intn w engine (networks s.cluster) (plain_name c.info.name) c.info.networks
          s.world in
      recreate-Moved c every shared s.cluster v

  move-Moved : (c : Container) (s : State S) → Moved c s.cluster (move x sorter intn w c s)
  unfolding move
  move-Moved c s = elim (Bool-cases (is_empty c.info.networks)) [
    | inl e ↦ rw (e, move) (recreate-Moved c c.info.networks [] s.cluster s.world)
    | inr e ↦ by_draw (random_engine x sorter intn w s.cluster) refl e
  ]
    where
      by_draw :
          (d : Draw)
          → random_engine x sorter intn w s.cluster ≡ d
          → is_empty c.info.networks ≡ false
          → Moved c s.cluster (move x sorter intn w c s)
      by_draw no_engine h e =
          rw (e, move, h) (add_back-IsCached c s.cluster, inl (nonempty c.info.networks e, h))
      by_draw broken h e = rw (e, move, h) (inl h)
      by_draw (drawn engine) h e = rw (e, move, h) (detach-Moved c engine s)

  -- What happens, for a container with the policy and a name: `without` is the cluster in
  -- which its engine has forgotten it.
  pub record Rescheduled (c : Container) (s : State S) (r : State S × Fate) : Type 0 where
    pub policy : has_reschedule_policy x.json (codes "on-node-failure") c.config ≡ true
    pub named : is_nameless c.info.name ≡ false
    pub without : Cluster
    pub taken_out : without ≡ forget c s.cluster
    pub forgotten : IsForgotten c without
    pub moved : Moved c without r

  abbrev pub IsFate : Container → State S → State S × Fate → Type 0
  IsFate c s (t, skipped) =
      (has_reschedule_policy x.json (codes "on-node-failure") c.config ≡ false) × (t ≡ s)
  IsFate c s (t, nameless) =
      (is_nameless c.info.name ≡ true)
      × (t ≡ record s { cluster = forget c s.cluster })
      × IsForgotten c t.cluster
  IsFate c s (t, restored) = Rescheduled c s (t, restored)
  IsFate c s (t, unfinished) = Rescheduled c s (t, unfinished)
  IsFate c s (t, recreated k) = Rescheduled c s (t, recreated k)

  Moved-IsFate :
      (c : Container) (s : State S) (r : State S × Fate)
      → has_reschedule_policy x.json (codes "on-node-failure") c.config ≡ true
      → is_nameless c.info.name ≡ false
      → Moved c (forget c s.cluster) r
      → IsFate c s r
  Moved-IsFate c s (t, skipped) p n h = absurd h
  Moved-IsFate c s (t, nameless) p n h = absurd h
  Moved-IsFate c s (t, restored) p n h = record {
    policy = p;
    named = n;
    without = forget c s.cluster;
    taken_out = refl;
    forgotten = forget-IsForgotten c s.cluster;
    moved = h;
  }
  Moved-IsFate c s (t, unfinished) p n h = record {
    policy = p;
    named = n;
    without = forget c s.cluster;
    taken_out = refl;
    forgotten = forget-IsForgotten c s.cluster;
    moved = h;
  }
  Moved-IsFate c s (t, recreated k) p n h = record {
    policy = p;
    named = n;
    without = forget c s.cluster;
    taken_out = refl;
    forgotten = forget-IsForgotten c s.cluster;
    moved = h;
  }

  -- The fate of a container of a failed engine. Without the policy on-node-failure nothing happens.
  -- With it, it is taken out of the cache of its engine, and if it has no name that is all. With a
  -- name, CreateContainer is asked for it under its name and with its configuration but for the
  -- endpoints, in the cluster without it. If that succeeds the new container is started where the
  -- old one ran. If it fails, or if a container with networks finds no engine for their clean-up,
  -- the cache of its engine has the container afterwards. The manager ends in a panic, or without a
  -- free random ID, only where CreateContainer or the draw of an engine does. All of the cache of
  -- an engine is said of an engine in the table of the cluster.
  pub reschedule_container-IsFate :
      (c : Container) (s : State S) → IsFate c s (reschedule_container x sorter intn w c s)
  unfolding reschedule_container
  reschedule_container-IsFate c s =
      elim (Bool-cases (has_reschedule_policy x.json (codes "on-node-failure") c.config)) [
        | inr e ↦ rw (e, reschedule_container) (e, refl)
        | inl e ↦ elim (Bool-cases (is_nameless c.info.name)) [
          | inl f ↦ rw (e, reschedule_container, f) (f, refl, forget-IsForgotten c s.cluster)
          | inr f ↦
              let t : State S = record s { cluster = forget c s.cluster } in
              rw (e, reschedule_container, f)
                (Moved-IsFate c s (move x sorter intn w c t) e f (move-Moved c t))
        ]
      ]
