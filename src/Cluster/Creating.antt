-- ===== src/Cluster/Creating.antt =====
-- cluster/swarm/cluster.go, CreateContainer: one attempt after the other, with what the error of the
-- last one asks for.
use classicswarm.Prelude.{
  ℕ, zero, suc, ◌-◌, Bool, true, false, not, ◌&&◌, ◌||◌, List, [], ◌∷◌, ◌++◌, Option, none, some,
  any, map, is_empty, if◌then◌else◌,
}
use classicswarm.Text.{Str, codes, contains, join}
use classicswarm.Int64.{ℤ}
use classicswarm.Assoc.{Assoc, lookup, insert, keys}
use classicswarm.Config.{ContainerConfig, constraints, add_constraint, have_node_constraint}
use classicswarm.Container.{Container}
use classicswarm.Externals.{Externals}
use classicswarm.Filter.Outcome.{ok, err, panic}
use classicswarm.Strategy.Sorting.{Sorter}
use classicswarm.Strategy.{WeightedNode}
use classicswarm.Engine.{Engine, Response, answered, failed}
use classicswarm.Engine.Calls
use classicswarm.Engine.Calls.{Creation, Created, created, create_failed, not_reported}
use classicswarm.Cluster.{Cluster, image, or_else, zero_host}
use classicswarm.Cluster.Creation.{
  Placement, placed, name_conflict, engine_gone, crash, undrawn, unplaceable, place, finish,
  selection,
}
use classicswarm.Cluster.Errors.{
  Failure, name_taken, gone, not_reported_back, unplaced, from_api, text_of, is_err_not_found,
}

-- What one attempt gets from outside: the time, the random IDs, and the answers of the engine.
pub record Attempt : Type 0 where
  pub now : ℤ
  pub draws : List Str
  pub creation : Creation

-- The cluster, the configuration that is changed in place, and how many attempts were made.
pub record Run : Type 0 where
  pub cluster : Cluster
  pub config : ContainerConfig
  pub attempts : ℕ

pub data Result : Type 0 where
  done : Container → Result
  failure : Failure → Result
  crashed no_draw : Result

-- The regular expressions of the source: whether the text has a match, and the operating system
-- that an error about images names.
pub record Patterns : Type 0 where
  pub has_match : (pattern text : Str) → Bool
  pub image_os : Str → Str

unfoldable pub result_of : Created → Result
result_of (created k) = done k
result_of (create_failed x) = failure (from_api x)
result_of not_reported = failure not_reported_back

-- `image \S* not found`, `repository \S* not found` and `repository does not exist`
unfoldable pub is_missing : Patterns → Failure → Bool
unfolding text_of is_err_not_found
is_missing p f =
    p.has_match (codes "image " ++ (92 ∷ codes "S* not found")) (text_of f)
    || (p.has_match (codes "repository " ++ (92 ∷ codes "S* not found")) (text_of f)
        || (p.has_match (codes "repository does not exist") (text_of f) || is_err_not_found f))

-- &cluster.ContainerConfig{}
abbrev pub zero_config : ContainerConfig
zero_config = record {
  image = [];
  env = [];
  labels = [];
  exposed_ports = [];
  host_config = zero_host;
  endpoints_config = [];
}

-- The keys of the map of operating systems.
unfoldable pub os_types : List Str → Assoc Bool → Assoc Bool
unfolding insert
os_types [] m = m
os_types (os ∷ oss) m = os_types oss (insert os true m)

unfoldable pub os_constraint : List Str → Option Str
unfolding join
os_constraint [] = none
os_constraint (os ∷ []) = some (codes "ostype==" ++ os)
os_constraint (os ∷ more ∷ oss) = some (
    codes "ostype==/"
    ++ (join (codes "|") (map (λ o. codes "(" ++ (o ++ codes ")")) (os ∷ more ∷ oss)) ++ codes "/"))

module _ (x : Externals) (sorter : Sorter WeightedNode) (intn : ℕ → ℕ) (name : Str)
    (answers : ℕ → Attempt) where
  -- engine.CreateContainer, and the second critical section. The engine stands in the table under
  -- `key`.
  unfoldable pub ask_engine : (id key : Str) → Engine → Attempt → Cluster → Cluster × Result
  unfolding Calls.create_container insert finish result_of
  ask_engine id key e a c =
      let (f, r) = Calls.create_container x.json a.now true a.creation e in
      (finish id (record c { engines = insert key f c.engines }), result_of r)

  unfoldable pub after_place : Placement → Attempt → Cluster → Cluster × Result
  unfolding ask_engine
  after_place (placed id key e) a c = ask_engine id key e a c
  after_place name_conflict a c = (c, failure (name_taken name))
  after_place engine_gone a c = (c, failure gone)
  after_place (unplaceable e) a c = (c, failure (unplaced e))
  after_place crash a c = (c, crashed)
  after_place undrawn a c = (c, no_draw)

  -- createContainer
  unfoldable pub create_once : (affine : Bool) → Run → Run × Result
  unfolding place after_place
  create_once affine r =
      let a = answers r.attempts in
      let ((c, p), config) = place x sorter intn affine a.draws name r.config r.cluster in
      let (d, out) = after_place p a c in
      (record { cluster = d; config = config; attempts = suc r.attempts }, out)

  -- The loop: `left` rounds are left.
  unfoldable pub retry : (left : ℕ) → Run → Result → Run × Result
  unfolding create_once
  retry zero r out = (r, out)
  retry (suc left) r (done k) = (r, done k)
  retry (suc left) r crashed = (r, crashed)
  retry (suc left) r no_draw = (r, no_draw)
  retry (suc left) r (failure f) = let (s, out) = create_once false r in retry left s out

  -- An image that is not found but that the cluster has: an attempt with an affinity to the image.
  -- `retries` attempts count so far.
  unfoldable pub with_image : Patterns → (retries : ℕ) → Run → Failure → (Run × Result) × ℕ
  unfolding is_missing have_node_constraint image create_once
  with_image p retries r f =
      if is_missing p f && not (have_node_constraint x.json r.config)
      then elim (image r.config.image r.cluster) [
        | none ↦ ((r, failure f), retries)
        | some i ↦ (create_once true r, suc retries)
      ]
      else ((r, failure f), retries)

  unfoldable pub then_retry : (Run × Result) × ℕ → Run × Result
  unfolding retry
  then_retry ((r, out), retries) = retry (r.cluster.create_retry - retries) r out

  unfoldable pub after_mismatch : Patterns → Run × Result → Run × Result
  unfolding with_image then_retry
  after_mismatch p (r, done k) = (r, done k)
  after_mismatch p (r, crashed) = (r, crashed)
  after_mismatch p (r, no_draw) = (r, no_draw)
  after_mismatch p (r, failure f) = then_retry (with_image p 1 r f)

  -- What CreateContainer does with the first attempt.
  unfoldable pub recover : Patterns → Run × Result → Run × Result
  unfolding is_empty text_of with_image then_retry after_mismatch create_once add_constraint or_else
  recover p (r, done k) = (r, done k)
  recover p (r, crashed) = (r, crashed)
  recover p (r, no_draw) = (r, no_draw)
  recover p (r, failure f) =
      let os = p.image_os (text_of f) in
      if is_empty os
      then then_retry (with_image p 0 r f)
      else after_mismatch p (
          create_once false (record r {
            config = or_else r.config (add_constraint x.json (codes "ostype==" ++ os) r.config);
          }))

  -- setOSTypeConstraint; `platforms` are the operating systems that the chosen engine answers, and
  -- `none` is a panic.
  unfoldable pub with_os_type : Response (List Str) → Run → Option ContainerConfig
  unfolding constraints any contains selection lookup os_types keys os_constraint add_constraint
      or_else
  with_os_type platforms r =
      if any (λ s. contains s (codes "ostype")) (constraints x.json r.config)
      then some r.config
      else elim (selection x sorter intn r.cluster zero_config) [
        | err e ↦ some r.config
        | panic ↦ none
        | ok [] ↦ none
        | ok (n ∷ ns) ↦ elim (lookup n.id r.cluster.engines) [
          | none ↦ none
          | some e ↦ elim platforms [
            | failed x ↦ some r.config
            | answered oss ↦ elim (os_constraint (keys (os_types oss []))) [
              | none ↦ some r.config
              | some s ↦ some (or_else r.config (add_constraint x.json s r.config))
            ]
          ]
        ]
      ]

  -- CreateContainer
  unfoldable pub create_container : Patterns → Response (List Str) → Run → Run × Result
  unfolding with_os_type recover create_once
  create_container p platforms r = elim (with_os_type platforms r) [
    | none ↦ (r, crashed)
    | some config ↦ recover p (create_once false (record r { config = config }))
  ]
