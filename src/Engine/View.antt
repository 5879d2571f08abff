-- ===== src/Engine/View.antt =====
-- scheduler/node/node.go, NewNode: an engine as the scheduler sees it.
use classicswarm.Prelude.{
  ℕ, ◌*◌, ◌<◌, ◌≡◌, ◌∙◌, ap, inl, inr, ◌↔◌, true, Option, none, some, arith, Option-cases,
}
use classicswarm.Assoc.{values}
use classicswarm.Int64.{ℤ, pos}
use classicswarm.Node.{Node, is_healthy}
use classicswarm.Engine.{Engine, health_indicator, total_memory, total_cpus}
use classicswarm.Engine.Cache.{used_memory, used_cpus}
use classicswarm.Engine.Health.{IsUp, health_indicator_range}

-- `none` is the division by zero of the health indicator.
unfoldable pub new_node : Engine → Option Node
unfolding health_indicator total_memory total_cpus used_memory used_cpus values
new_node e = elim (health_indicator e) [
  | none ↦ none
  | some health ↦ elim (total_memory e) [
    | none ↦ none
    | some memory ↦ elim (total_cpus e) [
      | none ↦ none
      | some cpus ↦ some (record {
        id = e.id;
        ip = e.ip;
        addr = e.addr;
        name = e.name;
        labels = e.labels;
        containers = values e.containers;
        images = e.images;
        used_memory = used_memory e.containers;
        used_cpus = used_cpus e.containers;
        total_memory = memory;
        total_cpus = cpus;
        health_indicator = health;
      })
    ]
  ]
]

abbrev indicator_of : Option Node → Option ℤ
indicator_of none = none
indicator_of (some n) = some n.health_indicator

node_health :
    (e : Engine) (n : Node) → new_node e ≡ some n → health_indicator e ≡ some n.health_indicator
unfolding new_node
node_health e n h = elim (Option-cases (health_indicator e)) [
  | inl p ↦ absurd (ground arith)
  | inr (x, p) ↦ elim (Option-cases (total_memory e)) [
    | inl q ↦ absurd (ground arith)
    | inr (y, q) ↦ elim (Option-cases (total_cpus e)) [
      | inl r ↦ absurd (ground arith)
      | inr (z, r) ↦ p ∙ ap indicator_of (rw (p, new_node, q, r) at h)
    ]
  ]
]

-- The node of an engine with n failures of r allowed, where 100 times n does not wrap around, is
-- healthy for the scheduler exactly if the engine is healthy and n is below r.
pub new_node-health :
    (e : Engine) (m : Node) (n r : ℕ)
    → e.failure_count ≡ pos n
    → e.failure_retry ≡ pos r
    → n * 100 < 9223372036854775808
    → new_node e ≡ some m
    → (is_healthy m ≡ true) ↔ IsUp e n r
unfolding is_healthy
new_node-health e m n r c t b h =
    let (k, p, (le, up, share)) = health_indicator_range e n r c t b in
    let same : m.health_indicator ≡ pos k = let q = node_health e m h in cc in
    rw same (λ u. up.0 (ground arith), λ v. let small = up.1 v in ground arith)
