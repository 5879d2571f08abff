-- ===== src/Strategy/Weight.antt =====
-- weighNodes: it never divides by zero, and which nodes it weighs.
use classicswarm.Prelude.{
  suc, ◌/◌, ◌≡◌, refl, inl, inr, Bool, true, false, not, ◌&&◌, List, [], ◌∷◌, Option, none, some,
  arith, keep, Bool-cases,
}
use classicswarm.Int64.{ℤ, pos, negsuc, ◌+ℤ◌, ◌*ℤ◌, quot, negated, ltb_ℤ, leb_ℤ}
use classicswarm.Config.{ContainerConfig}
use classicswarm.Node.{Node}
use classicswarm.Strategy.Sorting.{IsStrictWeak}
use classicswarm.Strategy.{
  WeightedNode, less, score, too_small, cpu_score, memory_score, add_weighted, weigh_all, nodes_of,
}

less-asymmetric : (a b : WeightedNode) → less a b ≡ true → less b a ≡ false
unfolding less
less-asymmetric a b h = ground arith

less-negatively_transitive :
    (a b c : WeightedNode) → less b a ≡ false → less c b ≡ false → less c a ≡ false
unfolding less
less-negatively_transitive a b c h k = ground arith

pub less-IsStrictWeak : IsStrictWeak less
less-IsStrictWeak = record {
  asymmetric = less-asymmetric;
  negatively_transitive = less-negatively_transitive;
}

-- A total that is not smaller than a positive request is not zero.
quot_total : (a b : ℤ) → ltb_ℤ (pos 0) b ≡ true → (q : ℤ) × (quot a b ≡ some q)
unfolding quot
quot_total (pos a) (pos b) h = (pos (a / b), ground arith)
quot_total (negsuc a) (pos b) h = (negated (suc a / b), ground arith)
quot_total (pos a) (negsuc b) h = absurd (ground arith)
quot_total (negsuc a) (negsuc b) h = absurd (ground arith)

score_total :
    (used requested total : ℤ)
    → ltb_ℤ total requested ≡ false
    → (s : ℤ) × (score used requested total ≡ some s)
unfolding score
score_total used requested total h = elim (Bool-cases (ltb_ℤ (pos 0) requested)) [
  | inl p ↦
      let (q, e) = quot_total ((used +ℤ requested) *ℤ pos 100) total (ground arith) in
      (q, rw (p, score) e)
  | inr p ↦ (pos 100, rw (p, score) refl)
]

unfoldable pub score_le : Option ℤ → Bool
score_le none = false
score_le (some s) = leb_ℤ s (pos 100)

-- The nodes that are weighed.
unfoldable pub accepted : ContainerConfig → Node → Bool
unfolding score_le
accepted config n =
    not (too_small config n) && (score_le (cpu_score config n) && score_le (memory_score config n))

pub record Weighed (config : ContainerConfig) (factor : ℤ) (nodes : List Node)
    (ws : List WeightedNode) : Type 0 where
  pub some_ws : weigh_all config factor nodes ≡ some ws
  pub kept : nodes_of ws ≡ keep (accepted config) nodes

scores_total :
    (config : ContainerConfig) (n : Node)
    → too_small config n ≡ false
    → ((s : ℤ) × (cpu_score config n ≡ some s)) × ((s : ℤ) × (memory_score config n ≡ some s))
unfolding too_small cpu_score memory_score
scores_total config n h = (
  score_total n.used_cpus config.host_config.cpu_shares n.total_cpus (ground arith),
  score_total n.used_memory config.host_config.memory n.total_memory (ground arith),
)

-- The loop never panics, and weighs exactly the accepted nodes, in order.
pub weigh_all-Weighed :
    (config : ContainerConfig) (factor : ℤ) (nodes : List Node)
    → (ws : List WeightedNode) × Weighed config factor nodes ws
unfolding weigh_all keep accepted add_weighted
weigh_all-Weighed config factor [] = ([], record { some_ws = refl; kept = refl })
weigh_all-Weighed config factor (n ∷ nodes) =
    let (ws, w) = weigh_all-Weighed config factor nodes in
    elim (Bool-cases (too_small config n)) [
      | inl h ↦ (ws, record { some_ws = ground (arith, w.some_ws); kept = ground (arith, w.kept) })
      | inr h ↦
          let ((cpu, p), (memory, q)) = scores_total config n h in
          (
            add_weighted factor n cpu memory ws,
            record {
              some_ws = ground (arith, w.some_ws, p, q);
              kept = ground (arith, w.kept, p, q);
            },
          )
    ]
