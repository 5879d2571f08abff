-- ===== src/Strategy/Random.antt =====
-- RankAndSort of the random strategy.
use mathlib.Core.List.{Perm}
use mathlib.Core.List.Perm
use classicswarm.Prelude.{
  ℕ, zero, suc, ◌-◌, ◌<◌, ◌≡◌, refl, List, [], ◌∷◌, arith, length, length-set, get_elem?-some,
  swap-perm, set, ◌∙◌,
}
use classicswarm.Config.{ContainerConfig}
use classicswarm.Node.{Node}
use classicswarm.Filter.Outcome.{ok}
use classicswarm.Strategy.Sorting.{Sorter}
use classicswarm.Strategy.{WeightedNode, random, rank_and_sort, shuffle, swap_at}

-- r.Intn(n) is below n.
abbrev pub IsBounded : (ℕ → ℕ) → Type 0
IsBounded intn = (n : ℕ) → 0 < n → intn n < n

shuffle-perm :
    (intn : ℕ → ℕ) (i : ℕ) (nodes : List Node)
    → IsBounded intn
    → i < length nodes
    → (out : List Node) × (shuffle intn i nodes ≡ ok out) × Perm out nodes
unfolding shuffle swap_at
shuffle-perm intn zero nodes b h = (nodes, refl, Perm.rfl)
shuffle-perm intn (suc i) nodes b h =
    let j = intn (suc (suc i)) in
    let small = b (suc (suc i)) (omega arith) in
    let (u, e) = get_elem?-some nodes (suc i) h in
    let (w, f) = get_elem?-some nodes j (omega arith) in
    let nodes' = set (set nodes (suc i) w) j u in
    let same : length nodes' ≡ length nodes =
      length-set (set nodes (suc i) w) j u ∙ length-set nodes (suc i) w in
    let (out, run, p) = shuffle-perm intn i nodes' b (omega arith) in
    (out, rw (e, shuffle, f) run, Perm.trans p (swap-perm nodes (suc i) j u w e f))

-- The random strategy never runs out of the list's bounds, and returns the given nodes in some
-- order, for every random source that keeps its promise.
pub rank_and_sort_random :
    (sorter : Sorter WeightedNode) (intn : ℕ → ℕ) (config : ContainerConfig) (nodes : List Node)
    → IsBounded intn
    → (out : List Node) × (rank_and_sort sorter intn random config nodes ≡ ok out) × Perm out nodes
unfolding rank_and_sort
rank_and_sort_random sorter intn config [] b = (unfold shuffle in ([], refl, Perm.rfl))
rank_and_sort_random sorter intn config (n ∷ nodes) b =
    shuffle-perm intn (length (n ∷ nodes) - 1) (n ∷ nodes) b (omega arith)
