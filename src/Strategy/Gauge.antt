-- ===== src/Strategy/Gauge.antt =====
-- The weights of measured nodes whose health is between 0 and 100.
use native.Mathlib.Bridge.{le_prop}
use classicswarm.Prelude.{
  ℕ, ◌+◌, ◌*◌, ◌≤◌, ◌<◌, ◌≡◌, subst, inl, inr, true, List, [], ◌∷◌, some, arith, Every, Bool-cases,
  Option-cases,
}
use classicswarm.Int64.{ℤ, pos, pos_part, neg_part, leb_ℤ, ◌+ℤ◌, ◌*ℤ◌, quot}
use classicswarm.Config.{ContainerConfig}
use classicswarm.Node.{Node}
use classicswarm.Strategy.Measure.{Measured, +ℤ-pos, *ℤ-pos}
use classicswarm.Strategy.{
  WeightedNode, score, too_small, cpu_score, memory_score, add_weighted, weigh_all, spread_factor,
  binpack_factor,
}

-- A node with measured amounts whose health is between 0 and 100.
pub record Gauged (config : ContainerConfig) (n : Node) : Type 0 where
  pub measured : Measured config n
  pub health : ℕ
  pub health_indicator : n.health_indicator ≡ pos health
  pub health_le : health ≤ 100

abbrev pub health_of : WeightedNode → ℕ
health_of w = pos_part w.node.health_indicator

-- The weight lies within 200 of ten times the health, with the sign of the strategy.
abbrev pub BinpackBounds : WeightedNode → Type 0
BinpackBounds w =
    (w.node.health_indicator ≡ pos (health_of w))
    × (health_of w ≤ 100)
    × (health_of w * 10 + neg_part w.weight ≤ pos_part w.weight)
    × (pos_part w.weight ≤ health_of w * 10 + 200 + neg_part w.weight)

abbrev pub SpreadBounds : WeightedNode → Type 0
SpreadBounds w =
    (w.node.health_indicator ≡ pos (health_of w))
    × (health_of w ≤ 100)
    × (neg_part w.weight ≤ pos_part w.weight + health_of w * 10)
    × (pos_part w.weight + health_of w * 10 ≤ 200 + neg_part w.weight)

binpack_weight :
    (c m h : ℕ)
    → c ≤ 100
    → m ≤ 100
    → h ≤ 100
    → (pos c +ℤ pos m) +ℤ binpack_factor *ℤ pos h ≡ pos (c + m + 10 * h)
unfolding ◌+ℤ◌ ◌*ℤ◌
binpack_weight c m h p q r = ground arith

spread_weight :
    (c m h : ℕ)
    → c ≤ 100
    → m ≤ 100
    → h ≤ 100
    → let w = (pos c +ℤ pos m) +ℤ spread_factor *ℤ pos h in
      (neg_part w ≤ pos_part w + h * 10) × (pos_part w + h * 10 ≤ 200 + neg_part w)
unfolding ◌+ℤ◌ ◌*ℤ◌
spread_weight c m h p q r = ground arith

-- The score of measured amounts is not negative.
score_nonneg :
    (used requested total : ℕ) {s : ℤ}
    → (used + requested) * 100 < 9223372036854775808
    → score (pos used) (pos requested) (pos total) ≡ some s
    → (k : ℕ) × (s ≡ pos k)
unfolding score quot
score_nonneg used requested total {s} h e =
    (pos_part s, ground (arith, +ℤ-pos used requested, *ℤ-pos (used + requested) 100))

add-Bounds :
    (factor : ℤ) (P : WeightedNode → Type 0) (n : Node) (c m : ℤ) (ws : List WeightedNode)
    → (leb_ℤ c (pos 100) ≡ true
        → leb_ℤ m (pos 100) ≡ true
        → P (record { node = n; weight = (c +ℤ m) +ℤ factor *ℤ n.health_indicator }))
    → Every P ws
    → Every P (add_weighted factor n c m ws)
unfolding add_weighted
add-Bounds factor P n c m ws new old = ground arith

cpu_score_nonneg :
    (config : ContainerConfig) (n : Node) (g : Measured config n) {s : ℤ}
    → cpu_score config n ≡ some s
    → (k : ℕ) × (s ≡ pos k)
unfolding cpu_score
cpu_score_nonneg config n g e =
    score_nonneg g.cpus_used g.cpus_requested g.cpus_total g.cpus_fit
      (rw (g.used_cpus, g.cpu_shares, g.total_cpus) at e)

memory_score_nonneg :
    (config : ContainerConfig) (n : Node) (g : Measured config n) {s : ℤ}
    → memory_score config n ≡ some s
    → (k : ℕ) × (s ≡ pos k)
unfolding memory_score
memory_score_nonneg config n g e =
    score_nonneg g.memory_used g.memory_requested g.memory_total g.memory_fits
      (rw (g.used_memory, g.memory, g.total_memory) at e)

-- A property of every weight that comes from two scores and a health between 0 and 100.
module _ (config : ContainerConfig) (factor : ℤ) (P : WeightedNode → Type 0)
    (base : (n : Node) (c m h : ℕ)
      → c ≤ 100
      → m ≤ 100
      → h ≤ 100
      → n.health_indicator ≡ pos h
      → P (record { node = n; weight = (pos c +ℤ pos m) +ℤ factor *ℤ n.health_indicator })) where
  one-Bounds :
      (n : Node) (c m : ℤ)
      → Gauged config n
      → cpu_score config n ≡ some c
      → memory_score config n ≡ some m
      → leb_ℤ c (pos 100) ≡ true
      → leb_ℤ m (pos 100) ≡ true
      → P (record { node = n; weight = (c +ℤ m) +ℤ factor *ℤ n.health_indicator })
  one-Bounds n c m g p q a b =
      let (i, e) = cpu_score_nonneg config n g.measured p in
      let (j, f) = memory_score_nonneg config n g.measured q in
      rw (e, f) (base n i j g.health (ground arith) (ground arith) g.health_le g.health_indicator)

  pub weigh_all-Bounds :
      (nodes : List Node) (ws : List WeightedNode)
      → Every (Gauged config) nodes
      → weigh_all config factor nodes ≡ some ws
      → Every P ws
  unfolding weigh_all
  weigh_all-Bounds [] ws g e = let same : [] ≡ ws = cc in subst (Every P) same tt
  weigh_all-Bounds (n ∷ nodes) ws g e = elim (Option-cases (weigh_all config factor nodes)) [
    | inl h ↦ absurd (ground arith)
    | inr (vs, h) ↦
        let ih = weigh_all-Bounds nodes vs g.1 h in
        elim (Bool-cases (too_small config n)) [
          | inl t ↦ let same : vs ≡ ws = ground arith in subst (Every P) same ih
          | inr t ↦ elim (Option-cases (cpu_score config n)) [
            | inl p ↦ absurd (ground arith)
            | inr (c, p) ↦ elim (Option-cases (memory_score config n)) [
              | inl q ↦ absurd (ground arith)
              | inr (m, q) ↦
                  let same : add_weighted factor n c m vs ≡ ws = ground arith in
                  subst (Every P) same (add-Bounds factor P n c m vs (one-Bounds n c m g.0 p q) ih)
            ]
          ]
        ]
  ]

pub BinpackBounds-prop : (w : WeightedNode) → IsProp (BinpackBounds w)
BinpackBounds-prop w = hlevel le_prop

pub SpreadBounds-prop : (w : WeightedNode) → IsProp (SpreadBounds w)
SpreadBounds-prop w = hlevel le_prop

pub binpack-base :
    (n : Node) (c m h : ℕ)
    → c ≤ 100
    → m ≤ 100
    → h ≤ 100
    → n.health_indicator ≡ pos h
    → BinpackBounds
        (record { node = n; weight = (pos c +ℤ pos m) +ℤ binpack_factor *ℤ n.health_indicator })
binpack-base n c m h p q r e = ground (arith, binpack_weight c m h p q r)

pub spread-base :
    (n : Node) (c m h : ℕ)
    → c ≤ 100
    → m ≤ 100
    → h ≤ 100
    → n.health_indicator ≡ pos h
    → SpreadBounds
        (record { node = n; weight = (pos c +ℤ pos m) +ℤ spread_factor *ℤ n.health_indicator })
spread-base n c m h p q r e = ground (arith, spread_weight c m h p q r)
