-- ===== src/Strategy/Measure.antt =====
-- Nodes and requests whose amounts are numbers that no product makes overflow, and what the test
-- of weighNodes says of them.
use classicswarm.Prelude.{
  ℕ, zero, suc, ◌+◌, ◌*◌, ◌/◌, ◌≤◌, ◌<◌, ◌≡◌, refl, sym, ap, ◌∙◌, subst, List, keep, In, In-keep,
  In-keep_of, ◌⊎◌, inl, inr, ◌↔◌, true, some, arith, not, ◌&&◌, ◌||◌,
}
use native.Mathlib.Nat.{div-lt_iff_lt-mul}
use classicswarm.Config.{ContainerConfig}
use classicswarm.Node.{Node}
use classicswarm.Int64.{ℤ, pos, ◌+ℤ◌, ◌*ℤ◌, quot, plus, times, ltb_ℤ}
use classicswarm.Strategy.{
  score, too_small, cpu_score, memory_score, WeightedNode, weigh_all, nodes_of,
}
use classicswarm.Strategy.Weight.{accepted, score_le, weigh_all-Weighed}

plus-pos : (a b : ℕ) → plus (pos a) (pos b) ≡ pos (a + b)
unfolding plus
plus-pos a b = ground arith

times-pos : (a b : ℕ) → times (pos a) (pos b) ≡ pos (a * b)
unfolding times
times-pos a b = ground arith

pub +ℤ-pos : (a b : ℕ) → a + b < 9223372036854775808 → pos a +ℤ pos b ≡ pos (a + b)
unfolding ◌+ℤ◌
+ℤ-pos a b h = ground arith

pub *ℤ-pos : (a b : ℕ) → a * b < 9223372036854775808 → pos a *ℤ pos b ≡ pos (a * b)
unfolding ◌*ℤ◌
*ℤ-pos a b h = ground arith

-- The score of a positive request is the share in hundredths, rounded down.
score-pos :
    (used requested total : ℕ)
    → 0 < requested
    → 0 < total
    → (used + requested) * 100 < 9223372036854775808
    → score (pos used) (pos requested) (pos total) ≡ some (pos ((used + requested) * 100 / total))
unfolding score quot
score-pos used requested total r t h =
    ground (arith, +ℤ-pos used requested, *ℤ-pos (used + requested) 100)

quotient_le : (a t : ℕ) → 0 < t → (a / t ≤ 100) ↔ (a < 101 * t)
quotient_le a t h =
    let bound = div-lt_iff_lt-mul {k = t} {x = a} {y = 101} h in
    (λ p. bound.0 (omega arith), λ p. omega (arith, bound.1 p))

-- The bound on one resource: the request is at most the total, and unless it is zero, used and
-- requested together stay below 101 hundredths of the total (and may thus go beyond the total).
abbrev pub IsWithin : (used requested total : ℕ) → Type 0
IsWithin used requested total =
    (requested ≤ total) × ((requested ≡ 0) ⊎ ((used + requested) * 100 < 101 * total))

-- The amounts of a node and of a request as numbers, no product of which wraps around.
pub record Measured (config : ContainerConfig) (n : Node) : Type 0 where
  pub cpus_used : ℕ
  pub cpus_requested : ℕ
  pub cpus_total : ℕ
  pub memory_used : ℕ
  pub memory_requested : ℕ
  pub memory_total : ℕ
  pub used_cpus : n.used_cpus ≡ pos cpus_used
  pub cpu_shares : config.host_config.cpu_shares ≡ pos cpus_requested
  pub total_cpus : n.total_cpus ≡ pos cpus_total
  pub used_memory : n.used_memory ≡ pos memory_used
  pub memory : config.host_config.memory ≡ pos memory_requested
  pub total_memory : n.total_memory ≡ pos memory_total
  pub cpus_fit : (cpus_used + cpus_requested) * 100 < 9223372036854775808
  pub memory_fits : (memory_used + memory_requested) * 100 < 9223372036854775808

-- One resource.
score_iff :
    (used requested total : ℕ)
    → (used + requested) * 100 < 9223372036854775808
    → requested ≤ total
    → (score_le (score (pos used) (pos requested) (pos total)) ≡ true)
      ↔ IsWithin used requested total
unfolding score_le score
score_iff used zero total h le = (λ p. (le, inl refl), λ p. refl)
score_iff used (suc r) total h le =
    let bound = quotient_le ((used + suc r) * 100) total (omega arith) in
    rw (score-pos used (suc r) total (omega arith) (omega arith) h)
      (λ p. (le, inr (bound.0 (ground arith))), λ p. ground (arith, bound.1))

-- Both resources, over the numbers.
both_iff :
    (cu cr ct mu mr mt : ℕ)
    → (cu + cr) * 100 < 9223372036854775808
    → (mu + mr) * 100 < 9223372036854775808
    → ((not (ltb_ℤ (pos mt) (pos mr) || ltb_ℤ (pos ct) (pos cr))
          && (score_le (score (pos cu) (pos cr) (pos ct))
              && score_le (score (pos mu) (pos mr) (pos mt))))
        ≡ true)
      ↔ (IsWithin cu cr ct × IsWithin mu mr mt)
both_iff cu cr ct mu mr mt h k = (forth, back)
  where
    forth :
        (not (ltb_ℤ (pos mt) (pos mr) || ltb_ℤ (pos ct) (pos cr))
            && (score_le (score (pos cu) (pos cr) (pos ct))
                && score_le (score (pos mu) (pos mr) (pos mt))))
          ≡ true
        → IsWithin cu cr ct × IsWithin mu mr mt
    forth p =
        let c : cr ≤ ct = ground arith in
        let m : mr ≤ mt = ground arith in
        ((score_iff cu cr ct h c).0 (ground arith), (score_iff mu mr mt k m).0 (ground arith))

    back :
        IsWithin cu cr ct × IsWithin mu mr mt
        → (not (ltb_ℤ (pos mt) (pos mr) || ltb_ℤ (pos ct) (pos cr))
            && (score_le (score (pos cu) (pos cr) (pos ct))
                && score_le (score (pos mu) (pos mr) (pos mt))))
          ≡ true
    back (c, m) =
        let p = (score_iff cu cr ct h c.0).1 c in
        let q = (score_iff mu mr mt k m.0).1 m in ground arith

accepted_iff :
    (config : ContainerConfig) (n : Node) (m : Measured config n)
    → (accepted config n ≡ true) ↔ (
        IsWithin m.cpus_used m.cpus_requested m.cpus_total
        × IsWithin m.memory_used m.memory_requested m.memory_total)
unfolding accepted too_small cpu_score memory_score
accepted_iff config n m =
    rw (m.used_cpus, m.cpu_shares, m.total_cpus, m.used_memory, m.memory, m.total_memory)
      (both_iff m.cpus_used m.cpus_requested m.cpus_total m.memory_used m.memory_requested
        m.memory_total m.cpus_fit m.memory_fits)

-- A given node, the hundredfold of whose amounts does not overflow, is among the nodes that the
-- loop of weighNodes weighs exactly if the following holds of CPUs and of memory: the request is at
-- most the total, and it is zero or a hundred times the sum of used and requested is less than 101
-- times the total. So a request may go beyond the total by almost a hundredth of it.
pub weigh_all_iff :
    (config : ContainerConfig) (factor : ℤ) (nodes : List Node) (ws : List WeightedNode) (n : Node)
    → weigh_all config factor nodes ≡ some ws
    → In n nodes
    → (m : Measured config n)
    → In n (nodes_of ws) ↔ (
        IsWithin m.cpus_used m.cpus_requested m.cpus_total
        × IsWithin m.memory_used m.memory_requested m.memory_total)
weigh_all_iff config factor nodes ws n e i m =
    let (vs, w) = weigh_all-Weighed config factor nodes in
    let same : vs ≡ ws = let h = w.some_ws in cc in
    let kept : nodes_of ws ≡ keep (accepted config) nodes = ap nodes_of (sym same) ∙ w.kept in
    let bound = accepted_iff config n m in
    (
      λ j. bound.0 (In-keep (accepted config) n nodes (subst (In n) kept j)).1,
      λ h. subst (In n) (sym kept) (In-keep_of (accepted config) n nodes i (bound.1 h)),
    )
