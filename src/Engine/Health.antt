-- ===== src/Engine/Health.antt =====
-- How the health of an engine follows the failures of its connection, and when a pending engine is
-- due for another validation.
use native.Mathlib.Nat.{div-lt_iff_lt-mul}
use classicswarm.Prelude.{
  ℕ, ◌-◌, ◌*◌, ◌/◌, ◌≤◌, ◌<◌, ◌≡◌, refl, ◌⊎◌, inl, inr, ◌↔◌, ltb, some, arith, Bool-cases,
}
use classicswarm.Int64.{pos, ◌-ℤ◌, quot}
use classicswarm.Strategy.Measure.{*ℤ-pos}
use classicswarm.Engine.{
  Engine, EngineState, pending, unhealthy, healthy, disconnected, health_indicator,
}

-- The engine is healthy and has failed fewer times than it may.
abbrev pub IsUp : Engine → ℕ → ℕ → Type 0
IsUp e n r = (e.state ≡ healthy) × (n < r)

minus-pos : (q : ℕ) → q ≤ 100 → pos 100 -ℤ pos q ≡ pos (100 - q)
unfolding ◌-ℤ◌
minus-pos q h = ground arith

share_lt : (n r : ℕ) → n < r → n * 100 / r < 100
share_lt n r h = (div-lt_iff_lt-mul {k = r} {x = n * 100} {y = 100} (omega arith)).1 (omega arith)

-- What a number is shown to be as an indicator.
abbrev pub Indicates : Engine → ℕ → ℕ → ℕ → Type 0
Indicates e n r h = (h ≤ 100) × ((0 < h) ↔ IsUp e n r) × (IsUp e n r → h ≡ 100 - n * 100 / r)

down-Indicates : (e : Engine) (n r : ℕ) → ¬ IsUp e n r → Indicates e n r 0
down-Indicates e n r down =
    (omega arith, (λ p. absurd (omega (arith, p)), λ u. absurd (down u)), λ u. absurd (down u))

up_indicator :
    (e : Engine) (n r : ℕ)
    → e.failure_count ≡ pos n
    → e.failure_retry ≡ pos r
    → n * 100 < 9223372036854775808
    → IsUp e n r
    → health_indicator e ≡ some (pos (100 - n * 100 / r))
unfolding health_indicator quot
up_indicator e n r c t b (u, l) =
    let small = share_lt n r l in
    rw (u, health_indicator, c, t) (ground (arith, *ℤ-pos n 100, minus-pos (n * 100 / r)))

health_cases :
    (e : Engine) (n r : ℕ)
    → e.failure_count ≡ pos n
    → e.failure_retry ≡ pos r
    → IsUp e n r ⊎ ((¬ IsUp e n r) × (health_indicator e ≡ some (pos 0)))
unfolding health_indicator
health_cases e n r c t = by_state e.state refl
  where
    by_state :
        (st : EngineState)
        → e.state ≡ st
        → IsUp e n r ⊎ ((¬ IsUp e n r) × (health_indicator e ≡ some (pos 0)))
    by_state pending u =
        inr (λ v. (let q : pending ≡ healthy = cc in cc), rw (u, health_indicator) refl)
    by_state unhealthy u =
        inr (λ v. (let q : unhealthy ≡ healthy = cc in cc), rw (u, health_indicator) refl)
    by_state disconnected u =
        inr (λ v. (let q : disconnected ≡ healthy = cc in cc), rw (u, health_indicator) refl)
    by_state healthy u = elim (Bool-cases (ltb n r)) [
      | inl h ↦ inl (u, ground arith)
      | inr h ↦ inr (λ v. ground (arith, v.1), rw (u, health_indicator, c, t) (ground arith))
    ]

-- With n failures of r allowed, where 100 times n does not wrap around: the indicator is a number
-- between 0 and 100, it is not 0 exactly if the engine is healthy and n is below r, and then it is
-- 100 less the share of the failures in hundredths, rounded down.
pub health_indicator_range :
    (e : Engine) (n r : ℕ)
    → e.failure_count ≡ pos n
    → e.failure_retry ≡ pos r
    → n * 100 < 9223372036854775808
    → (h : ℕ) × (health_indicator e ≡ some (pos h)) × Indicates e n r h
health_indicator_range e n r c t b = elim (health_cases e n r c t) [
  | inl u ↦
      let small = share_lt n r u.1 in
      (
        100 - n * 100 / r,
        up_indicator e n r c t b u,
        (omega arith, (λ p. u, λ v. omega (arith, small)), λ v. refl),
      )
  | inr (down, h) ↦ (0, h, down-Indicates e n r down)
]
