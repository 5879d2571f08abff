-- ===== src/Engine/Backoff.antt =====
-- When a pending engine is due for another validation, and how long the refresh loop of a failing
-- engine waits.
use native.Mathlib.Nat.{pow-le-pow_right, mul-le-mul_left}
use classicswarm.Prelude.{
  ℕ, ◌+◌, ◌-◌, ◌*◌, ◌^◌, ◌≤◌, ◌<◌, ◌≡◌, refl, ◌⊎◌, inl, inr, ◌↔◌, true, false, Bool-cases, ltb,
  arith, if◌then◌else◌,
}
use classicswarm.Int64.{ℤ, pos, negsuc, ◌+ℤ◌, ◌-ℤ◌, ◌*ℤ◌, wrap, plus, times, ltb_ℤ}
use classicswarm.Strategy.Measure.{+ℤ-pos, *ℤ-pos}
use classicswarm.Engine.{Engine, pending, shifted, time_to_validate, backoff_factor, wait_period}

pow_small : (n : ℕ) → n ≤ 33 → 2 ^ n ≤ 8589934592
pow_small n h =
    let le : 2 ^ n ≤ 2 ^ 33 = pow-le-pow_right {n = 2} (omega arith) h in omega (arith, le)

shifted_small : (n : ℕ) → n ≤ 33 → shifted (pos n) ≡ pos (2 ^ n)
unfolding shifted wrap
shifted_small n h = let small = pow_small n h in ground arith

elapsed : (u d : ℕ) → u + d < 9223372036854775808 → pos (u + d) -ℤ pos u ≡ pos d
unfolding ◌-ℤ◌
elapsed u d h = ground arith

-- A pending engine that failed n times, n being at most 33, is due d nanoseconds after it was
-- updated exactly if d is more than four hours, or more than 2 to the n seconds and 30 seconds.
pub time_to_validate_iff :
    (e : Engine) (n u d : ℕ)
    → e.state ≡ pending
    → e.failure_count ≡ pos n
    → n ≤ 33
    → e.updated_at ≡ pos u
    → u + d < 9223372036854775808
    → (time_to_validate (pos (u + d)) e ≡ true)
      ↔ ((14400000000000 < d) ⊎ (2 ^ n * 1000000000 + 30000000000 < d))
unfolding time_to_validate
time_to_validate_iff e n u d p c h t b =
    let small = pow_small n h in
    rw
      (
        p,
        time_to_validate,
        c,
        t,
        elapsed u d b,
        shifted_small n h,
        *ℤ-pos (2 ^ n) 1000000000 (omega arith),
        +ℤ-pos (2 ^ n * 1000000000) 30000000000 (omega arith),
      )
      (λ q. ground arith, λ q. ground arith)

-- A pending engine that failed 34 times is due at once: the waiting time has wrapped around.
pub time_to_validate_overflow :
    (e : Engine) (u d : ℕ)
    → e.state ≡ pending
    → e.failure_count ≡ pos 34
    → e.updated_at ≡ pos u
    → u + d < 9223372036854775808
    → time_to_validate (pos (u + d)) e ≡ true
unfolding time_to_validate shifted wrap ◌+ℤ◌ ◌*ℤ◌ plus times
time_to_validate_overflow e u d p c t b =
    rw (p, time_to_validate, c, t, elapsed u d b) (ground arith)

clamp_range :
    (x : ℤ)
    → (k : ℕ) × ((if ltb_ℤ x (pos 0) then pos 0 else if ltb_ℤ (pos 1000) x then pos 1000 else x)
        ≡ pos k)
      × (k ≤ 1000)
clamp_range (pos n) = elim (Bool-cases (ltb 1000 n)) [
  | inl h ↦ (1000, ground arith, omega arith)
  | inr h ↦ (n, ground arith, ground arith)
]
clamp_range (negsuc n) = (0, ground arith, omega arith)

factor_range : (e : Engine) → (k : ℕ) × (backoff_factor e ≡ pos k) × (k ≤ 1000)
unfolding backoff_factor
factor_range e = clamp_range (e.failure_count -ℤ e.failure_retry)

difference : (a b : ℕ) → a < 9223372036854775808 → b ≤ a → pos a -ℤ pos b ≡ pos (a - b)
unfolding ◌-ℤ◌
difference a b h l = ground arith

longer : (a b : ℕ) → b < 9223372036854775808 → a ≤ b → ltb_ℤ (pos 0) (pos a -ℤ pos b) ≡ false
unfolding ◌-ℤ◌
longer a b h l = ground arith

module _ (int63n : ℤ → ℤ) (lo hi k : ℕ) (le : k ≤ 1000)
    (small : lo * 1001 + hi < 9223372036854775808) where
  multiple : lo * (1 + k) ≤ lo * 1001
  multiple = mul-le-mul_left lo (omega (arith, le))

  base_period : pos lo *ℤ (pos 1 +ℤ pos k) ≡ pos (lo * (1 + k))
  base_period =
      rw (+ℤ-pos 1 k (omega (arith, le))) (*ℤ-pos lo (1 + k) (omega (arith, multiple, small)))

  flat_period : hi ≤ lo → wait_period int63n (pos lo) (pos hi) (pos k) ≡ pos (lo * (1 + k))
  unfolding wait_period
  flat_period h = rw (base_period, longer hi lo (omega (arith, small)) h) refl

  random_period :
      (j : ℕ)
      → lo < hi
      → int63n (pos (hi - lo)) ≡ pos j
      → j < hi - lo
      → wait_period int63n (pos lo) (pos hi) (pos k) ≡ pos (lo * (1 + k) + j)
  unfolding wait_period
  random_period j l r b =
      rw (base_period, difference hi lo (omega (arith, small)) (omega (arith, l)), r)
        (ground (arith, +ℤ-pos (lo * (1 + k)) j (omega (arith, multiple, small, b))))

-- Whatever the failures are, the backoff factor is a number k from 0 to 1000. With a shortest
-- period of lo and a longest one of hi, where nothing wraps around and the random source keeps to
-- its bound, the refresh loop waits at least lo * (1 + k), and less than lo * k + hi if lo is below
-- hi.
pub wait_period_range :
    (int63n : ℤ → ℤ) (e : Engine) (lo hi : ℕ)
    → ((d : ℕ) → 0 < d → (j : ℕ) × (int63n (pos d) ≡ pos j) × (j < d))
    → lo * 1001 + hi < 9223372036854775808
    → (k : ℕ) × (p : ℕ) × (backoff_factor e ≡ pos k)
      × (k ≤ 1000)
      × (wait_period int63n (pos lo) (pos hi) (backoff_factor e) ≡ pos p)
      × (lo * (1 + k) ≤ p)
      × ((p ≡ lo * (1 + k)) ⊎ (p < lo * k + hi))
wait_period_range int63n e lo hi bounded h =
    let (k, f, le) = factor_range e in
    elim (Bool-cases (ltb lo hi)) [
      | inl less ↦
          let (j, r, small) = bounded (hi - lo) (ground arith) in
          (
            k,
            lo * (1 + k) + j,
            f,
            le,
            rw f (random_period int63n lo hi k le h j (ground arith) r small),
            omega arith,
            inr (omega (arith, small)),
          )
      | inr same ↦ (
        k,
        lo * (1 + k),
        f,
        le,
        rw f (flat_period int63n lo hi k le h (ground arith)),
        omega arith,
        inl refl,
      )
    ]
