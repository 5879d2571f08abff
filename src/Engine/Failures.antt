-- ===== src/Engine/Failures.antt =====
-- CheckConnectionErr over a run of failures: when an engine is given up, and how it comes back.
use mathlib.Core.List.{append_assoc, append-nil}
use classicswarm.Prelude.{
  ℕ, suc, ◌≤◌, ◌<◌, ◌≡◌, refl, ◌∙◌, ap, inl, inr, true, false, List, [], ◌∷◌, ◌++◌, none, some,
  arith, Bool-cases, leb, ltb, length, all, if◌then◌else◌,
}
use classicswarm.Text.{Str, codes}
use classicswarm.Int64.{ℤ, pos, ◌+ℤ◌}
use classicswarm.Strategy.Measure.{+ℤ-pos}
use classicswarm.Engine.{
  Engine, healthy, unhealthy, ApiError, emit_event, set_err_msg, inc_failure_count,
  is_connection_error, come_back, reset_failure_count, check_connection_err,
}

-- An engine with a handler after n failures in a row, of r allowed, whose emitted events were
-- `before` at first.
pub data Failing (r : ℕ) (before : List Str) (n : ℕ) (e : Engine) : Type 0 where
  still_up : n < r → e.state ≡ healthy → e.emitted ≡ before → Failing r before n e
  given_up :
      r ≤ n
      → e.state ≡ unhealthy
      → e.emitted ≡ before ++ codes "engine_disconnect" ∷ []
      → Failing r before n e

abbrev pub Counts : ℕ → ℕ → Engine → Type 0
Counts r n e = (e.failure_count ≡ pos n) × (e.failure_retry ≡ pos r) × (e.has_handler ≡ true)

module _ (r : ℕ) (before : List Str) (n : ℕ) (e : Engine)
    (small : suc n < 9223372036854775808) where
  count_more : e.failure_count ≡ pos n → e.failure_count +ℤ pos 1 ≡ pos (suc n)
  count_more c = rw (c, +ℤ-pos n 1 (omega (arith, small))) (ap pos (omega arith))

  inc_first :
      Counts r n e
      → n < r
      → e.state ≡ healthy
      → e.emitted ≡ before
      → Counts r (suc n) (inc_failure_count e) × Failing r before (suc n) (inc_failure_count e)
  unfolding inc_failure_count emit_event
  inc_first (c, t, h) l s m =
      let q = count_more c in
      elim (Bool-cases (leb r (suc n))) [
        | inl p ↦ (ground arith, given_up (ground arith) (ground arith) (ground arith))
        | inr p ↦ (ground arith, still_up (ground arith) (ground arith) (ground arith))
      ]

  inc_later :
      Counts r n e
      → r ≤ n
      → e.state ≡ unhealthy
      → e.emitted ≡ before ++ codes "engine_disconnect" ∷ []
      → Counts r (suc n) (inc_failure_count e) × Failing r before (suc n) (inc_failure_count e)
  unfolding inc_failure_count
  inc_later (c, t, h) l s m =
      let q = count_more c in
      (ground arith, given_up (omega (arith, l)) (ground arith) (ground arith))

  inc-Failing :
      Counts r n e
      → Failing r before n e
      → Counts r (suc n) (inc_failure_count e) × Failing r before (suc n) (inc_failure_count e)
  inc-Failing c (still_up l s m) = inc_first c l s m
  inc-Failing c (given_up l s m) = inc_later c l s m

message_kept :
    (r : ℕ) (before : List Str) (n : ℕ) (now : ℤ) (text : Str) (e : Engine)
    → Counts r n e × Failing r before n e
    → Counts r n (set_err_msg now text e) × Failing r before n (set_err_msg now text e)
unfolding set_err_msg
message_kept r before n now text e (c, still_up l s m) = (c, still_up l s m)
message_kept r before n now text e (c, given_up l s m) = (c, given_up l s m)

-- The times and the errors of a run of failures, the last one first.
unfoldable pub failures : List (ℤ × ApiError) → Engine → Engine
unfolding check_connection_err
failures [] e = e
failures ((now, x) ∷ xs) e = check_connection_err now (some x) (failures xs e)

-- A healthy engine with a handler and no failures, of which it may have r, r being positive: after
-- a run of connection errors that is shorter than r it is healthy, and no event was emitted; after
-- any other run it is unhealthy, and exactly one engine_disconnect was emitted. Its failures are
-- counted.
pub failures-Failing :
    (r : ℕ) (e : Engine) (xs : List (ℤ × ApiError))
    → 0 < r
    → e.state ≡ healthy
    → Counts r 0 e
    → all (λ x. is_connection_error x.1) xs ≡ true
    → length xs < 9223372036854775808
    → Counts r (length xs) (failures xs e) × Failing r e.emitted (length xs) (failures xs e)
unfolding failures all
failures-Failing r e [] l s c a b = (c, still_up l s refl)
failures-Failing r e ((now, x) ∷ xs) l s c a b =
    let (d, f) = failures-Failing r e xs l s c (ground arith) (omega (arith, b)) in
    let p : is_connection_error x ≡ true = ground arith in
    unfold check_connection_err in
    rw p (
      message_kept r e.emitted (suc (length xs)) now x.text (inc_failure_count (failures xs e))
        (inc-Failing r e.emitted (length xs) (failures xs e) b d f))

-- What a success makes of an engine.
pub record Recovered (before after : List Str) (f : Engine) : Type 0 where
  pub state : f.state ≡ healthy
  pub failure_count : f.failure_count ≡ pos 0
  pub emitted : f.emitted ≡ before ++ after

abbrev pub outage : List Str
outage = codes "engine_disconnect" ∷ codes "engine_reconnect" ∷ []

recover_up :
    (e : Engine) (before : List Str)
    → e.state ≡ healthy
    → e.emitted ≡ before
    → Recovered before [] (reset_failure_count (come_back e))
unfolding come_back reset_failure_count
recover_up e before s m = record {
  state = ground arith;
  failure_count = refl;
  emitted = ground (arith, append-nil before);
}

reconnect_last :
    (e : Engine)
    → e.has_handler ≡ true
    → e.state ≡ unhealthy
    → (come_back e).emitted ≡ e.emitted ++ codes "engine_reconnect" ∷ []
unfolding come_back emit_event
reconnect_last e h s = ground arith

recover_down :
    (e : Engine) (before : List Str)
    → e.has_handler ≡ true
    → e.state ≡ unhealthy
    → e.emitted ≡ before ++ codes "engine_disconnect" ∷ []
    → Recovered before outage (reset_failure_count (come_back e))
unfolding come_back reset_failure_count emit_event
recover_down e before h s m = record {
  state = ground arith;
  failure_count = refl;
  emitted =
      reconnect_last e h s
      ∙ ap (λ l. l ++ codes "engine_reconnect" ∷ []) m
      ∙ append_assoc before (codes "engine_disconnect" ∷ []) (codes "engine_reconnect" ∷ []);
}

-- After such a run of connection errors one success makes the engine healthy without failures; the
-- events are none if the run was shorter than r, and otherwise one engine_disconnect and then one
-- engine_reconnect.
pub failures-Recovered :
    (r : ℕ) (e : Engine) (xs : List (ℤ × ApiError)) (now : ℤ)
    → 0 < r
    → e.state ≡ healthy
    → Counts r 0 e
    → all (λ x. is_connection_error x.1) xs ≡ true
    → length xs < 9223372036854775808
    → Recovered e.emitted
        (if ltb (length xs) r then [] else outage)
        (check_connection_err now none (failures xs e))
unfolding check_connection_err set_err_msg
failures-Recovered r e xs now l s c a b =
    let (d, f) = failures-Failing r e xs l s c a b in recovered (failures xs e) d f
  where
    recovered :
        (f : Engine)
        → Counts r (length xs) f
        → Failing r e.emitted (length xs) f
        → Recovered e.emitted
            (if ltb (length xs) r then [] else outage)
            (reset_failure_count (come_back (set_err_msg now [] f)))
    recovered f d (still_up k s m) =
        let p : ltb (length xs) r ≡ true = ground arith in
        rw p (recover_up (set_err_msg now [] f) e.emitted s m)
    recovered f d (given_up k s m) =
        let p : ltb (length xs) r ≡ false = ground arith in
        rw p (recover_down (set_err_msg now [] f) e.emitted d.2 s m)
