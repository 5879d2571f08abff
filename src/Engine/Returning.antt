-- ===== src/Engine/Returning.antt =====
-- An engine that is connected again after its Disconnect (cluster/engine.go, and
-- validatePendingEngine of cluster/swarm/cluster.go).
use classicswarm.Prelude.{
  ◌≡◌, ◌≢◌, refl, sym, ap, ◌∙◌, true, false, ◌||◌, [], ◌∷◌, ◌++◌, none, arith, is_empty,
}
use classicswarm.Text.{Str, codes, str_eq}
use classicswarm.Text.Laws.{str_eq_iff}
use classicswarm.Int64.{ℤ, pos, eqb_ℤ}
use classicswarm.Engine.{
  Engine, pending, disconnected, answered, emit_event, set_err_msg, come_back, reset_failure_count,
  check_connection_err, stop_engine, disconnect,
}
use classicswarm.Engine.Specs.{Specs, identify, ask_version, update_specs}
use classicswarm.Engine.Steps.{
  with_client, sound, IsSound, is_pending, is_unhealthy, is_healthy, is_disconnected, state_cases,
}

-- An engine that is pending although its refresh loop was told to stop, and whose Disconnect
-- panics.
pub record Returned (f : Engine) : Type 0 where
  pub state : f.state ≡ pending
  pub stop_closed : f.stop_closed ≡ true
  pub panics : disconnect f ≡ none

pending-Returned : (f : Engine) → f.state ≡ pending → f.stop_closed ≡ true → Returned f
unfolding disconnect stop_engine
pending-Returned f h c = record { state = h; stop_closed = c; panics = rw (h, disconnect, c) refl }

nonempty : (s : Str) → s ≢ [] → is_empty s ≡ false
unfolding is_empty
nonempty [] h = absurd (h refl)
nonempty (b ∷ s) h = refl

come_back-kept :
    (e : Engine)
    → ((come_back e).id ≡ e.id)
      × ((come_back e).addr ≡ e.addr)
      × ((come_back e).stop_closed ≡ e.stop_closed)
unfolding come_back emit_event
come_back-kept e = elim (state_cases e) [
  | is_pending h ↦ rw (h, come_back) (refl, refl, refl)
  | is_unhealthy h ↦ rw (h, come_back) (ground arith)
  | is_healthy h ↦ rw (h, come_back) (refl, refl, refl)
  | is_disconnected h ↦ rw (h, come_back) (refl, refl, refl)
]

answer-kept :
    (now : ℤ) (e : Engine)
    → ((check_connection_err now none e).id ≡ e.id)
      × ((check_connection_err now none e).addr ≡ e.addr)
      × ((check_connection_err now none e).stop_closed ≡ e.stop_closed)
unfolding check_connection_err set_err_msg reset_failure_count
answer-kept now e = come_back-kept (set_err_msg now [] e)

identify-Returned :
    (delta : ℤ) (s : Specs) (e : Engine)
    → e.stop_closed ≡ true
    → e.id ≢ []
    → e.id ≢ s.id ++ (codes "|" ++ e.addr)
    → Returned (identify delta s e).0
unfolding identify
identify-Returned delta s e closed known other =
    let p : is_empty e.id ≡ false = nonempty e.id known in
    let q : str_eq e.id (s.id ++ (codes "|" ++ e.addr)) ≡ false =
      ground (arith, str_eq_iff e.id (s.id ++ (codes "|" ++ e.addr))) in
    rw (p, identify, q) (pending-Returned _ refl closed)

-- A sound engine that is disconnected, known by its ID, and then connected again to a daemon that
-- has another ID and tells its resources and version: it is pending with its stop channel closed,
-- and the next Disconnect panics, as it closes the channel again.
pub disconnect_after_return :
    (e : Engine) (now delta : ℤ) (s : Specs) (version : Str)
    → IsSound e
    → e.state ≡ disconnected
    → e.id ≢ []
    → (eqb_ℤ s.ncpu (pos 0) || eqb_ℤ s.mem_total (pos 0)) ≡ false
    → e.id ≢ s.id ++ (codes "|" ++ e.addr)
    → Returned (update_specs now delta (answered s) (answered version) (with_client e)).0
unfolding update_specs ask_version with_client sound
disconnect_after_return e now delta s version (sure, r) h known resources other =
    let closed : e.stop_closed ≡ true = ground arith in
    let once = check_connection_err now none (with_client e) in
    let (a, b, c) = answer-kept now (with_client e) in
    let (i, j, k) = answer-kept now once in
    let twice = check_connection_err now none once in
    rw (resources, update_specs)
      (identify-Returned delta s (record twice { version = version }) (k ∙ c ∙ closed)
        (λ g. known (sym (i ∙ a) ∙ g))
        (λ g. other (sym (i ∙ a) ∙ g ∙ ap (λ d. s.id ++ (codes "|" ++ d)) (j ∙ b))))
