-- ===== src/Engine/Life.antt =====
-- Disconnect, and all engines that the operations reach.
use classicswarm.Prelude.{
  ◌≡◌, ◌≢◌, refl, sym, subst, ◌∙◌, inl, inr, true, false, [], Option, none, some, arith, Bool-cases,
}
use classicswarm.Text.{Str, codes}
use classicswarm.Int64.{ℤ, pos, ltb_ℤ}
use classicswarm.Engine.{
  Engine, pending, unhealthy, healthy, disconnected, Monitor, absent, running, stopped, ApiError,
  Response, answered, failed, new_engine, emit_event, validation_complete, set_err_msg,
  handle_id_conflict, inc_failure_count, is_connection_error, come_back, reset_failure_count,
  check_connection_err, stopped_engine, stop_engine, disconnect,
}
use classicswarm.Engine.Specs.{Specs, update_specs}
use classicswarm.Engine.Steps.{
  with_client, register_event_handler, IsFailed, Step, registers, connects, checks, updates,
  validates, conflicts, disconnects, IsNoReturn, IsWithoutReturn, Steps, here, next, is_stopped,
  sound, IsSound, new_engine-IsSound, is_pending, is_unhealthy, is_healthy, is_disconnected,
  state_cases,
}
use classicswarm.Engine.Soundness.{
  emit_event-IsSound, check_connection_err-IsSound, validation_complete-IsSound,
  update_specs-IsSound,
}

-- What a sound engine with a monitor is when it has been disconnected.
pub record Stopped (e f : Engine) : Type 0 where
  pub run : disconnect e ≡ some f
  pub state : f.state ≡ disconnected
  pub connected : f.connected ≡ false
  pub stop_closed : f.stop_closed ≡ true
  pub again : disconnect f ≡ some f

stop_monitor_some : (m : Monitor) → m ≢ absent → is_stopped m ≡ false → m ≡ running
unfolding is_stopped
stop_monitor_some absent p q = absurd (p refl)
stop_monitor_some running p q = refl
stop_monitor_some stopped p q = cc

live_engine :
    (e : Engine)
    → IsSound e
    → e.state ≢ disconnected
    → (e.stop_closed ≡ false) × (is_stopped e.monitor ≡ false) × (disconnect e ≡ stop_engine e)
unfolding sound disconnect
live_engine e (s, r) n = elim (state_cases e) [
  | is_pending h ↦ (ground arith, ground arith, rw (h, disconnect) refl)
  | is_unhealthy h ↦ (ground arith, ground arith, rw (h, disconnect) refl)
  | is_healthy h ↦ (ground arith, ground arith, rw (h, disconnect) refl)
  | is_disconnected h ↦ absurd (n h)
]

emit_event_fields :
    (event : Str) (e : Engine)
    → ((emit_event event e).state ≡ e.state)
      × ((emit_event event e).connected ≡ e.connected)
      × ((emit_event event e).stop_closed ≡ e.stop_closed)
unfolding emit_event
emit_event_fields event e = elim (Bool-cases e.has_handler) [
  | inl h ↦ rw (h, emit_event) (refl, refl, refl)
  | inr h ↦ rw (h, emit_event) (refl, refl, refl)
]

disconnect_again : (e : Engine) → e.state ≡ disconnected → disconnect e ≡ some e
unfolding disconnect
disconnect_again e h = ground arith

live-Stopped :
    (e : Engine)
    → IsSound e
    → e.monitor ≢ absent
    → e.state ≢ disconnected
    → Stopped e (stopped_engine e)
unfolding stopped_engine stop_engine
live-Stopped e s m n =
    let (open_still, going, d) = live_engine e s n in
    let (a, b, c) = emit_event_fields (codes "engine_disconnect") (record e {
      stop_closed = true;
      monitor = stopped;
      connected = false;
      state = disconnected;
    }) in
    record {
      run = d ∙ rw (open_still, stop_engine, stop_monitor_some e.monitor m going) refl;
      state = a;
      connected = b;
      stop_closed = c;
      again = disconnect_again (stopped_engine e) a;
    }

-- Disconnect of a sound engine that was connected once does not panic: it succeeds, and leaves an
-- engine that is disconnected, has no client and whose refresh loop is told to stop; a second
-- Disconnect changes nothing.
pub disconnect-Stopped : (e : Engine) → IsSound e → e.monitor ≢ absent → (f : Engine) × Stopped e f
unfolding sound
disconnect-Stopped e s m = elim (state_cases e) [
  | is_pending h ↦
      (stopped_engine e, live-Stopped e s m (λ q. let r : pending ≡ disconnected = sym h ∙ q in cc))
  | is_unhealthy h ↦ (
    stopped_engine e,
    live-Stopped e s m (λ q. let r : unhealthy ≡ disconnected = sym h ∙ q in cc),
  )
  | is_healthy h ↦
      (stopped_engine e, live-Stopped e s m (λ q. let r : healthy ≡ disconnected = sym h ∙ q in cc))
  | is_disconnected h ↦
      let sure = s.0 in
      (
        e,
        record {
          run = disconnect_again e h;
          state = h;
          connected = ground arith;
          stop_closed = ground arith;
          again = disconnect_again e h;
        },
      )
]

stopped_engine-IsSound : (e : Engine) → IsSound e → IsSound (stopped_engine e)
unfolding stopped_engine sound
stopped_engine-IsSound e (s, r) = emit_event-IsSound _ _ (refl, r)

disconnect-IsSound : (e f : Engine) → IsSound e → disconnect e ≡ some f → IsSound f
unfolding stop_engine
disconnect-IsSound e f s h = elim (state_cases e) [
  | is_disconnected p ↦
      let same : e ≡ f = let q = disconnect_again e p in cc in subst IsSound same s
  | is_pending p ↦ live (λ q. let r : pending ≡ disconnected = sym p ∙ q in cc)
  | is_unhealthy p ↦ live (λ q. let r : unhealthy ≡ disconnected = sym p ∙ q in cc)
  | is_healthy p ↦ live (λ q. let r : healthy ≡ disconnected = sym p ∙ q in cc)
]
  where
    by_monitor :
        (m : Monitor) → e.monitor ≡ m → stop_engine e ≡ some f → e.stop_closed ≡ false → IsSound f
    by_monitor absent q k c = absurd (ground arith)
    by_monitor stopped q k c = absurd (ground arith)
    by_monitor running q k c =
        let done : some (stopped_engine e) ≡ some f = rw (c, stop_engine, q) at k in
        let same : stopped_engine e ≡ f = cc in subst IsSound same (stopped_engine-IsSound e s)

    live : e.state ≢ disconnected → IsSound f
    live n = let (c, g, d) = live_engine e s n in by_monitor e.monitor refl (sym d ∙ h) c

registered-IsSound : (e f : Engine) → IsSound e → register_event_handler e ≡ some f → IsSound f
unfolding register_event_handler
registered-IsSound e f s h = elim (Bool-cases e.has_handler) [
  | inl p ↦ absurd (ground arith)
  | inr p ↦ let same : record e { has_handler = true } ≡ f = ground arith in subst IsSound same s
]

connected-IsSound : (e : Engine) → e.state ≢ disconnected → IsSound e → IsSound (with_client e)
unfolding with_client sound
connected-IsSound e n (s, r) = elim (state_cases e) [
  | is_pending h ↦ (rw h (ground arith), r)
  | is_unhealthy h ↦ (rw h (ground arith), r)
  | is_healthy h ↦ (rw h (ground arith), r)
  | is_disconnected h ↦ absurd (n h)
]

step-IsSound : {e f : Engine} → IsSound e → (step : Step e f) → IsNoReturn e f step → IsSound f
step-IsSound {e} s (registers f h) k = registered-IsSound e f s h
step-IsSound {e} s connects k = connected-IsSound e k s
step-IsSound {e} s (checks now x) k = check_connection_err-IsSound now x e s
step-IsSound {e} s (updates now delta specs version c) k =
    update_specs-IsSound now delta specs version e c s
step-IsSound {e} s validates k = validation_complete-IsSound e s
step-IsSound {e} s (conflicts now other) k = unfold handle_id_conflict set_err_msg in s
step-IsSound {e} s (disconnects f h) k = disconnect-IsSound e f s h

-- From a new engine whose allowed number of failures is positive, the steps reach sound engines
-- only, unless one of them connects the engine again after its Disconnect: an engine is
-- disconnected exactly if its refresh loop was told to stop, then it has no client, and a healthy
-- engine has failed fewer times than it may.
pub Steps-IsSound :
    (addr : Str) (ratio retry now : ℤ) (e : Engine)
    → ltb_ℤ (pos 0) retry ≡ true
    → (steps : Steps (new_engine addr ratio retry now) e)
    → IsWithoutReturn (new_engine addr ratio retry now) e steps
    → IsSound e
Steps-IsSound addr ratio retry now e h here k = new_engine-IsSound addr ratio retry now h
Steps-IsSound addr ratio retry now e h (next w s) k =
    step-IsSound (Steps-IsSound addr ratio retry now _ h w k.0) s k.1

come_back_stays : (e : Engine) → e.state ≡ disconnected → (come_back e).state ≡ disconnected
unfolding come_back
come_back_stays e h = ground arith

inc_stays : (e : Engine) → e.state ≡ disconnected → (inc_failure_count e).state ≡ disconnected
unfolding inc_failure_count
inc_stays e h = ground arith

check_stays :
    (now : ℤ) (x : Option ApiError) (e : Engine)
    → e.state ≡ disconnected
    → (check_connection_err now x e).state ≡ disconnected
unfolding check_connection_err set_err_msg reset_failure_count
check_stays now none e h = come_back_stays (set_err_msg now [] e) h
check_stays now (some x) e h = elim (Bool-cases (is_connection_error x)) [
  | inl p ↦ rw (p, check_connection_err) (inc_stays e h)
  | inr p ↦ rw (p, check_connection_err) h
]

offline : (e : Engine) → IsSound e → e.state ≡ disconnected → e.connected ≡ false
unfolding sound
offline e (s, r) h = ground arith

update_stays :
    (now delta : ℤ) (specs : Response Specs) (version : Response Str) (e : Engine)
    → IsFailed specs
    → e.state ≡ disconnected
    → (update_specs now delta specs version e).0.state ≡ disconnected
unfolding update_specs
update_stays now delta (failed x) version e f h = check_stays now (some x) e h
update_stays now delta (answered s) version e f h = absurd f

step_stays :
    {e f : Engine}
    → IsSound e
    → e.state ≡ disconnected
    → (step : Step e f) → IsNoReturn e f step
    → f.state ≡ disconnected
unfolding register_event_handler validation_complete
step_stays {e} s h (registers f k) u = elim (Bool-cases e.has_handler) [
  | inl p ↦ absurd (ground arith)
  | inr p ↦
      let same : record e { has_handler = true } ≡ f = ground arith in
      subst (λ g. g.state ≡ disconnected) same h
]
step_stays {e} s h connects u = absurd (u h)
step_stays {e} s h (checks now x) u = check_stays now x e h
step_stays {e} s h (updates now delta specs version c) u =
    update_stays now delta specs version e (c (offline e s h)) h
step_stays {e} s h validates u = ground arith
step_stays {e} s h (conflicts now other) u = unfold handle_id_conflict set_err_msg in h
step_stays {e} s h (disconnects f k) u =
    let same : e ≡ f = let q = disconnect_again e h in cc in
    subst (λ g. g.state ≡ disconnected) same h

-- No sequence of steps takes a sound engine that is disconnected into another state, unless one of
-- them connects it again.
pub disconnected_stays :
    (e f : Engine)
    → IsSound e
    → e.state ≡ disconnected
    → (steps : Steps e f) → IsWithoutReturn e f steps
    → f.state ≡ disconnected
disconnected_stays e f s h w k = (both w k).1
  where
    both :
        {f : Engine} (w : Steps e f) → IsWithoutReturn e f w → IsSound f × (f.state ≡ disconnected)
    both here k = (s, h)
    both (next w t) k = let (a, b) = both w k.0 in (step-IsSound a t k.1, step_stays a b t k.1)
