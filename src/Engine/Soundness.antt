-- ===== src/Engine/Soundness.antt =====
-- What the answers of the API make of a sound engine.
use classicswarm.Prelude.{
  ◌≡◌, refl, ◌∙◌, inl, inr, true, false, not, ◌&&◌, ◌||◌, [], ◌++◌, Option, none, some, arith,
  is_empty, Bool-cases,
}
use classicswarm.Text.{Str, codes, str_eq}
use classicswarm.Int64.{ℤ, pos, eqb_ℤ}
use classicswarm.Engine.{
  Engine, ApiError, Response, answered, failed, emit_event, validation_complete, set_err_msg,
  inc_failure_count, is_connection_error, come_back, reset_failure_count, check_connection_err,
}
use classicswarm.Engine.Specs.{Specs, identify, store_specs, ask_version, update_specs}
use classicswarm.Engine.Steps.{
  IsFailed, is_stopped, sound, IsSound, is_pending, is_unhealthy, is_healthy, is_disconnected,
  state_cases,
}

pub emit_event-IsSound : (event : Str) (e : Engine) → IsSound e → IsSound (emit_event event e)
unfolding emit_event
emit_event-IsSound event e s = elim (Bool-cases e.has_handler) [
  | inl h ↦ rw (h, emit_event) s
  | inr h ↦ rw (h, emit_event) s
]

come_back-IsSound : (e : Engine) → IsSound e → IsSound (reset_failure_count (come_back e))
unfolding come_back reset_failure_count sound emit_event
come_back-IsSound e (s, r) = elim (state_cases e) [
  | is_pending h ↦ rw (h, come_back, reset_failure_count) (ground arith)
  | is_unhealthy h ↦ rw (h, come_back, reset_failure_count) (ground arith)
  | is_healthy h ↦ rw (h, come_back, reset_failure_count) (ground arith)
  | is_disconnected h ↦ rw (h, come_back, reset_failure_count) (ground arith)
]

inc_failure_count-IsSound : (e : Engine) → IsSound e → IsSound (inc_failure_count e)
unfolding inc_failure_count sound emit_event
inc_failure_count-IsSound e (s, r) = elim (state_cases e) [
  | is_pending h ↦ rw (h, inc_failure_count) (ground arith)
  | is_unhealthy h ↦ rw (h, inc_failure_count) (ground arith)
  | is_healthy h ↦ rw (h, inc_failure_count) (ground arith)
  | is_disconnected h ↦ rw (h, inc_failure_count) (ground arith)
]

pub check_connection_err-IsSound :
    (now : ℤ) (x : Option ApiError) (e : Engine)
    → IsSound e
    → IsSound (check_connection_err now x e)
unfolding check_connection_err set_err_msg
check_connection_err-IsSound now none e s = come_back-IsSound (set_err_msg now [] e) s
check_connection_err-IsSound now (some x) e s = elim (Bool-cases (is_connection_error x)) [
  | inl h ↦ rw (h, check_connection_err) (inc_failure_count-IsSound e s)
  | inr h ↦ rw (h, check_connection_err) s
]

pub validation_complete-IsSound : (e : Engine) → IsSound e → IsSound (validation_complete e)
unfolding validation_complete sound
validation_complete-IsSound e (s, r) = elim (state_cases e) [
  | is_pending h ↦ rw (h, validation_complete) (ground arith)
  | is_unhealthy h ↦ rw (h, validation_complete) (ground arith)
  | is_healthy h ↦ rw (h, validation_complete) (ground arith)
  | is_disconnected h ↦ rw (h, validation_complete) (ground arith)
]

come_back-connected : (e : Engine) → (come_back e).connected ≡ e.connected
unfolding come_back emit_event
come_back-connected e = elim (state_cases e) [
  | is_pending h ↦ rw (h, come_back) refl
  | is_unhealthy h ↦ rw (h, come_back) (ground arith)
  | is_healthy h ↦ rw (h, come_back) refl
  | is_disconnected h ↦ rw (h, come_back) refl
]

connected_kept : (now : ℤ) (e : Engine) → (check_connection_err now none e).connected ≡ e.connected
unfolding check_connection_err set_err_msg reset_failure_count
connected_kept now e = come_back-connected (set_err_msg now [] e)

identify-IsSound :
    (delta : ℤ) (s : Specs) (e : Engine)
    → e.connected ≡ true
    → IsSound e
    → IsSound (identify delta s e).0
unfolding identify store_specs sound
identify-IsSound delta s e c (h, r) = elim (Bool-cases (is_empty e.id)) [
  | inl p ↦ rw (p, identify) (h, r)
  | inr p ↦ elim (Bool-cases (str_eq e.id (s.id ++ (codes "|" ++ e.addr)))) [
    | inl q ↦ rw (p, identify, q) (h, r)
    | inr q ↦ rw (p, identify, q) (alive e c h, r)
  ]
]
  where
    alive :
        (e : Engine)
        → e.connected ≡ true
        → sound e.state e.stop_closed e.connected e.monitor e.failure_count e.failure_retry ≡ true
        → (not e.stop_closed && not (is_stopped e.monitor)) ≡ true
    alive e c h = elim (state_cases e) [
      | is_pending p ↦ ground arith
      | is_unhealthy p ↦ ground arith
      | is_healthy p ↦ ground arith
      | is_disconnected p ↦ ground arith
    ]

pub update_specs-IsSound :
    (now delta : ℤ) (specs : Response Specs) (version : Response Str) (e : Engine)
    → (e.connected ≡ false → IsFailed specs)
    → IsSound e
    → IsSound (update_specs now delta specs version e).0
unfolding update_specs ask_version
update_specs-IsSound now delta (failed x) version e c h =
    check_connection_err-IsSound now (some x) e h
update_specs-IsSound now delta (answered s) version e c h =
    elim (Bool-cases (eqb_ℤ s.ncpu (pos 0) || eqb_ℤ s.mem_total (pos 0))) [
      | inl p ↦ rw (p, update_specs) (check_connection_err-IsSound now none e h)
      | inr p ↦ rw (p, update_specs) (asked version)
    ]
  where
    online : e.connected ≡ true
    online = elim (Bool-cases e.connected) [ inl p ↦ p | inr p ↦ absurd (c p) ]

    f : Engine
    f = check_connection_err now none e

    asked : (version : Response Str) → IsSound (ask_version now delta s version f).0
    asked (failed x) =
        check_connection_err-IsSound now (some x) f (check_connection_err-IsSound now none e h)
    asked (answered v) =
        let g = check_connection_err now none f in
        identify-IsSound delta s (record g { version = v })
          (connected_kept now f ∙ connected_kept now e ∙ online)
          (check_connection_err-IsSound now none f (check_connection_err-IsSound now none e h))
