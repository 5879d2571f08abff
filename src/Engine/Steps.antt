-- ===== src/Engine/Steps.antt =====
-- The life of an engine: the operations as steps, one after the other, and what holds of every
-- engine that they reach. The client of a disconnected engine answers every request with an error
-- (api/nopclient).
use classicswarm.Prelude.{
  ◌≡◌, ◌≢◌, refl, Bool, true, false, not, ◌&&◌, Option, none, some, if◌then◌else◌,
}
use classicswarm.Text.{Str}
use classicswarm.Int64.{ℤ, pos, ltb_ℤ}
use classicswarm.Engine.{
  Engine, EngineState, pending, unhealthy, healthy, disconnected, Monitor, absent, running, stopped,
  ApiError, Response, answered, failed, new_engine, validation_complete, handle_id_conflict,
  check_connection_err, disconnect,
}
use classicswarm.Engine.Specs.{Specs, update_specs}

-- The first lines of ConnectWithClient.
unfoldable pub with_client : Engine → Engine
with_client e = record e { connected = true; monitor = running }

-- RegisterEventHandler; `none` is the error that there is a handler.
unfoldable pub register_event_handler : Engine → Option Engine
register_event_handler e = if e.has_handler then none else some (record e { has_handler = true })

-- The answer is an error.
abbrev pub IsFailed : {A : Type 0} → Response A → Type 0
IsFailed (answered a) = ⊥
IsFailed (failed x) = Unit

pub data Step (e : Engine) : Engine → Type 0 where
  registers : (f : Engine) → register_event_handler e ≡ some f → Step e f
  connects : Step e (with_client e)
  checks : (now : ℤ) (x : Option ApiError) → Step e (check_connection_err now x e)
  updates :
      (now delta : ℤ) (specs : Response Specs) (version : Response Str)
      → (e.connected ≡ false → IsFailed specs)
      → Step e (update_specs now delta specs version e).0
  validates : Step e (validation_complete e)
  conflicts : (now : ℤ) (other : Str) → Step e (handle_id_conflict now other e)
  disconnects : (f : Engine) → disconnect e ≡ some f → Step e f

-- What the manager may do to an engine, one step after the other.
pub data Steps (e : Engine) : Engine → Type 0 where
  here : Steps e e
  next : {f g : Engine} → Steps e f → Step f g → Steps e g

-- The step gives no client to an engine that is disconnected.
abbrev pub IsNoReturn : (e f : Engine) → Step e f → Type 0
IsNoReturn e f (registers g h) = Unit
IsNoReturn e f connects = e.state ≢ disconnected
IsNoReturn e f (checks now x) = Unit
IsNoReturn e f (updates now delta specs version h) = Unit
IsNoReturn e f validates = Unit
IsNoReturn e f (conflicts now other) = Unit
IsNoReturn e f (disconnects g h) = Unit

-- None of the steps does: the engine is not connected again after its Disconnect.
abbrev pub IsWithoutReturn : (e f : Engine) → Steps e f → Type 0
IsWithoutReturn e f here = Unit
IsWithoutReturn e f (next {f = g} w s) = IsWithoutReturn e g w × IsNoReturn g f s

unfoldable pub is_stopped : Monitor → Bool
is_stopped absent = false
is_stopped running = false
is_stopped stopped = true

-- The state of an engine that was not connected again: a disconnected one has no client, and its refresh loop was told to stop; every other engine
-- was not told, and its monitor was not stopped. A healthy one has not failed too often.
unfoldable pub sound : EngineState → (closed connected : Bool) → Monitor → (count retry : ℤ) → Bool
unfolding is_stopped
sound disconnected closed connected m count retry = closed && not connected
sound healthy closed connected m count retry =
    not closed && (not (is_stopped m) && ltb_ℤ count retry)
sound pending closed connected m count retry = not closed && not (is_stopped m)
sound unhealthy closed connected m count retry = not closed && not (is_stopped m)

abbrev pub IsSound : Engine → Type 0
IsSound e =
    (sound e.state e.stop_closed e.connected e.monitor e.failure_count e.failure_retry ≡ true)
    × (ltb_ℤ (pos 0) e.failure_retry ≡ true)

pub new_engine-IsSound :
    (addr : Str) (ratio retry now : ℤ)
    → ltb_ℤ (pos 0) retry ≡ true
    → IsSound (new_engine addr ratio retry now)
unfolding new_engine sound
new_engine-IsSound addr ratio retry now h = (refl, h)

pub data StateCases (e : Engine) : Type 0 where
  is_pending : e.state ≡ pending → StateCases e
  is_unhealthy : e.state ≡ unhealthy → StateCases e
  is_healthy : e.state ≡ healthy → StateCases e
  is_disconnected : e.state ≡ disconnected → StateCases e

pub state_cases : (e : Engine) → StateCases e
state_cases e = by_state e.state refl
  where
    by_state : (st : EngineState) → e.state ≡ st → StateCases e
    by_state pending h = is_pending h
    by_state unhealthy h = is_unhealthy h
    by_state healthy h = is_healthy h
    by_state disconnected h = is_disconnected h
