-- ===== src/Engine.antt =====
-- cluster/engine.go: a Docker engine as the manager sees it. Each operation is a function on the
-- engine; the answers of the engine's API and the time are arguments. Times and durations are
-- nanoseconds. An operation that emits an event puts its name at the end of `emitted`, one that
-- wakes the refresh loop counts in `resumes`, and one that starts a refresh loop in `loops`.
pub mod Specs
pub mod Health
pub mod Backoff
pub mod Failures
pub mod Cache
pub mod Refresh
pub mod Caches
pub mod Calls
pub mod Kept
pub mod Creating
pub mod Events
pub mod View
pub mod Steps
pub mod Soundness
pub mod Life
pub mod Returning
pub mod Samples
use classicswarm.Prelude.{
  ℕ, zero, suc, ◌+◌, ◌^◌, Bool, true, false, not, ◌&&◌, ◌||◌, ◌==◌, ltb, leb, List, [], ◌∷◌, ◌++◌,
  Option, none, some, if◌then◌else◌,
}
use classicswarm.Text.{Str, codes, str_eq, contains, cut}
use classicswarm.Assoc.{Assoc, lookup, has_key, insert}
use classicswarm.Int64.{ℤ, pos, negsuc, wrap, ◌+ℤ◌, ◌-ℤ◌, ◌*ℤ◌, quot, ltb_ℤ, leb_ℤ, eqb_ℤ}
use classicswarm.Container.{Container}
use classicswarm.Image.{Image}
use classicswarm.Network.{Network, Volume}

pub data EngineState : Type 0 where
  pending unhealthy healthy disconnected : EngineState

-- The pointer `eventsMonitor`, which is nil before the first connection.
pub data Monitor : Type 0 where
  absent running stopped : Monitor

pub record Engine : Type 0 where
  pub id : Str
  pub ip : Str
  pub addr : Str
  pub name : Str
  pub cpus : ℤ
  pub memory : ℤ
  pub labels : Assoc Str
  pub version : Str
  pub stop_closed : Bool
  pub containers : Assoc Container
  pub images : List Image
  pub networks : Assoc Network
  pub volumes : Assoc Volume
  -- apiClient is a client of the engine, not the one that fails every request.
  pub connected : Bool
  pub has_handler : Bool
  pub state : EngineState
  pub last_error : Str
  pub updated_at : ℤ
  pub failure_count : ℤ
  pub overcommit_ratio : ℤ
  pub failure_retry : ℤ
  pub monitor : Monitor
  pub delta_duration : ℤ
  pub emitted : List Str
  pub resumes : ℕ
  pub loops : ℕ

-- An error of the API; `refused` is whether engineapi.IsErrConnectionFailed holds of it,
-- `not_found` whether engineapi.IsErrNotFound does.
pub record ApiError : Type 0 where
  pub refused : Bool
  pub not_found : Bool
  pub text : Str

pub data Response (A : Type 0) : Type 0 where
  answered : A → Response A
  failed : ApiError → Response A

-- NewEngine; the ratio is int64(overcommitRatio * 100).
unfoldable pub new_engine : Str → (ratio retry now : ℤ) → Engine
new_engine addr ratio retry now = record {
  id = [];
  ip = [];
  addr = addr;
  name = [];
  cpus = pos 0;
  memory = pos 0;
  labels = [];
  version = [];
  stop_closed = false;
  containers = [];
  images = [];
  networks = [];
  volumes = [];
  connected = false;
  has_handler = false;
  state = pending;
  last_error = [];
  updated_at = now;
  failure_count = pos 0;
  overcommit_ratio = ratio;
  failure_retry = retry;
  monitor = absent;
  delta_duration = pos 0;
  emitted = [];
  resumes = 0;
  loops = 0;
}

-- emitEvent, which does nothing where no handler is registered.
unfoldable pub emit_event : Str → Engine → Engine
emit_event event e = if e.has_handler then record e { emitted = e.emitted ++ event ∷ [] } else e

-- stateText
unfoldable pub status : EngineState → Str
status pending = codes "Pending"
status unhealthy = codes "Unhealthy"
status healthy = codes "Healthy"
status disconnected = codes "Disconnected"

-- 100 - failureCount*100/FailureRetry, of a healthy engine that has not failed too often. `none` is
-- a division by zero.
unfoldable pub health_indicator : Engine → Option ℤ
unfolding ◌-ℤ◌ ◌*ℤ◌ quot
health_indicator e = elim e.state [
  | pending ↦ some (pos 0)
  | unhealthy ↦ some (pos 0)
  | disconnected ↦ some (pos 0)
  | healthy ↦
      if leb_ℤ e.failure_retry e.failure_count
      then some (pos 0)
      else elim (quot (e.failure_count *ℤ pos 100) e.failure_retry) [
        | none ↦ none
        | some q ↦ some (pos 100 -ℤ q)
      ]
]

-- Duration(1) << uint(n)
unfoldable pub shifted : ℤ → ℤ
unfolding wrap
shifted (pos n) = if ltb n 64 then wrap (pos (2 ^ n)) else pos 0
shifted (negsuc n) = pos 0

unfoldable pub time_to_validate : ℤ → Engine → Bool
unfolding shifted ◌+ℤ◌ ◌-ℤ◌ ◌*ℤ◌
time_to_validate now e = elim e.state [
  | pending ↦
      ltb_ℤ (pos 14400000000000) (now -ℤ e.updated_at)
      || ltb_ℤ (shifted e.failure_count *ℤ pos 1000000000 +ℤ pos 30000000000) (now -ℤ e.updated_at)
  | unhealthy ↦ false
  | healthy ↦ false
  | disconnected ↦ false
]

unfoldable pub validation_complete : Engine → Engine
validation_complete e = elim e.state [
  | pending ↦ record e { state = healthy; failure_count = pos 0; loops = suc e.loops }
  | unhealthy ↦ e
  | healthy ↦ e
  | disconnected ↦ e
]

unfoldable pub is_blank : ℕ → Bool
is_blank c = (c == 32) || (leb 9 c && leb c 13)

unfoldable pub trim_front : Str → Str
unfolding is_blank
trim_front [] = []
trim_front (c ∷ s) = if is_blank c then trim_front s else c ∷ s

unfoldable pub add_front : ℕ → Str → Str
unfolding is_blank
add_front c [] = if is_blank c then [] else c ∷ []
add_front c (d ∷ s) = c ∷ d ∷ s

unfoldable pub trim_back : Str → Str
unfolding add_front
trim_back [] = []
trim_back (c ∷ s) = add_front c (trim_back s)

-- strings.TrimSpace
unfoldable pub trim_space : Str → Str
unfolding trim_front trim_back
trim_space s = trim_back (trim_front s)

unfoldable pub set_err_msg : ℤ → Str → Engine → Engine
unfolding trim_space
set_err_msg now text e = record e { last_error = trim_space text; updated_at = now }

unfoldable pub handle_id_conflict : ℤ → Str → Engine → Engine
unfolding set_err_msg
handle_id_conflict now other e =
    set_err_msg now
      (codes "ID duplicated. "
        ++ (e.id
            ++ (codes " shared by this node "
                ++ (e.addr ++ (codes " and another node " ++ other)))))
      e

unfoldable pub inc_failure_count : Engine → Engine
unfolding ◌+ℤ◌ emit_event
inc_failure_count e =
    let f = record e { failure_count = e.failure_count +ℤ pos 1 } in
    elim e.state [
      | pending ↦ f
      | unhealthy ↦ f
      | disconnected ↦ f
      | healthy ↦
          if leb_ℤ e.failure_retry (e.failure_count +ℤ pos 1)
          then emit_event (codes "engine_disconnect") (record f { state = unhealthy })
          else f
    ]

unfoldable pub is_connection_error : ApiError → Bool
unfolding contains
is_connection_error x =
    x.refused
    || (contains x.text (codes "onnection refused")
        || (contains x.text (codes "annot connect to the docker engine endpoint")
            || (contains x.text (codes "annot connect to the Docker daemon")
                || contains x.text (codes "no route to host"))))

-- The part of CheckConnectionErr for a success: an unhealthy engine is healthy again.
unfoldable pub come_back : Engine → Engine
unfolding emit_event
come_back e = elim e.state [
  | pending ↦ e
  | healthy ↦ e
  | disconnected ↦ e
  | unhealthy ↦
      emit_event (codes "engine_reconnect") (record e { state = healthy; resumes = suc e.resumes })
]

unfoldable pub reset_failure_count : Engine → Engine
reset_failure_count e = record e { failure_count = pos 0 }

-- `none` is a nil error.
unfoldable pub check_connection_err : ℤ → Option ApiError → Engine → Engine
unfolding set_err_msg inc_failure_count is_connection_error come_back reset_failure_count
check_connection_err now none e = reset_failure_count (come_back (set_err_msg now [] e))
check_connection_err now (some x) e =
    if is_connection_error x then set_err_msg now x.text (inc_failure_count e) else e

-- What Disconnect makes of an engine that is not disconnected.
unfoldable pub stopped_engine : Engine → Engine
unfolding emit_event
stopped_engine e =
    emit_event (codes "engine_disconnect")
      (record e { stop_closed = true; monitor = stopped; connected = false; state = disconnected })

-- close(e.stopCh) and e.eventsMonitor.Stop(); `none` is a panic: a channel that is closed already,
-- or a nil monitor.
unfoldable pub stop_engine : Engine → Option Engine
unfolding stopped_engine
stop_engine e =
    if e.stop_closed
    then none
    else elim e.monitor [ absent ↦ none | stopped ↦ none | running ↦ some (stopped_engine e) ]

unfoldable pub disconnect : Engine → Option Engine
unfolding stop_engine
disconnect e = elim e.state [
  | disconnected ↦ some e
  | pending ↦ stop_engine e
  | unhealthy ↦ stop_engine e
  | healthy ↦ stop_engine e
]

-- The refresh loop waits longer for an engine that keeps failing.
unfoldable pub backoff_factor : Engine → ℤ
unfolding ◌-ℤ◌
backoff_factor e =
    let over = e.failure_count -ℤ e.failure_retry in
    if ltb_ℤ over (pos 0) then pos 0 else if ltb_ℤ (pos 1000) over then pos 1000 else over

-- The period of delayer.Wait; `int63n` is the random source.
unfoldable pub wait_period : (ℤ → ℤ) → (range_min range_max backoff : ℤ) → ℤ
unfolding ◌+ℤ◌ ◌-ℤ◌ ◌*ℤ◌
wait_period int63n range_min range_max backoff =
    let base = range_min *ℤ (pos 1 +ℤ backoff) in
    let delta = range_max -ℤ range_min in if ltb_ℤ (pos 0) delta then base +ℤ int63n delta else base

-- TotalMemory and TotalCpus: with the overcommitment, in hundredths. `none` never occurs.
unfoldable pub overcommitted : ℤ → ℤ → Option ℤ
unfolding ◌+ℤ◌ ◌*ℤ◌ quot
overcommitted amount ratio = elim (quot (amount *ℤ ratio) (pos 100)) [
  | none ↦ none
  | some more ↦ some (amount +ℤ more)
]

unfoldable pub total_memory : Engine → Option ℤ
unfolding overcommitted
total_memory e = overcommitted e.memory e.overcommit_ratio

unfoldable pub total_cpus : Engine → Option ℤ
unfolding overcommitted
total_cpus e = overcommitted e.cpus e.overcommit_ratio
