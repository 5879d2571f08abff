-- ===== src/Builds.antt =====
-- cluster/swarm/build.go: how the requests that belong to one build find the node of the build.
-- Each critical section is a function on the state; a routine that waits runs two of them, before
-- and after its channel or its timer. Counters and channels are shared objects: a table and the
-- waiting routines hold references to them.
pub mod Starting
pub mod Steps
pub mod Accounts
pub mod Staying
pub mod Waking
pub mod Samples
pub mod Waiters
pub mod Leaving
use classicswarm.Prelude.{
  ℕ, suc, ◌-◌, Bool, true, false, ◌==◌, Option, none, some, [], if◌then◌else◌,
}
use classicswarm.Text.{Str}
use classicswarm.Assoc.{Assoc, lookup, insert, delete}
use classicswarm.Node.{Node}

-- waitRefCounter; a channel is whether it is closed.
pub record WaitRefCounter : Type 0 where
  pub done : Bool
  pub count : ℕ

pub record BuildSyncer : Type 0 where
  pub node_by_build_id : Assoc Node
  pub node_by_session_id : Assoc Node
  pub queue_session : Assoc ℕ
  pub queue_build : Assoc ℕ
  -- The objects: channels of sessions, counters of builds, and a reference not in use.
  pub channels : ℕ → Bool
  pub counters : ℕ → WaitRefCounter
  pub next : ℕ

unfoldable pub new_build_syncer : BuildSyncer
new_build_syncer = record {
  node_by_build_id = [];
  node_by_session_id = [];
  queue_session = [];
  queue_build = [];
  channels = λ r. false;
  counters = λ r. record { done = false; count = 0 };
  next = 0;
}

-- What a wait comes to, at once or after the channel or the timer.
pub data Wait : Type 0 where
  found : Node → Wait
  already_waiting timed_out build_closed : Wait
  waiting : (reference : ℕ) → Wait

unfoldable pub write {ℓ} : {A : Type ℓ} → ℕ → A → (ℕ → A) → ℕ → A
write r a store q = if q == r then a else store q

-- waitSessionNode until it releases the lock.
unfoldable pub begin_session : Str → BuildSyncer → BuildSyncer × Wait
unfolding lookup insert write
begin_session session_id b = elim (lookup session_id b.node_by_session_id) [
  | some n ↦ (b, found n)
  | none ↦ elim (lookup session_id b.queue_session) [
    | some ch ↦ (b, already_waiting)
    | none ↦ (
      record b {
        queue_session = insert session_id b.next b.queue_session;
        channels = write b.next false b.channels;
        next = suc b.next;
      },
      waiting b.next,
    )
  ]
]

unfoldable pub found_or_closed : Option Node → Wait
found_or_closed none = build_closed
found_or_closed (some n) = found n

-- The rest of it, and the deferred function.
unfoldable pub end_session : (timeout : Bool) → Str → BuildSyncer → BuildSyncer × Wait
unfolding lookup delete found_or_closed
end_session timeout session_id b = (
  record b { queue_session = delete session_id b.queue_session },
  if timeout then timed_out else found_or_closed (lookup session_id b.node_by_session_id),
)

-- A waiting routine more for the counter r.
unfoldable pub enqueue : ℕ → BuildSyncer → BuildSyncer × Wait
unfolding write
enqueue r b =
    let w = b.counters r in
    (record b { counters = write r (record w { count = suc w.count }) b.counters }, waiting r)

-- waitBuildNode until it releases the lock.
unfoldable pub begin_build : Str → BuildSyncer → BuildSyncer × Wait
unfolding lookup insert write enqueue
begin_build build_id b = elim (lookup build_id b.node_by_build_id) [
  | some n ↦ (b, found n)
  | none ↦ elim (lookup build_id b.queue_build) [
    | some r ↦ enqueue r b
    | none ↦ enqueue b.next (record b {
      queue_build = insert build_id b.next b.queue_build;
      counters = write b.next (record { done = false; count = 0 }) b.counters;
      next = suc b.next;
    })
  ]
]

-- The rest of it, and the deferred function, of a routine that holds the counter r. The count is
-- not 0, as the routine is counted.
unfoldable pub end_build : (timeout : Bool) → Str → (r : ℕ) → BuildSyncer → BuildSyncer × Wait
unfolding lookup delete write found_or_closed
end_build timeout build_id r b =
    let w = b.counters r in
    let c = record b { counters = write r (record w { count = w.count - 1 }) b.counters } in
    (
      if w.count - 1 == 0 then record c { queue_build = delete build_id b.queue_build } else c,
      if timeout then timed_out else found_or_closed (lookup build_id b.node_by_build_id),
    )

-- What startBuild returns: the node of the build, or the error that it was started already.
pub data Start : Type 0 where
  started : Node → Start
  already_started : Start

-- The node that startBuild takes: the source looks for the ID of the build among the sessions.
unfoldable pub choose_node : (session_id build_id : Str) → Node → BuildSyncer → BuildSyncer × Node
unfolding lookup insert
choose_node session_id build_id node b = elim (lookup build_id b.node_by_session_id) [
  | some n ↦ (b, n)
  | none ↦ (record b { node_by_session_id = insert session_id node b.node_by_session_id }, node)
]

-- close(wait.done), where there is a counter; `none` is the panic of a channel that is closed.
unfoldable pub signal_build : Option ℕ → BuildSyncer → Option BuildSyncer
unfolding write
signal_build none b = some b
signal_build (some r) b =
    let w = b.counters r in
    if w.done
    then none
    else some (record b { counters = write r (record w { done = true }) b.counters })

unfoldable pub signal_session : Option ℕ → BuildSyncer → Option BuildSyncer
unfolding write
signal_session none b = some b
signal_session (some ch) b =
    if b.channels ch then none else some (record b { channels = write ch true b.channels })

unfoldable pub with_start : Node → Option BuildSyncer → Option (BuildSyncer × Start)
with_start n none = none
with_start n (some b) = some (b, started n)

unfoldable pub signal_then : (session_id : Str) → Option BuildSyncer → Option BuildSyncer
unfolding lookup signal_session
signal_then session_id none = none
signal_then session_id (some c) = signal_session (lookup session_id c.queue_session) c

unfoldable pub signal : (session_id build_id : Str) → BuildSyncer → Option BuildSyncer
unfolding lookup signal_build signal_then
signal session_id build_id b =
    signal_then session_id (signal_build (lookup build_id b.queue_build) b)

unfoldable pub start_build :
    (session_id build_id : Str) → Node → BuildSyncer → Option (BuildSyncer × Start)
unfolding lookup insert choose_node signal with_start
start_build session_id build_id node b = elim (lookup build_id b.node_by_build_id) [
  | some n ↦ some (b, already_started)
  | none ↦
      let (c, n) = choose_node session_id build_id node b in
      with_start n (
        signal session_id build_id
          (record c { node_by_build_id = insert build_id n c.node_by_build_id }))
]

-- What the function that startBuild returns does, after the delay.
unfoldable pub clean : (session_id build_id : Str) → BuildSyncer → BuildSyncer
unfolding delete
clean session_id build_id b = record b {
  node_by_session_id = delete session_id b.node_by_session_id;
  node_by_build_id = delete build_id b.node_by_build_id;
}
