-- ===== src/Builds/Samples.antt =====
-- A routine waits for a build and another for its session, and then the build starts.
use classicswarm.Prelude.{◌≡◌, refl, [], Option, none, some}
use classicswarm.Text.{codes, str_eq}
use classicswarm.Int64.{pos}
use classicswarm.Assoc.{lookup, insert}
use classicswarm.Node.{Node}
use classicswarm.Builds.{
  BuildSyncer, Start, new_build_syncer, begin_build, begin_session, enqueue, write, start_build,
  choose_node, signal, signal_then, signal_build, signal_session, with_start,
}
use classicswarm.Builds.Steps.{
  Routines, idle, joined, ask_build, ask_session, Steps, begin, next, asks_build, asks_session,
}
use classicswarm.Builds.Accounts.{IsAccounted, Steps-IsAccounted}
use classicswarm.Builds.Waking.{Woken, start_build-Woken}

abbrev builder : Node
builder = record {
  id = codes "X";
  ip = [];
  addr = [];
  name = codes "alpha";
  labels = [];
  containers = [];
  images = [];
  used_memory = pos 0;
  used_cpus = pos 0;
  total_memory = pos 0;
  total_cpus = pos 0;
  health_indicator = pos 100;
}

abbrev both_wait : Routines
both_wait = ask_session (codes "s") (ask_build (codes "b") idle)

both_ask : Steps both_wait
both_ask = next (next begin (asks_build (codes "b"))) (asks_session (codes "s"))

Steps-IsAccounted_example : IsAccounted both_wait
Steps-IsAccounted_example = Steps-IsAccounted both_ask

start_of : Option (BuildSyncer × Start) → BuildSyncer
start_of none = new_build_syncer
start_of (some (b, r)) = b

abbrev after_start : BuildSyncer
after_start = start_of (start_build (codes "s") (codes "b") builder both_wait.syncer)

start_build-Woken_example : Woken (codes "s") (codes "b") builder both_wait after_start
unfolding start_of idle new_build_syncer ask_build ask_session begin_build begin_session enqueue
    write joined start_build choose_node signal signal_then signal_build signal_session with_start
    lookup insert str_eq
start_build-Woken_example =
    start_build-Woken both_ask (codes "s") (codes "b") builder builder after_start refl refl

-- A second build of the session, before the routine of the session has run, closes its channel
-- again: a panic.
second_start_panics : start_build (codes "s") (codes "c") builder after_start ≡ none
unfolding start_of idle new_build_syncer ask_build ask_session begin_build begin_session enqueue
    write joined start_build choose_node signal signal_then signal_build signal_session with_start
    lookup insert str_eq
second_start_panics = refl
