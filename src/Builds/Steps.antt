-- ===== src/Builds/Steps.antt =====
-- All interleavings of the routines that start builds and wait for them.
use classicswarm.Prelude.{ℕ, ◌≡◌, Bool, true, false, List, [], ◌∷◌, ◌++◌, some}
use classicswarm.Text.{Str}
use classicswarm.Node.{Node}
use classicswarm.Builds.{
  BuildSyncer, Wait, found, already_waiting, timed_out, build_closed, waiting, Start,
  new_build_syncer, begin_session, end_session, begin_build, end_build, start_build, clean,
}

-- The state, and the routines that wait for a build or a session, each with what it holds.
pub record Routines : Type 0 where
  pub syncer : BuildSyncer
  pub builds : List (Str × ℕ)
  pub sessions : List (Str × ℕ)

-- A routine that has to wait joins the others.
unfoldable pub joined : Str → Wait → List (Str × ℕ) → List (Str × ℕ)
joined id (waiting r) ws = (id, r) ∷ ws
joined id (found n) ws = ws
joined id already_waiting ws = ws
joined id timed_out ws = ws
joined id build_closed ws = ws

unfoldable pub ask_build : Str → Routines → Routines
unfolding begin_build joined
ask_build id s =
    let (b, w) = begin_build id s.syncer in record s { syncer = b; builds = joined id w s.builds }

unfoldable pub ask_session : Str → Routines → Routines
unfolding begin_session joined
ask_session id s =
    let (b, w) = begin_session id s.syncer in
    record s { syncer = b; sessions = joined id w s.sessions }

pub data Step (s : Routines) : Routines → Type 0 where
  asks_build : (id : Str) → Step s (ask_build id s)
  asks_session : (id : Str) → Step s (ask_session id s)
  leaves_build :
      (timeout : Bool) (id : Str) (r : ℕ) (us vs : List (Str × ℕ))
      → s.builds ≡ us ++ (id, r) ∷ vs
      → (timeout ≡ false → (s.syncer.counters r).done ≡ true)
      → Step s (record s { syncer = (end_build timeout id r s.syncer).0; builds = us ++ vs })
  leaves_session :
      (timeout : Bool) (id : Str) (r : ℕ) (us vs : List (Str × ℕ))
      → s.sessions ≡ us ++ (id, r) ∷ vs
      → (timeout ≡ false → s.syncer.channels r ≡ true)
      → Step s (record s { syncer = (end_session timeout id s.syncer).0; sessions = us ++ vs })
  starts :
      (session_id build_id : Str) (n : Node) (b : BuildSyncer) (r : Start)
      → start_build session_id build_id n s.syncer ≡ some (b, r)
      → Step s (record s { syncer = b })
  cleans :
      (session_id build_id : Str)
      → Step s (record s { syncer = clean session_id build_id s.syncer })

unfoldable pub idle : Routines
unfolding new_build_syncer
idle = record { syncer = new_build_syncer; builds = []; sessions = [] }

pub data Steps : Routines → Type 0 where
  begin : Steps idle
  next : {s t : Routines} → Steps s → Step s t → Steps t
