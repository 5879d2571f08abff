-- ===== src/Builds/Waking.antt =====
-- What the routines that wait get when their build starts.
use classicswarm.Prelude.{ℕ, ◌≡◌, ap, subst, true, false, none, some, In}
use classicswarm.Text.{Str}
use classicswarm.Assoc.{lookup}
use classicswarm.Node.{Node}
use classicswarm.Builds.{
  BuildSyncer, found, found_or_closed, started, start_build, end_build, end_session,
}
use classicswarm.Builds.Starting.{Began, Outcome, start_build-Outcome}
use classicswarm.Builds.Steps.{Routines, Steps}
use classicswarm.Builds.Staying.{Later, IsBuildKept, IsSessionKept, build_stays, session_stays}
use classicswarm.Builds.Accounts.{Steps-IsAccounted}

-- Who waits for the build or the session is woken, and gets the node n whenever it runs: until the
-- build is cleaned up, and for the session until that or the start of another build of it.
pub record Woken (session_id build_id : Str) (n : Node) (s : Routines) (b : BuildSyncer)
    : Type 0 where
  pub build_closed : (r : ℕ) → In (build_id, r) s.builds → (b.counters r).done ≡ true
  pub build_found :
      (t : Routines)
      → Later (IsBuildKept build_id) (record s { syncer = b }) t
      → (r : ℕ) → (end_build false build_id r t.syncer).1 ≡ found n
  pub session_closed : (r : ℕ) → In (session_id, r) s.sessions → b.channels r ≡ true
  pub session_found :
      (t : Routines)
      → Later (IsSessionKept session_id) (record s { syncer = b }) t
      → (end_session false session_id t.syncer).1 ≡ found n

-- After any interleaving, a start of a build that succeeds wakes every routine that waits for the
-- build and the one that waits for its session. A routine that waits for the build and has been
-- woken gets the node that the start returned, after any further steps (other routines that ask
-- and leave, other builds that start and are cleaned up), as long as none of them cleans up this
-- build; and so does the one that waits for the session, as long as no other build of the session
-- starts and nothing of the session is cleaned up, where the ID of the build is not also the ID of
-- a session.
pub start_build-Woken :
    {s : Routines}
    → Steps s
    → (session_id build_id : Str) (node n : Node) (b : BuildSyncer)
    → lookup build_id s.syncer.node_by_session_id ≡ none
    → start_build session_id build_id node s.syncer ≡ some (b, started n)
    → Woken session_id build_id n s b
unfolding end_build end_session
start_build-Woken {s} steps session_id build_id node n b apart e =
    let i = Steps-IsAccounted steps in
    let h : Began session_id build_id s.syncer b n =
      subst (Outcome session_id build_id s.syncer) e
        (start_build-Outcome session_id build_id s.syncer node) in
    record {
      build_closed = λ r m. h.woken r (i.builds.held build_id r m);
      build_found = λ t later r. ap found_or_closed (build_stays build_id n later h.recorded);
      session_closed = λ r m. h.woken_session r (i.sessions.held session_id r m);
      session_found = λ t later.
          ap found_or_closed (session_stays session_id n later (h.recorded_session apart));
    }
