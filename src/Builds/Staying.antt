-- ===== src/Builds/Staying.antt =====
-- How long the node of a build and the node of a session stay in their tables.
use classicswarm.Prelude.{
  ℕ, ◌-◌, ◌==◌, ◌≡◌, ◌≢◌, refl, sym, ◌∙◌, ap, subst, inl, inr, Bool, some, arith, Bool-cases,
  Option-cases,
}
use classicswarm.Text.{Str, str_eq}
use classicswarm.Text.Laws.{str_eq→eq, str_eq_iff}
use classicswarm.Assoc.{lookup}
use classicswarm.Assoc.Laws.{lookup-delete}
use classicswarm.Node.{Node}
use classicswarm.Builds.{
  BuildSyncer, Start, started, already_started, enqueue, begin_session, end_session, begin_build,
  end_build, clean,
}
use classicswarm.Builds.Starting.{Outcome, start_build-Outcome}
use classicswarm.Builds.Steps.{
  Routines, ask_build, ask_session, Step, asks_build, asks_session, leaves_build, leaves_session,
  starts, cleans,
}

-- The step does not clean up the build.
abbrev pub IsBuildKept : (build_id : Str) (s t : Routines) → Step s t → Type 0
IsBuildKept build_id s t (asks_build id) = Unit
IsBuildKept build_id s t (asks_session id) = Unit
IsBuildKept build_id s t (leaves_build timeout id r us vs e w) = Unit
IsBuildKept build_id s t (leaves_session timeout id r us vs e w) = Unit
IsBuildKept build_id s t (starts session other n b r e) = Unit
IsBuildKept build_id s t (cleans session other) = other ≢ build_id

-- The step neither cleans up after a build of the session nor starts another one.
abbrev pub IsSessionKept : (session_id : Str) (s t : Routines) → Step s t → Type 0
IsSessionKept session_id s t (asks_build id) = Unit
IsSessionKept session_id s t (asks_session id) = Unit
IsSessionKept session_id s t (leaves_build timeout id r us vs e w) = Unit
IsSessionKept session_id s t (leaves_session timeout id r us vs e w) = Unit
IsSessionKept session_id s t (starts session other n b r e) = session ≢ session_id
IsSessionKept session_id s t (cleans session other) = session ≢ session_id

-- Any number of steps of one kind.
pub data Later (P : (s t : Routines) → Step s t → Type 0) (s : Routines) : Routines → Type 0 where
  now : Later P s s
  then : {t u : Routines} → Later P s t → (step : Step t u) → P t u step → Later P s u

begin_build-nodes :
    (id : Str) (b : BuildSyncer)
    → ((begin_build id b).0.node_by_build_id ≡ b.node_by_build_id)
      × ((begin_build id b).0.node_by_session_id ≡ b.node_by_session_id)
unfolding begin_build enqueue
begin_build-nodes id b = elim (Option-cases (lookup id b.node_by_build_id)) [
  | inr (n, e) ↦ rw (e, begin_build) (refl, refl)
  | inl e ↦ elim (Option-cases (lookup id b.queue_build)) [
    | inr (r, f) ↦ rw (e, begin_build, f) (refl, refl)
    | inl f ↦ rw (e, begin_build, f) (refl, refl)
  ]
]

begin_session-nodes :
    (id : Str) (b : BuildSyncer)
    → ((begin_session id b).0.node_by_build_id ≡ b.node_by_build_id)
      × ((begin_session id b).0.node_by_session_id ≡ b.node_by_session_id)
unfolding begin_session
begin_session-nodes id b = elim (Option-cases (lookup id b.node_by_session_id)) [
  | inr (n, e) ↦ rw (e, begin_session) (refl, refl)
  | inl e ↦ elim (Option-cases (lookup id b.queue_session)) [
    | inr (r, f) ↦ rw (e, begin_session, f) (refl, refl)
    | inl f ↦ rw (e, begin_session, f) (refl, refl)
  ]
]

end_build-nodes :
    (timeout : Bool) (id : Str) (r : ℕ) (b : BuildSyncer)
    → ((end_build timeout id r b).0.node_by_build_id ≡ b.node_by_build_id)
      × ((end_build timeout id r b).0.node_by_session_id ≡ b.node_by_session_id)
unfolding end_build
end_build-nodes timeout id r b = elim (Bool-cases ((b.counters r).count - 1 == 0)) [
  | inl e ↦ rw (e, end_build) (refl, refl)
  | inr e ↦ rw (e, end_build) (refl, refl)
]

start-build_kept :
    (session build_id other : Str) (n : Node) (b : BuildSyncer) (c : BuildSyncer) (r : Start)
    → lookup build_id b.node_by_build_id ≡ some n
    → Outcome session other b (some (c, r))
    → lookup build_id c.node_by_build_id ≡ some n
start-build_kept session build_id other n b c already_started l h =
    ap (λ d. lookup build_id d.node_by_build_id) h ∙ l
start-build_kept session build_id other n b c (started m) l h =
    elim (Bool-cases (str_eq build_id other)) [
      | inl e ↦
          let taken : lookup other b.node_by_build_id ≡ some n =
            subst (λ i. lookup i b.node_by_build_id ≡ some n) (str_eq→eq build_id other e) l in
          let free = h.fresh in absurd (ground arith)
      | inr e ↦ h.others build_id (λ g. ground (arith, str_eq_iff build_id other)) ∙ l
    ]

start-session_kept :
    (session_id session other : Str) (n : Node) (b : BuildSyncer) (c : BuildSyncer) (r : Start)
    → session ≢ session_id
    → lookup session_id b.node_by_session_id ≡ some n
    → Outcome session other b (some (c, r))
    → lookup session_id c.node_by_session_id ≡ some n
start-session_kept session_id session other n b c already_started ne l h =
    ap (λ d. lookup session_id d.node_by_session_id) h ∙ l
start-session_kept session_id session other n b c (started m) ne l h =
    h.other_sessions session_id (λ e. ne (sym e)) ∙ l

step-build :
    (build_id : Str) (n : Node) {s t : Routines} (step : Step s t)
    → IsBuildKept build_id s t step
    → lookup build_id s.syncer.node_by_build_id ≡ some n
    → lookup build_id t.syncer.node_by_build_id ≡ some n
unfolding ask_build ask_session end_session clean
step-build build_id n {s} (asks_build id) k l =
    ap (lookup build_id) (begin_build-nodes id s.syncer).0 ∙ l
step-build build_id n {s} (asks_session id) k l =
    ap (lookup build_id) (begin_session-nodes id s.syncer).0 ∙ l
step-build build_id n {s} (leaves_build timeout id r us vs e w) k l =
    ap (lookup build_id) (end_build-nodes timeout id r s.syncer).0 ∙ l
step-build build_id n (leaves_session timeout id r us vs e w) k l = l
step-build build_id n {s} (starts session other m b r e) k l =
    start-build_kept session build_id other n s.syncer b r l
      (subst (Outcome session other s.syncer) e (start_build-Outcome session other s.syncer m))
step-build build_id n {s} (cleans session other) k l =
    ground
      (arith, lookup-delete other build_id s.syncer.node_by_build_id, str_eq_iff other build_id)

step-session :
    (session_id : Str) (n : Node) {s t : Routines} (step : Step s t)
    → IsSessionKept session_id s t step
    → lookup session_id s.syncer.node_by_session_id ≡ some n
    → lookup session_id t.syncer.node_by_session_id ≡ some n
unfolding ask_build ask_session end_session clean
step-session session_id n {s} (asks_build id) k l =
    ap (lookup session_id) (begin_build-nodes id s.syncer).1 ∙ l
step-session session_id n {s} (asks_session id) k l =
    ap (lookup session_id) (begin_session-nodes id s.syncer).1 ∙ l
step-session session_id n {s} (leaves_build timeout id r us vs e w) k l =
    ap (lookup session_id) (end_build-nodes timeout id r s.syncer).1 ∙ l
step-session session_id n (leaves_session timeout id r us vs e w) k l = l
step-session session_id n {s} (starts session other m b r e) k l =
    start-session_kept session_id session other n s.syncer b r k l
      (subst (Outcome session other s.syncer) e (start_build-Outcome session other s.syncer m))
step-session session_id n {s} (cleans session other) k l = ground (
  arith,
  lookup-delete session session_id s.syncer.node_by_session_id,
  str_eq_iff session session_id,
)

pub build_stays :
    (build_id : Str) (n : Node) {s t : Routines}
    → Later (IsBuildKept build_id) s t
    → lookup build_id s.syncer.node_by_build_id ≡ some n
    → lookup build_id t.syncer.node_by_build_id ≡ some n
build_stays build_id n now l = l
build_stays build_id n (then before step k) l =
    step-build build_id n step k (build_stays build_id n before l)

pub session_stays :
    (session_id : Str) (n : Node) {s t : Routines}
    → Later (IsSessionKept session_id) s t
    → lookup session_id s.syncer.node_by_session_id ≡ some n
    → lookup session_id t.syncer.node_by_session_id ≡ some n
session_stays session_id n now l = l
session_stays session_id n (then before step k) l =
    step-session session_id n step k (session_stays session_id n before l)
