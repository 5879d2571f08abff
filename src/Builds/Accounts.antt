-- ===== src/Builds/Accounts.antt =====
-- The tables of builds and sessions against the routines that wait, in every interleaving.
use classicswarm.Prelude.{
  ℕ, ◌-◌, ◌==◌, ◌≡◌, refl, sym, ap, subst, inl, inr, Bool, List, ◌∷◌, ◌++◌, none, some, arith, ltb,
  ltb→lt, In, Bool-cases, Option-cases,
}
use classicswarm.Text.{Str, str_eq}
use classicswarm.Text.Laws.{str_eq→eq, str_eq_iff, str_eq_refl}
use classicswarm.Assoc.{Assoc, lookup, insert, delete}
use classicswarm.Assoc.Laws.{lookup-insert, lookup-delete}
use classicswarm.Node.{Node}
use classicswarm.Builds.{
  BuildSyncer, Start, started, already_started, new_build_syncer, write, enqueue, begin_session,
  end_session, begin_build, end_build, clean,
}
use classicswarm.Builds.Waiters.{
  waiting_for, waiting_for-middle, waiting_for_of_In, In-of_waiting_for, In-of_append, In-middle,
  IsCounted, recount, join-IsCounted, create-IsCounted,
}
use classicswarm.Builds.Leaving.{leave-IsCounted}
use classicswarm.Builds.Starting.{Outcome, start_build-Outcome}
use classicswarm.Builds.Steps.{
  Routines, joined, ask_build, ask_session, Step, asks_build, asks_session, leaves_build,
  leaves_session, starts, cleans, idle, Steps, begin, next,
}

-- One routine at most waits for a session, and it holds the channel of the session.
pub record IsQueued (q : Assoc ℕ) (ws : List (Str × ℕ)) : Type 0 where
  pub held : (id : Str) (r : ℕ) → In (id, r) ws → lookup id q ≡ some r
  pub once : (id : Str) (r : ℕ) → lookup id q ≡ some r → waiting_for id ws ≡ 1

pub record IsAccounted (s : Routines) : Type 0 where
  pub builds : IsCounted s.syncer.queue_build s.syncer.counters s.syncer.next s.builds
  pub sessions : IsQueued s.syncer.queue_session s.sessions

idle-IsAccounted : IsAccounted idle
unfolding idle new_build_syncer lookup
idle-IsAccounted = record {
  builds = record {
    held = λ id r m. absurd m;
    counted = λ id r h. absurd (ground arith);
    wanted = λ id r h. absurd (ground arith);
    below = λ id r h. absurd (ground arith);
    distinct = λ id j r h. absurd (ground arith);
  };
  sessions = record { held = λ id r m. absurd m; once = λ id r h. absurd (ground arith) };
}

ask_build-IsAccounted : (id : Str) (s : Routines) → IsAccounted s → IsAccounted (ask_build id s)
unfolding ask_build begin_build enqueue joined write
ask_build-IsAccounted id s i = elim (Option-cases (lookup id s.syncer.node_by_build_id)) [
  | inr (n, e) ↦ rw (e, begin_build) i
  | inl e ↦ elim (Option-cases (lookup id s.syncer.queue_build)) [
    | inr (r, f) ↦
        rw (e, begin_build, f)
          (record {
            builds =
                join-IsCounted s.syncer.queue_build s.syncer.counters s.syncer.next s.builds id r _
                  f refl i.builds;
            sessions = i.sessions;
          })
    | inl f ↦
        rw (e, begin_build, f)
          (record {
            builds =
                create-IsCounted s.syncer.queue_build s.syncer.counters s.syncer.next s.builds _ id
                  f (ground arith) (λ p h. ground arith) i.builds;
            sessions = i.sessions;
          })
  ]
]

queue-IsQueued :
    (id : Str) (ch : ℕ) (q : Assoc ℕ) (ws : List (Str × ℕ))
    → lookup id q ≡ none
    → IsQueued q ws
    → IsQueued (insert id ch q) ((id, ch) ∷ ws)
unfolding waiting_for
queue-IsQueued id ch q ws l i = record {
  held = λ j r m. elim m [
    | inl e ↦
        let a : j ≡ id = ap (λ w. w.0) e in
        let b : r ≡ ch = ap (λ w. w.1) e in ground (arith, lookup-insert id j ch q, str_eq_iff id j)
    | inr k ↦ let h = i.held j r k in ground (arith, lookup-insert id j ch q, str_eq_iff id j)
  ];
  once = λ j r h. elim (Bool-cases (str_eq id j)) [
    | inl e ↦ let n = nobody j (rw (sym (str_eq→eq id j e)) l) in ground arith
    | inr e ↦ let n = i.once j r in ground (arith, lookup-insert id j ch q)
  ];
}
  where
    nobody : (j : Str) → lookup j q ≡ none → waiting_for j ws ≡ 0
    nobody j n = elim (Bool-cases (ltb 0 (waiting_for j ws))) [
      | inl e ↦
          let (r, m) = In-of_waiting_for j ws (ltb→lt 0 (waiting_for j ws) e) in
          let h = i.held j r m in absurd (ground arith)
      | inr e ↦ ground arith
    ]

leave-IsQueued :
    (id : Str) (r : ℕ) (q : Assoc ℕ) (us vs : List (Str × ℕ))
    → IsQueued q (us ++ (id, r) ∷ vs)
    → IsQueued (delete id q) (us ++ vs)
leave-IsQueued id r q us vs i =
    let mine = i.held id r (In-middle (id, r) us vs) in
    let one = i.once id r mine in
    let m = waiting_for-middle id id r us vs in
    let nobody : waiting_for id (us ++ vs) ≡ 0 = ground (arith, str_eq_refl id) in
    record {
      held = λ j p n.
          let h = i.held j p (In-of_append (j, p) (id, r) us vs n) in
          let w = waiting_for_of_In j p (us ++ vs) n in
          ground (arith, lookup-delete id j q, str_eq_iff id j);
      once = λ j p h.
          let o = i.once j p in
          ground (arith, lookup-delete id j q, waiting_for-middle j id r us vs);
    }

ask_session-IsAccounted : (id : Str) (s : Routines) → IsAccounted s → IsAccounted (ask_session id s)
unfolding ask_session begin_session joined waiting_for
ask_session-IsAccounted id s i = elim (Option-cases (lookup id s.syncer.node_by_session_id)) [
  | inr (n, e) ↦ rw (e, begin_session) i
  | inl e ↦ elim (Option-cases (lookup id s.syncer.queue_session)) [
    | inr (r, f) ↦ rw (e, begin_session, f) i
    | inl f ↦
        rw (e, begin_session, f)
          (record {
            builds =
                recount s.syncer.queue_build s.syncer.counters _ s.syncer.next _ s.builds
                  (λ r. refl) (omega arith) i.builds;
            sessions =
                queue-IsQueued id s.syncer.next s.syncer.queue_session s.sessions f i.sessions;
          })
  ]
]

leave_build-IsAccounted :
    (timeout : Bool) (id : Str) (r : ℕ) (us vs : List (Str × ℕ)) (s : Routines)
    → IsAccounted (record s { builds = us ++ (id, r) ∷ vs })
    → IsAccounted (record s { syncer = (end_build timeout id r s.syncer).0; builds = us ++ vs })
unfolding end_build write
leave_build-IsAccounted timeout id r us vs s i =
    let kept =
      leave-IsCounted s.syncer.queue_build s.syncer.counters
        (write r (record (s.syncer.counters r) { count = (s.syncer.counters r).count - 1 })
          s.syncer.counters)
        s.syncer.next us vs id r (ground arith) (λ p h. ground arith) i.builds in
    elim (Bool-cases ((s.syncer.counters r).count - 1 == 0)) [
      | inl e ↦ rw (e, end_build) (record { builds = rw e at kept; sessions = i.sessions })
      | inr e ↦ rw (e, end_build) (record { builds = rw e at kept; sessions = i.sessions })
    ]

start-IsAccounted :
    (session_id build_id : Str) (n : Node) (s : Routines)
    → IsAccounted s
    → (b : BuildSyncer) (r : Start) → Outcome session_id build_id s.syncer (some (b, r))
    → IsAccounted (record s { syncer = b })
start-IsAccounted session_id build_id n s i b already_started h = rw h i
start-IsAccounted session_id build_id n s i b (started m) h = record {
  builds = rw h.queue_build (
      recount s.syncer.queue_build s.syncer.counters b.counters s.syncer.next b.next s.builds
        h.counts (let e = h.next in omega arith) i.builds);
  sessions = rw h.queue_session i.sessions;
}

step-IsAccounted : (s t : Routines) → Step s t → IsAccounted s → IsAccounted t
step-IsAccounted s _ (asks_build id) i = ask_build-IsAccounted id s i
step-IsAccounted s _ (asks_session id) i = ask_session-IsAccounted id s i
step-IsAccounted s _ (leaves_build timeout id r us vs e w) i =
    leave_build-IsAccounted timeout id r us vs s (record {
      builds = subst (IsCounted s.syncer.queue_build s.syncer.counters s.syncer.next) e i.builds;
      sessions = i.sessions;
    })
step-IsAccounted s _ (leaves_session timeout id r us vs e w) i =
    unfold end_session in
    record {
      builds = i.builds;
      sessions =
          leave-IsQueued id r s.syncer.queue_session us vs
            (subst (IsQueued s.syncer.queue_session) e i.sessions);
    }
step-IsAccounted s _ (starts session_id build_id n b r e) i =
    start-IsAccounted session_id build_id n s i b r (
      subst (Outcome session_id build_id s.syncer) e
        (start_build-Outcome session_id build_id s.syncer n))
step-IsAccounted s _ (cleans session_id build_id) i =
    unfold clean in record { builds = i.builds; sessions = i.sessions }

-- Whatever the order in which routines ask for builds and sessions, give up, are woken, start
-- builds and clean up: the table of builds has an entry for a build exactly while routines wait
-- for it, the counter of the entry is their number, different builds have different counters, and
-- each routine holds the counter of its build; and a session is in the table of sessions while one
-- routine, never two, waits for it.
pub Steps-IsAccounted : {s : Routines} → Steps s → IsAccounted s
Steps-IsAccounted begin = idle-IsAccounted
Steps-IsAccounted (next {s} {t} before step) = step-IsAccounted s t step (Steps-IsAccounted before)
