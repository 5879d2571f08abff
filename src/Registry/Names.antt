-- ===== src/Registry/Names.antt =====
-- The operations of an engine that the registry uses keep its address and its ID; and the entries
-- of a table behind a change.
use classicswarm.Prelude.{
  ℕ, ◌≡◌, refl, subst, ◌⊎◌, inl, inr, true, [], ◌∷◌, none, some, arith, In, Bool-cases,
}
use classicswarm.Text.{Str, str_eq}
use classicswarm.Assoc.{Assoc, lookup, has_key, insert, delete, values}
use classicswarm.Engine.{
  Engine, Monitor, absent, running, stopped, emit_event, validation_complete, disconnect,
  stop_engine, stopped_engine,
}
use classicswarm.Engine.Steps.{is_pending, is_unhealthy, is_healthy, is_disconnected, state_cases}

pub In-values-insert :
    (k : Str) (v q : ℕ) (m : Assoc ℕ) → In q (values (insert k v m)) → (q ≡ v) ⊎ In q (values m)
unfolding insert values
In-values-insert k v q [] (inl e) = inl e
In-values-insert k v q [] (inr e) = absurd e
In-values-insert k v q ((j, u) ∷ m) i = ground (arith, In-values-insert k v q m)

pub In-values-delete :
    (k : Str) (q : ℕ) (m : Assoc ℕ) → In q (values (delete k m)) → In q (values m)
unfolding delete values
In-values-delete k q [] i = i
In-values-delete k q ((j, u) ∷ m) i = ground (arith, In-values-delete k q m)

pub has_key-lookup : (k : Str) (m : Assoc ℕ) → has_key k m ≡ true → (r : ℕ) × (lookup k m ≡ some r)
unfolding has_key lookup
has_key-lookup k [] h = cc
has_key-lookup k ((j, v) ∷ m) h = elim (Bool-cases (str_eq j k)) [
  | inl e ↦ (v, ground arith)
  | inr e ↦ let (r, l) = has_key-lookup k m (ground arith) in (r, ground arith)
]

-- The two engines have the same names.
abbrev pub SameNames : Engine → Engine → Type 0
SameNames e f = (f.addr ≡ e.addr) × (f.id ≡ e.id)

emit_event-SameNames : (event : Str) (e : Engine) → SameNames e (emit_event event e)
unfolding emit_event
emit_event-SameNames event e = elim (Bool-cases e.has_handler) [
  | inl h ↦ rw (h, emit_event) (refl, refl)
  | inr h ↦ rw (h, emit_event) (refl, refl)
]

stop_engine-SameNames : (e f : Engine) → stop_engine e ≡ some f → SameNames e f
unfolding stop_engine stopped_engine
stop_engine-SameNames e f h = elim (Bool-cases e.stop_closed) [
  | inl c ↦ absurd (ground arith)
  | inr c ↦ by_monitor e.monitor refl (rw (c, stop_engine) at h)
]
  where
    by_monitor :
        (m : Monitor)
        → e.monitor ≡ m
        → elim e.monitor [ absent ↦ none | stopped ↦ none | running ↦ some (stopped_engine e) ]
          ≡ some f
        → SameNames e f
    by_monitor absent q k = absurd (ground arith)
    by_monitor stopped q k = absurd (ground arith)
    by_monitor running q k =
        let done : some (stopped_engine e) ≡ some f = rw q at k in
        let same : stopped_engine e ≡ f = cc in subst (SameNames e) same (emit_event-SameNames _ _)

pub disconnect-SameNames : (e f : Engine) → disconnect e ≡ some f → SameNames e f
unfolding disconnect
disconnect-SameNames e f h = elim (state_cases e) [
  | is_disconnected p ↦ let same : e ≡ f = ground arith in subst (SameNames e) same (refl, refl)
  | is_pending p ↦ stop_engine-SameNames e f (ground arith)
  | is_unhealthy p ↦ stop_engine-SameNames e f (ground arith)
  | is_healthy p ↦ stop_engine-SameNames e f (ground arith)
]

pub validation_complete-SameNames : (e : Engine) → SameNames e (validation_complete e)
unfolding validation_complete
validation_complete-SameNames e = (ground arith, ground arith)
