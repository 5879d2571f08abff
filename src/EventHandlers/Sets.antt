-- ===== src/EventHandlers/Sets.antt =====
-- The handlers against an abstract set.
use classicswarm.Prelude.{
  ℕ, suc, ◌+◌, ◌≡◌, refl, ◌∙◌, ap, Bool, true, false, not, ◌&&◌, ◌||◌, ◌==◌, List, [], ◌∷◌, Option,
  none, some, any, keep, arith, if◌then◌else◌, inl, inr, Bool-cases,
}
use classicswarm.EventHandlers.{
  new_event_handlers, is_registered, handle, register_event_handler, unregister_event_handler,
  close_watch_queues,
}

pub data Operation : Type 0 where
  register unregister : (h : ℕ) → Operation
  close_queues : Operation

unfoldable pub or_same : List ℕ → Option (List ℕ) → List ℕ
or_same hs none = hs
or_same hs (some ks) = ks

unfoldable pub succeeded : Option (List ℕ) → Bool
succeeded none = false
succeeded (some ks) = true

-- One operation, and whether it succeeded.
unfoldable pub perform : (is_api : ℕ → Bool) → Operation → List ℕ → List ℕ × Bool
unfolding register_event_handler unregister_event_handler close_watch_queues or_same succeeded
perform is_api (register h) hs =
    (or_same hs (register_event_handler h hs), succeeded (register_event_handler h hs))
perform is_api (unregister h) hs = (unregister_event_handler h hs, true)
perform is_api close_queues hs = ((close_watch_queues is_api hs).0, true)

unfoldable pub perform_all : (is_api : ℕ → Bool) → List Operation → List ℕ → List ℕ × List Bool
unfolding perform
perform_all is_api [] hs = (hs, [])
perform_all is_api (o ∷ os) hs =
    let (ks, b) = perform is_api o hs in let (js, bs) = perform_all is_api os ks in (js, b ∷ bs)

-- The same on a set of handlers.
unfoldable pub specify : (is_api : ℕ → Bool) → Operation → (ℕ → Bool) → (ℕ → Bool) × Bool
specify is_api (register h) set = ((λ k. (k == h) || set k), not (set h))
specify is_api (unregister h) set = ((λ k. not (k == h) && set k), true)
specify is_api close_queues set = ((λ k. not (is_api k) && set k), true)

unfoldable pub specify_all :
    (is_api : ℕ → Bool) → List Operation → (ℕ → Bool) → (ℕ → Bool) × List Bool
unfolding specify
specify_all is_api [] set = (set, [])
specify_all is_api (o ∷ os) set =
    let (next, b) = specify is_api o set in
    let (last, bs) = specify_all is_api os next in (last, b ∷ bs)

unfoldable pub times : ℕ → List ℕ → ℕ
times h [] = 0
times h (k ∷ ks) = if k == h then suc (times h ks) else times h ks

-- An event is handed to each handler of the set once, and to no other.
abbrev pub Represents : List ℕ → (ℕ → Bool) → Type 0
Represents hs set = (h : ℕ) → times h hs ≡ (if set h then 1 else 0)

registered : (h : ℕ) (hs : List ℕ) (set : ℕ → Bool) → Represents hs set → is_registered h hs ≡ set h
unfolding is_registered any times
registered h hs set r = counted hs ∙ (let e = r h in ground arith)
  where
    counted : (ks : List ℕ) → is_registered h ks ≡ not (times h ks == 0)
    counted [] = refl
    counted (k ∷ ks) = ground (arith, counted ks)

times-keep :
    (h : ℕ) (p : ℕ → Bool) (hs : List ℕ) → times h (keep p hs) ≡ (if p h then times h hs else 0)
unfolding times keep
times-keep h p [] = ground arith
times-keep h p (k ∷ ks) = elim (Bool-cases (k == h)) [
  | inl e ↦ let same : k ≡ h = ground arith in rw same (ground (arith, times-keep h p ks))
  | inr e ↦ ground (arith, times-keep h p ks)
]

times-handle :
    (h : ℕ) (hs calls : List ℕ)
    → times h (handle (λ k s. k ∷ s) hs calls) ≡ times h hs + times h calls
unfolding times handle
times-handle h [] calls = omega arith
times-handle h (k ∷ ks) calls = ground (arith, times-handle h ks (k ∷ calls))

perform-Represents :
    (is_api : ℕ → Bool) (o : Operation) (hs : List ℕ) (set : ℕ → Bool)
    → Represents hs set
    → Represents (perform is_api o hs).0 (specify is_api o set).0
      × ((perform is_api o hs).1 ≡ (specify is_api o set).1)
unfolding perform specify register_event_handler or_same succeeded unregister_event_handler
    close_watch_queues times
perform-Represents is_api (register h) hs set r = elim (Bool-cases (is_registered h hs)) [
  | inl e ↦
      let g = registered h hs set r in
      (
        λ k.
            let q = r k in
            let same : (k == h) ≡ true → set k ≡ true =
              λ f. let i : k ≡ h = ground arith in ap set i ∙ (ground arith) in
            rw (e, register_event_handler) (ground arith),
        ground arith,
      )
  | inr e ↦
      let g = registered h hs set r in
      (
        λ k.
            let q = r k in
            let same : (k == h) ≡ true → set k ≡ false =
              λ f. let i : k ≡ h = ground arith in ap set i ∙ (ground arith) in
            rw (e, register_event_handler) (ground arith),
        ground arith,
      )
]
perform-Represents is_api (unregister h) hs set r =
    (λ k. let q = r k in ground (arith, times-keep k (λ j. not (j == h)) hs), refl)
perform-Represents is_api close_queues hs set r =
    (λ k. let q = r k in ground (arith, times-keep k (λ j. not (is_api j)) hs), refl)

module _ (is_api : ℕ → Bool) where
  performed :
      (os : List Operation) (hs : List ℕ) (set : ℕ → Bool)
      → Represents hs set
      → Represents (perform_all is_api os hs).0 (specify_all is_api os set).0
        × ((perform_all is_api os hs).1 ≡ (specify_all is_api os set).1)
  unfolding perform_all specify_all
  performed [] hs set r = (r, refl)
  performed (o ∷ os) hs set r =
      let (q, e) = perform-Represents is_api o hs set r in
      let (p, f) = performed os (perform is_api o hs).0 (specify is_api o set).0 q in
      (p, rw (e, f) refl)

  -- After any sequence of registrations, removals and closings of the queues, the table of event
  -- handlers stands for the set that the same sequence makes, with the same errors: an event is
  -- handed once to each handler of the set, and to no other.
  pub perform_all-Represents :
      (os : List Operation)
      → ((h : ℕ)
          → times h (handle (λ k calls. k ∷ calls) (perform_all is_api os new_event_handlers).0 [])
            ≡ (if (specify_all is_api os (λ k. false)).0 h then 1 else 0))
        × ((perform_all is_api os new_event_handlers).1 ≡ (specify_all is_api os (λ k. false)).1)
  unfolding new_event_handlers
  perform_all-Represents os =
      let (p, e) = performed os [] (λ k. false) (λ h. unfold times in refl) in
      (
        λ h.
            times-handle h (perform_all is_api os []).0 []
            ∙ (let q = p h in unfold times in omega arith),
        e,
      )
