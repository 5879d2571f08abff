-- ===== src/EventHandlers/Samples.antt =====
-- Three handlers, of which the second has a watch queue.
use classicswarm.Prelude.{ℕ, ◌≡◌, refl, Bool, true, false, ◌==◌, List, [], ◌∷◌, if◌then◌else◌}
use classicswarm.EventHandlers.{new_event_handlers, handle}
use classicswarm.EventHandlers.Sets.{
  Operation, register, unregister, close_queues, perform_all, specify_all, times,
  perform_all-Represents,
}

abbrev second : ℕ → Bool
second h = h == 2

abbrev history : List Operation
history = register 1 ∷ register 2 ∷ register 1 ∷ close_queues ∷ register 3 ∷ unregister 3 ∷ []

perform_all-Represents_example :
    ((h : ℕ)
      → times h (handle (λ k calls. k ∷ calls) (perform_all second history new_event_handlers).0 [])
        ≡ (if (specify_all second history (λ k. false)).0 h then 1 else 0))
    × ((perform_all second history new_event_handlers).1
        ≡ (specify_all second history (λ k. false)).1)
perform_all-Represents_example = perform_all-Represents second history

third_fails :
    (perform_all second history new_event_handlers).1
    ≡ true ∷ true ∷ false ∷ true ∷ true ∷ true ∷ []
unfolding perform_all new_event_handlers
third_fails = refl
