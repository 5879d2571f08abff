-- ===== src/EventHandlers.antt =====
-- cluster/event_map.go: the set of event handlers. A handler is a reference, and a map without
-- values is the list of its keys in one of the orders of `range`; `is_api` tells the handlers with
-- a watch queue.
pub mod Sets
pub mod Samples
use classicswarm.Prelude.{
  ℕ, Bool, true, false, not, ◌==◌, List, [], ◌∷◌, ◌++◌, Option, none, some, any, keep,
  if◌then◌else◌,
}

-- NewClusterEventHandlers
unfoldable pub new_event_handlers : List ℕ
new_event_handlers = []

unfoldable pub is_registered : ℕ → List ℕ → Bool
unfolding any
is_registered h hs = any (λ k. k == h) hs

-- Handle: all handlers are called, and their errors only logged.
unfoldable pub handle : {S : Type 0} → (ℕ → S → S) → List ℕ → S → S
handle call [] s = s
handle call (h ∷ hs) s = handle call hs (call h s)

-- `none` is the error that the handler is set already.
unfoldable pub register_event_handler : ℕ → List ℕ → Option (List ℕ)
unfolding is_registered
register_event_handler h hs = if is_registered h hs then none else some (h ∷ hs)

unfoldable pub unregister_event_handler : ℕ → List ℕ → List ℕ
unfolding keep
unregister_event_handler h hs = keep (λ k. not (k == h)) hs

-- The handlers that are left, and those whose queue is closed.
unfoldable pub close_watch_queues : (is_api : ℕ → Bool) → List ℕ → List ℕ × List ℕ
unfolding keep
close_watch_queues is_api hs = (keep (λ k. not (is_api k)) hs, keep is_api hs)
