-- ===== src/Registry/Reach.antt =====
-- The registries that the manager reaches, and an engine that is lost before it was ever reached.
use classicswarm.Prelude.{ℕ, zero, suc, ◌≡◌, refl, ◌∙◌, ap, Bool, [], none, some, arith}
use classicswarm.Text.{Str}
use classicswarm.Assoc.{lookup, insert, values}
use classicswarm.Assoc.Laws.{lookup-insert_self}
use classicswarm.Int64.{ℤ}
use classicswarm.Engine.{Engine, new_engine, disconnect, stop_engine}
use classicswarm.Engine.Steps.{register_event_handler}
use classicswarm.Registry.{
  Registry, write, get_engine_by_addr, registered, add_engine, validate_pending_engine,
  remove_engine,
}
use classicswarm.Registry.Addresses.{IsWellFormed, write_self, add_engine-IsWellFormed}
use classicswarm.Registry.Edits.{Replaces}
use classicswarm.Registry.Removal.{validate_pending_engine-IsWellFormed, remove_engine-IsWellFormed}

abbrev pub empty_registry : (ℕ → Engine) → Registry
empty_registry store = record { engines = []; pending_engines = []; store = store; next = zero }

-- What discovery and validation make of a registry, one operation after the other.
pub data Reachable : Registry → Type 0 where
  start : (store : ℕ → Engine) → Reachable (empty_registry store)
  adds :
      {c : Registry} (ratio retry now : ℤ) (addr : Str)
      → Reachable c
      → Reachable (add_engine ratio retry now addr c).0
  validates :
      {c d : Registry} (now : ℤ) (r : ℕ) (f : Engine) (reached : Bool) {b : Bool}
      → Reachable c
      → Replaces c r f
      → validate_pending_engine now r f reached c ≡ some (d, b)
      → Reachable d
  removes :
      {c d : Registry} (addr : Str) {b : Bool}
      → Reachable c
      → remove_engine addr c ≡ some (d, b)
      → Reachable d

start-IsWellFormed : (store : ℕ → Engine) → IsWellFormed (empty_registry store)
unfolding lookup values
start-IsWellFormed store = record {
  pending_addr = λ a r l. cc;
  engine_id = λ i r l. cc;
  pending_used = λ a r l. let q : none ≡ some r = l in absurd (ground arith);
  engine_used = λ r m. absurd m;
  apart = λ a i r q l k. let e : none ≡ some r = l in absurd (ground arith);
  unique = λ i j r q l k same. let e : none ≡ some r = l in absurd (ground arith);
}

-- In every registry that is reached by adding, validating and removing engines, a pending engine
-- stands under its address and a registered one under its ID, and no address stands for two
-- engines: neither for two registered ones nor for a pending and a registered one.
pub Reachable-IsWellFormed : (c : Registry) → Reachable c → IsWellFormed c
Reachable-IsWellFormed c (start store) = start-IsWellFormed store
Reachable-IsWellFormed c (adds ratio retry now addr w) =
    add_engine-IsWellFormed ratio retry now addr _ (Reachable-IsWellFormed _ w)
Reachable-IsWellFormed c (validates now r f reached w p h) =
    validate_pending_engine-IsWellFormed now r f reached _ c _ (Reachable-IsWellFormed _ w) p h
Reachable-IsWellFormed c (removes addr w h) =
    remove_engine-IsWellFormed addr _ c _ (Reachable-IsWellFormed _ w) h

new_disconnect :
    (addr : Str) (ratio retry now : ℤ)
    → disconnect (registered (new_engine addr ratio retry now)) ≡ none
unfolding disconnect stop_engine registered register_event_handler new_engine
new_disconnect addr ratio retry now = refl

pending_found :
    (addr : Str) (d : Registry) (r : ℕ)
    → lookup addr d.pending_engines ≡ some r
    → get_engine_by_addr addr d ≡ some r
unfolding get_engine_by_addr
pending_found addr d r h = ground arith

remove_stuck :
    (addr : Str) (d : Registry) (r : ℕ)
    → get_engine_by_addr addr d ≡ some r
    → disconnect (d.store r) ≡ none
    → remove_engine addr d ≡ none
unfolding remove_engine
remove_stuck addr d r h k = rw (h, remove_engine, k) refl

-- An engine whose address is added and removed again before its monitor was made, which the first
-- lines of a successful connection do: the removal panics.
pub remove-add_engine :
    (ratio retry now : ℤ) (addr : Str) (c : Registry)
    → get_engine_by_addr addr c ≡ none
    → remove_engine addr (add_engine ratio retry now addr c).0 ≡ none
unfolding add_engine
remove-add_engine ratio retry now addr c h =
    rw (h, add_engine)
      (remove_stuck addr added c.next found
        (ap disconnect (write_self c.next e c.store) ∙ new_disconnect addr ratio retry now))
  where
    e : Engine
    e = registered (new_engine addr ratio retry now)

    added : Registry
    added = record {
      engines = c.engines;
      pending_engines = insert addr c.next c.pending_engines;
      store = write c.next e c.store;
      next = suc c.next;
    }

    found : get_engine_by_addr addr added ≡ some c.next
    found = pending_found addr added c.next (lookup-insert_self addr c.next c.pending_engines)
