-- ===== src/Registry.antt =====
-- cluster/swarm/cluster.go: the two tables of engines. Engines are shared objects: a table holds
-- references into a store, and an operation on an engine changes it for every holder. What an
-- attempt to connect makes of an engine is an argument.
pub mod Addresses
pub mod Names
pub mod Edits
pub mod Removal
pub mod Reach
pub mod Samples
use classicswarm.Prelude.{
  ℕ, suc, Bool, true, false, not, ◌==◌, List, [], ◌∷◌, Option, none, some, find_first,
  if◌then◌else◌,
}
use classicswarm.Text.{Str, str_eq}
use classicswarm.Assoc.{Assoc, lookup, has_key, insert, delete, values}
use classicswarm.Int64.{ℤ}
use classicswarm.Engine.{Engine, new_engine, handle_id_conflict, validation_complete, disconnect}
use classicswarm.Engine.Steps.{register_event_handler}

-- `engines` is indexed by ID, `pending_engines` by address; `next` is a reference not in use.
pub record Registry : Type 0 where
  pub engines : Assoc ℕ
  pub pending_engines : Assoc ℕ
  pub store : ℕ → Engine
  pub next : ℕ

unfoldable pub write : ℕ → Engine → (ℕ → Engine) → ℕ → Engine
write r e store q = if q == r then e else store q

unfoldable pub get_engine_by_addr : Str → Registry → Option ℕ
unfolding lookup values find_first str_eq
get_engine_by_addr addr c = elim (lookup addr c.pending_engines) [
  | some r ↦ some r
  | none ↦ find_first (λ r. str_eq (c.store r).addr addr) (values c.engines)
]

-- A new engine with the cluster as its handler. RegisterEventHandler fails where there is one.
unfoldable pub registered : Engine → Engine
unfolding register_event_handler
registered e = elim (register_event_handler e) [ none ↦ e | some f ↦ f ]

-- addEngine, and whether the address was new. The ratio and the number of failures are options.
unfoldable pub add_engine : (ratio retry now : ℤ) → Str → Registry → Registry × Bool
unfolding get_engine_by_addr registered new_engine insert write
add_engine ratio retry now addr c = elim (get_engine_by_addr addr c) [
  | some r ↦ (c, false)
  | none ↦ (
    record {
      engines = c.engines;
      pending_engines = insert addr c.next c.pending_engines;
      store = write c.next (registered (new_engine addr ratio retry now)) c.store;
      next = suc c.next;
    },
    true,
  )
]

-- The critical part of validatePendingEngine, for the engine `f` that the connection made of the
-- object r. `none` is a panic of Disconnect.
unfoldable pub register_engine : ℤ → ℕ → Engine → Registry → Option (Registry × Bool)
unfolding lookup has_key insert delete write handle_id_conflict validation_complete disconnect
    str_eq
register_engine now r f c =
    if not (has_key f.addr c.pending_engines)
    then some (c, false)
    else elim (lookup f.id c.engines) [
      | none ↦ some (
        record {
          engines = insert f.id r c.engines;
          pending_engines = delete f.addr c.pending_engines;
          store = write r (validation_complete f) c.store;
          next = c.next;
        },
        true,
      )
      | some old ↦
          if not (str_eq (c.store old).addr f.addr)
          then some (
            record c { store = write r (handle_id_conflict now (c.store old).addr f) c.store },
            false,
          )
          else elim (disconnect f) [
            | none ↦ none
            | some g ↦ some (
              record c {
                store = write r g c.store;
                pending_engines = delete f.addr c.pending_engines;
              },
              false,
            )
          ]
    ]

-- validatePendingEngine: the object r is `f` after the attempt to connect.
unfoldable pub validate_pending_engine :
    ℤ → ℕ → (f : Engine) (reached : Bool) → Registry → Option (Registry × Bool)
unfolding write register_engine
validate_pending_engine now r f reached c =
    let d = record c { store = write r f c.store } in
    if reached then register_engine now r f d else some (d, false)

-- removeEngine, and whether there was such an engine; `none` is a panic of Disconnect.
unfoldable pub remove_engine : Str → Registry → Option (Registry × Bool)
unfolding get_engine_by_addr disconnect write has_key delete
remove_engine addr c = elim (get_engine_by_addr addr c) [
  | none ↦ some (c, false)
  | some r ↦ elim (disconnect (c.store r)) [
    | none ↦ none
    | some g ↦ some (
      if has_key addr c.pending_engines
          then record c {
            store = write r g c.store;
            pending_engines = delete addr c.pending_engines;
          }
          else record c { store = write r g c.store; engines = delete g.id c.engines },
      true,
    )
  ]
]
