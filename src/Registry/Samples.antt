-- ===== src/Registry/Samples.antt =====
-- A registry to which an engine is added.
use classicswarm.Prelude.{ℕ, ◌≡◌, refl, [], none}
use classicswarm.Text.{codes}
use classicswarm.Int64.{pos}
use classicswarm.Engine.{Engine, new_engine}
use classicswarm.Registry.{Registry, get_engine_by_addr, add_engine, remove_engine}
use classicswarm.Registry.Addresses.{IsWellFormed}
use classicswarm.Registry.Reach.{
  empty_registry, start, adds, Reachable-IsWellFormed, remove-add_engine,
}

unfoldable unused : ℕ → Engine
unused r = new_engine [] (pos 5) (pos 3) (pos 0)

abbrev none_yet : Registry
none_yet = empty_registry unused

Reachable-IsWellFormed_example :
    IsWellFormed (add_engine (pos 5) (pos 3) (pos 7) (codes "10.0.0.1:2375") none_yet).0
Reachable-IsWellFormed_example =
    Reachable-IsWellFormed (add_engine (pos 5) (pos 3) (pos 7) (codes "10.0.0.1:2375") none_yet).0
      (adds (pos 5) (pos 3) (pos 7) (codes "10.0.0.1:2375") (start unused))

unknown : get_engine_by_addr (codes "10.0.0.1:2375") none_yet ≡ none
unfolding get_engine_by_addr
unknown = refl

remove-add_engine_example :
    remove_engine
      (codes "10.0.0.1:2375")
      (add_engine (pos 5) (pos 3) (pos 7) (codes "10.0.0.1:2375") none_yet).0
    ≡ none
remove-add_engine_example =
    remove-add_engine (pos 5) (pos 3) (pos 7) (codes "10.0.0.1:2375") none_yet unknown
