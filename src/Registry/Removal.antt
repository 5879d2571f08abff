-- ===== src/Registry/Removal.antt =====
-- Validating and removing engines keeps the tables well-formed.
use classicswarm.Prelude.{
  ℕ, ◌<◌, ◌≡◌, refl, sym, ◌∙◌, ap, subst, inl, inr, Bool, true, false, Option, none, some, arith,
  find_first-some, Bool-cases, Option-cases,
}
use classicswarm.Text.{Str, str_eq}
use classicswarm.Assoc.{lookup, has_key, insert, delete, values}
use classicswarm.Int64.{ℤ}
use classicswarm.Engine.{Engine, handle_id_conflict, set_err_msg, validation_complete, disconnect}
use classicswarm.Registry.{
  Registry, write, get_engine_by_addr, register_engine, validate_pending_engine, remove_engine,
}
use classicswarm.Registry.Addresses.{IsWellFormed, write_self}
use classicswarm.Registry.Names.{
  SameNames, disconnect-SameNames, validation_complete-SameNames, has_key-lookup,
}
use classicswarm.Registry.Edits.{
  Replaces, stored-IsWellFormed, unpended-IsWellFormed, unregistered-IsWellFormed,
  moved-IsWellFormed,
}

-- A result that is no panic has well-formed tables.
abbrev IsKept : Option (Registry × Bool) → Type 0
IsKept none = Unit
IsKept (some (d, b)) = IsWellFormed d

module _ (now : ℤ) (r : ℕ) (f : Engine) (c : Registry) (w : IsWellFormed c) (used : r < c.next)
    (own : c.store r ≡ f) where
  -- What an engine with the same names may replace.
  again : (g : Engine) → SameNames f g → Replaces c r g
  again g (a, i) = record {
    used = used;
    addr = a ∙ ap (λ e. e.addr) (sym own);
    id = λ j l. i ∙ ap (λ e. e.id) (sym own) ∙ w.engine_id j r l;
  }

  validated-IsWellFormed :
      (o : ℕ)
      → lookup f.addr c.pending_engines ≡ some o
      → IsWellFormed (record {
        engines = insert f.id r c.engines;
        pending_engines = delete f.addr c.pending_engines;
        store = write r (validation_complete f) c.store;
        next = c.next;
      })
  validated-IsWellFormed o h =
      let (a, i) = validation_complete-SameNames f in
      let g = validation_complete f in
      let self = write_self r g c.store in
      moved-IsWellFormed (record c { store = write r g c.store })
        (stored-IsWellFormed c w r g (again g (a, i))) r o f.id f.addr used
        (ap (λ e. e.id) self ∙ i) (ap (λ e. e.addr) self ∙ a) h

  dropped-IsWellFormed :
      (g : Engine)
      → SameNames f g
      → IsWellFormed (record c {
        store = write r g c.store;
        pending_engines = delete f.addr c.pending_engines;
      })
  dropped-IsWellFormed g s =
      unpended-IsWellFormed (record c { store = write r g c.store })
        (stored-IsWellFormed c w r g (again g s)) f.addr

  conflict-IsWellFormed :
      (other : Str)
      → IsWellFormed (record c { store = write r (handle_id_conflict now other f) c.store })
  conflict-IsWellFormed other = stored-IsWellFormed c w r (handle_id_conflict now other f) (
      again (handle_id_conflict now other f)
        (unfold handle_id_conflict set_err_msg in (refl, refl)))

  registered-IsWellFormed : IsKept (register_engine now r f c)
  unfolding register_engine
  registered-IsWellFormed = elim (Bool-cases (has_key f.addr c.pending_engines)) [
    | inr k ↦ rw (k, register_engine) w
    | inl k ↦
        let (o, l) = has_key-lookup f.addr c.pending_engines k in
        elim (Option-cases (lookup f.id c.engines)) [
          | inl e ↦ rw (k, register_engine, e) (validated-IsWellFormed o l)
          | inr (old, e) ↦ elim (Bool-cases (str_eq (c.store old).addr f.addr)) [
            | inr n ↦ rw (k, register_engine, e, n) (conflict-IsWellFormed (c.store old).addr)
            | inl n ↦ elim (Option-cases (disconnect f)) [
              | inl q ↦ rw (k, register_engine, e, n, q) tt
              | inr (g, q) ↦
                  rw (k, register_engine, e, n, q)
                    (dropped-IsWellFormed g (disconnect-SameNames f g q))
            ]
          ]
        ]
  ]

kept_result :
    (o : Option (Registry × Bool)) (d : Registry) (b : Bool)
    → IsKept o
    → o ≡ some (d, b)
    → IsWellFormed d
kept_result o d b k h = subst IsKept h k

-- Validating an object r whose attempt to connect has made it f, which has the same address, and
-- the same ID where r is registered, keeps the tables well-formed, whether or not the engine was
-- reached, and also if r is not among the pending engines any more.
pub validate_pending_engine-IsWellFormed :
    (now : ℤ) (r : ℕ) (f : Engine) (reached : Bool) (c d : Registry) (b : Bool)
    → IsWellFormed c
    → Replaces c r f
    → validate_pending_engine now r f reached c ≡ some (d, b)
    → IsWellFormed d
unfolding validate_pending_engine
validate_pending_engine-IsWellFormed now r f true c d b w p h =
    kept_result (register_engine now r f (record c { store = write r f c.store })) d b
      (registered-IsWellFormed now r f (record c { store = write r f c.store })
        (stored-IsWellFormed c w r f p) p.used (write_self r f c.store))
      h
validate_pending_engine-IsWellFormed now r f false c d b w p h =
    kept_result (some (record c { store = write r f c.store }, false)) d b
      (stored-IsWellFormed c w r f p) h

get_engine_by_addr-used :
    (addr : Str) (c : Registry) (r : ℕ)
    → IsWellFormed c
    → get_engine_by_addr addr c ≡ some r
    → r < c.next
unfolding get_engine_by_addr
get_engine_by_addr-used addr c r w h = elim (Option-cases (lookup addr c.pending_engines)) [
  | inr (q, e) ↦ w.pending_used addr r (ground arith)
  | inl e ↦
      w.engine_used r
        (find_first-some (λ q. str_eq (c.store q).addr addr) r (values c.engines) (ground arith)).0
]

removed-IsWellFormed : (addr : Str) (c : Registry) → IsWellFormed c → IsKept (remove_engine addr c)
unfolding remove_engine
removed-IsWellFormed addr c w = elim (Option-cases (get_engine_by_addr addr c)) [
  | inl e ↦ rw (e, remove_engine) w
  | inr (r, e) ↦ elim (Option-cases (disconnect (c.store r))) [
    | inl q ↦ rw (e, remove_engine, q) tt
    | inr (g, q) ↦
        let (a, i) = disconnect-SameNames (c.store r) g q in
        let d = record c { store = write r g c.store } in
        let v = stored-IsWellFormed c w r g (record {
          used = get_engine_by_addr-used addr c r w e;
          addr = a;
          id = λ j l. i ∙ w.engine_id j r l;
        }) in
        elim (Bool-cases (has_key addr c.pending_engines)) [
          | inl k ↦ rw (e, remove_engine, q, k) (unpended-IsWellFormed d v addr)
          | inr k ↦ rw (e, remove_engine, q, k) (unregistered-IsWellFormed d v g.id)
        ]
  ]
]

-- Removing an engine keeps the tables well-formed.
pub remove_engine-IsWellFormed :
    (addr : Str) (c d : Registry) (b : Bool)
    → IsWellFormed c
    → remove_engine addr c ≡ some (d, b)
    → IsWellFormed d
remove_engine-IsWellFormed addr c d b w h =
    kept_result (remove_engine addr c) d b (removed-IsWellFormed addr c w) h
