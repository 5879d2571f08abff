-- ===== src/Registry/Addresses.antt =====
-- The two tables of engines hold an address at most once.
use classicswarm.Prelude.{
  ℕ, suc, ◌<◌, ◌≡◌, ◌≢◌, refl, sym, ◌∙◌, ap, ◌⊎◌, inl, inr, none, some, arith, find_first,
  find_first-none, In, Option-cases,
}
use classicswarm.Text.{Str, str_eq}
use classicswarm.Text.Laws.{str_eq_iff}
use classicswarm.Assoc.{Assoc, lookup, insert, delete, values}
use classicswarm.Assoc.Laws.{lookup-insert, lookup-delete, In-values_of_lookup}
use classicswarm.Int64.{ℤ}
use classicswarm.Engine.{Engine, new_engine}
use classicswarm.Engine.Steps.{register_event_handler}
use classicswarm.Registry.{Registry, write, get_engine_by_addr, registered, add_engine}

-- A pending engine is found under its address and a registered one under its ID; all are in use;
-- and no two of them have the same address.
pub record IsWellFormed (c : Registry) : Type 0 where
  pub pending_addr : (a : Str) (r : ℕ) → lookup a c.pending_engines ≡ some r → (c.store r).addr ≡ a
  pub engine_id : (i : Str) (r : ℕ) → lookup i c.engines ≡ some r → (c.store r).id ≡ i
  pub pending_used : (a : Str) (r : ℕ) → lookup a c.pending_engines ≡ some r → r < c.next
  pub engine_used : (r : ℕ) → In r (values c.engines) → r < c.next
  pub apart :
      (a i : Str) (r q : ℕ)
      → lookup a c.pending_engines ≡ some r
      → lookup i c.engines ≡ some q
      → (c.store q).addr ≢ a
  pub unique :
      (i j : Str) (r q : ℕ)
      → lookup i c.engines ≡ some r
      → lookup j c.engines ≡ some q
      → (c.store r).addr ≡ (c.store q).addr
      → i ≡ j

-- No engine of either table has the address.
get_engine_by_addr-none :
    (addr : Str) (c : Registry)
    → get_engine_by_addr addr c ≡ none
    → (lookup addr c.pending_engines ≡ none)
      × ((i : Str) (r : ℕ) → lookup i c.engines ≡ some r → (c.store r).addr ≢ addr)
unfolding get_engine_by_addr
get_engine_by_addr-none addr c h = elim (Option-cases (lookup addr c.pending_engines)) [
  | inr (r, e) ↦ absurd (ground arith)
  | inl e ↦ (
    e,
    λ i r l same.
        let p =
          find_first-none (λ r. str_eq (c.store r).addr addr) r (values c.engines) (none_found e h)
            (In-values_of_lookup i r c.engines l) in
        ground (arith, str_eq_iff (c.store r).addr addr),
  )
]
  where
    none_found :
        lookup addr c.pending_engines ≡ none
        → get_engine_by_addr addr c ≡ none
        → find_first (λ r. str_eq (c.store r).addr addr) (values c.engines) ≡ none
    none_found e h = ground arith

pub insert_inv :
    (k a : Str) (v r : ℕ) (m : Assoc ℕ)
    → lookup a (insert k v m) ≡ some r
    → ((k ≡ a) × (r ≡ v)) ⊎ (lookup a m ≡ some r)
insert_inv k a v r m h = ground (arith, lookup-insert k a v m, str_eq_iff k a)

pub delete_inv :
    (k a : Str) (r : ℕ) (m : Assoc ℕ)
    → lookup a (delete k m) ≡ some r
    → (k ≢ a) × (lookup a m ≡ some r)
delete_inv k a r m h = (
  λ e. ground (arith, lookup-delete k a m, str_eq_iff k a),
  ground (arith, lookup-delete k a m, str_eq_iff k a),
)

pub write_other : (r q : ℕ) (e : Engine) (s : ℕ → Engine) → q ≢ r → write r e s q ≡ s q
unfolding write
write_other r q e s n = ground arith

pub write_self : (r : ℕ) (e : Engine) (s : ℕ → Engine) → write r e s r ≡ e
unfolding write
write_self r e s = ground arith

registered_addr :
    (addr : Str) (ratio retry now : ℤ) → (registered (new_engine addr ratio retry now)).addr ≡ addr
unfolding registered register_event_handler new_engine
registered_addr addr ratio retry now = refl

module _ (e : Engine) (c : Registry) (w : IsWellFormed c) where
  old_kept : (q : ℕ) → q < c.next → write c.next e c.store q ≡ c.store q
  old_kept q l = write_other c.next q e c.store (λ h. omega (arith, l, h))

  added-IsWellFormed :
      get_engine_by_addr e.addr c ≡ none
      → IsWellFormed (record {
        engines = c.engines;
        pending_engines = insert e.addr c.next c.pending_engines;
        store = write c.next e c.store;
        next = suc c.next;
      })
  added-IsWellFormed h =
      let (free, others) = get_engine_by_addr-none e.addr c h in
      record {
        pending_addr = λ a r l. elim (insert_inv e.addr a c.next r c.pending_engines l) [
          | inl (p, q) ↦ rw (q, write_self c.next e c.store) p
          | inr k ↦ rw (old_kept r (w.pending_used a r k)) (w.pending_addr a r k)
        ];
        engine_id = λ i r l.
            rw (old_kept r (w.engine_used r (In-values_of_lookup i r c.engines l)))
              (w.engine_id i r l);
        pending_used = λ a r l. elim (insert_inv e.addr a c.next r c.pending_engines l) [
          | inl (p, q) ↦ omega (arith, q)
          | inr k ↦ omega (arith, w.pending_used a r k)
        ];
        engine_used = λ r m. omega (arith, w.engine_used r m);
        apart = λ a i r q l k same.
            let kept = old_kept q (w.engine_used q (In-values_of_lookup i q c.engines k)) in
            elim (insert_inv e.addr a c.next r c.pending_engines l) [
              | inl (p, t) ↦ others i q k (ap (λ f. f.addr) (sym kept) ∙ same ∙ sym p)
              | inr m ↦ w.apart a i r q m k (ap (λ f. f.addr) (sym kept) ∙ same)
            ];
        unique = λ i j r q l k same. w.unique i j r q l k (
            ap (λ f. f.addr)
              (sym (old_kept r (w.engine_used r (In-values_of_lookup i r c.engines l))))
            ∙ same
            ∙ ap (λ f. f.addr)
                (old_kept q (w.engine_used q (In-values_of_lookup j q c.engines k))));
      }

-- Adding an engine keeps the tables well-formed, whether its address is new or not.
pub add_engine-IsWellFormed :
    (ratio retry now : ℤ) (addr : Str) (c : Registry)
    → IsWellFormed c
    → IsWellFormed (add_engine ratio retry now addr c).0
unfolding add_engine
add_engine-IsWellFormed ratio retry now addr c w = elim (Option-cases (get_engine_by_addr addr c)) [
  | inr (r, e) ↦ rw (e, add_engine) w
  | inl e ↦
      rw (e, add_engine)
        (added-IsWellFormed (registered (new_engine addr ratio retry now)) c w
          (unfold registered register_event_handler new_engine in e))
]
