-- ===== src/Registry/Edits.antt =====
-- The single changes that the operations make to the registry keep it well-formed.
use classicswarm.Prelude.{
  ℕ, ◌<◌, ◌≡◌, refl, sym, ◌∙◌, ap, subst, inl, inr, ◌==◌, some, arith, Bool-cases,
}
use classicswarm.Text.{Str}
use classicswarm.Assoc.{lookup, insert, delete}
use classicswarm.Engine.{Engine}
use classicswarm.Registry.{Registry, write}
use classicswarm.Registry.Addresses.{IsWellFormed, insert_inv, delete_inv}
use classicswarm.Registry.Names.{In-values-insert, In-values-delete}

-- An engine that the object r may become: it keeps its address, and its ID where it is registered.
pub record Replaces (c : Registry) (r : ℕ) (f : Engine) : Type 0 where
  pub used : r < c.next
  pub addr : f.addr ≡ (c.store r).addr
  pub id : (i : Str) → lookup i c.engines ≡ some r → f.id ≡ i

module _ (c : Registry) (w : IsWellFormed c) (r : ℕ) (f : Engine) (p : Replaces c r f) where
  addr_kept : (q : ℕ) → (write r f c.store q).addr ≡ (c.store q).addr
  unfolding write
  addr_kept q = elim (Bool-cases (q == r)) [
    | inl h ↦ rw h (p.addr ∙ ap (λ t. (c.store t).addr) (ground arith))
    | inr h ↦ rw h refl
  ]

  stored_id : (i : Str) (q : ℕ) → lookup i c.engines ≡ some q → (write r f c.store q).id ≡ i
  unfolding write
  stored_id i q l = elim (Bool-cases (q == r)) [
    | inl h ↦ rw h (
        p.id i (let same : q ≡ r = ground arith in subst (λ t. lookup i c.engines ≡ some t) same l))
    | inr h ↦ rw h (w.engine_id i q l)
  ]

  pub stored-IsWellFormed : IsWellFormed (record c { store = write r f c.store })
  stored-IsWellFormed = record {
    pending_addr = λ a q l. addr_kept q ∙ w.pending_addr a q l;
    engine_id = stored_id;
    pending_used = w.pending_used;
    engine_used = w.engine_used;
    apart = λ a i t q l k same. w.apart a i t q l k (sym (addr_kept q) ∙ same);
    unique = λ i j t q l k same. w.unique i j t q l k (sym (addr_kept t) ∙ same ∙ addr_kept q);
  }

module _ (c : Registry) (w : IsWellFormed c) where
  pub unpended-IsWellFormed :
      (a : Str) → IsWellFormed (record c { pending_engines = delete a c.pending_engines })
  unpended-IsWellFormed a = record {
    pending_addr = λ b q l. w.pending_addr b q (delete_inv a b q c.pending_engines l).1;
    engine_id = w.engine_id;
    pending_used = λ b q l. w.pending_used b q (delete_inv a b q c.pending_engines l).1;
    engine_used = w.engine_used;
    apart = λ b i t q l k. w.apart b i t q (delete_inv a b t c.pending_engines l).1 k;
    unique = w.unique;
  }

  pub unregistered-IsWellFormed :
      (j : Str) → IsWellFormed (record c { engines = delete j c.engines })
  unregistered-IsWellFormed j = record {
    pending_addr = w.pending_addr;
    engine_id = λ i q l. w.engine_id i q (delete_inv j i q c.engines l).1;
    pending_used = w.pending_used;
    engine_used = λ q m. w.engine_used q (In-values-delete j q c.engines m);
    apart = λ b i t q l k. w.apart b i t q l (delete_inv j i q c.engines k).1;
    unique = λ i k t q l m.
        w.unique i k t q (delete_inv j i t c.engines l).1 (delete_inv j k q c.engines m).1;
  }

  -- An object leaves the pending engines and is registered under its ID.
  pub moved-IsWellFormed :
      (r o : ℕ) (id addr : Str)
      → r < c.next
      → (c.store r).id ≡ id
      → (c.store r).addr ≡ addr
      → lookup addr c.pending_engines ≡ some o
      → IsWellFormed (record c {
        engines = insert id r c.engines;
        pending_engines = delete addr c.pending_engines;
      })
  moved-IsWellFormed r o id addr u own_id own_addr h = record {
    pending_addr = λ b q l. w.pending_addr b q (delete_inv addr b q c.pending_engines l).1;
    engine_id = λ i q l. elim (insert_inv id i r q c.engines l) [
      | inl (s, t) ↦ rw t (own_id ∙ s)
      | inr k ↦ w.engine_id i q k
    ];
    pending_used = λ b q l. w.pending_used b q (delete_inv addr b q c.pending_engines l).1;
    engine_used = λ q m. elim (In-values-insert id r q c.engines m) [
      | inl t ↦ omega (arith, u, t)
      | inr k ↦ w.engine_used q k
    ];
    apart = λ b i t q l k same.
        let (n, m) = delete_inv addr b t c.pending_engines l in
        elim (insert_inv id i r q c.engines k) [
          | inl (s, v) ↦ n (sym own_addr ∙ ap (λ z. (c.store z).addr) (sym v) ∙ same)
          | inr g ↦ w.apart b i t q m g same
        ];
    unique = λ i j t q l k same. elim (insert_inv id i r t c.engines l) [
      | inl (s, v) ↦ elim (insert_inv id j r q c.engines k) [
        | inl (s', v') ↦ sym s ∙ s'
        | inr g ↦
            absurd (w.apart addr j o q h g (sym same ∙ ap (λ z. (c.store z).addr) v ∙ own_addr))
      ]
      | inr g ↦ elim (insert_inv id j r q c.engines k) [
        | inl (s', v') ↦
            absurd (w.apart addr i o t h g (same ∙ ap (λ z. (c.store z).addr) v' ∙ own_addr))
        | inr g' ↦ w.unique i j t q g g' same
      ]
    ];
  }
