-- ===== src/Network/Uniq.antt =====
-- Uniq: one network for each ID, with the endpoints of all that have it.
use classicswarm.Prelude.{
  ◌≡◌, ◌≢◌, refl, sym, ◌∙◌, ap, subst, ◌⊎◌, inl, inr, true, false, List, [], ◌∷◌, Option, none,
  some, arith, keep, In, In-keep_of, Every, if◌then◌else◌, Bool-cases,
}
use classicswarm.Text.{Str, str_eq}
use classicswarm.Text.Laws.{str_eq→eq, str_eq_iff, str_eq_refl}
use classicswarm.Assoc.{Assoc, lookup, has_key, insert, values}
use classicswarm.Assoc.Laws.{lookup-insert, has_key-insert, has_key_of_lookup, In-values_of_lookup}
use classicswarm.Assoc.Keys.{HasDistinctKeys}
use classicswarm.Network.Merged.{absorb_all, Combined, absorb_all-Combined}
use classicswarm.Network.{Network, absorb, gather, uniq}

unfoldable pub combine : List Network → Option Network
unfolding absorb_all
combine [] = none
combine (n ∷ ns) = some (absorb_all ns n)

-- The networks with an ID, in order.
abbrev pub with_id : Str → List Network → List Network
with_id id ns = keep (λ n. str_eq n.id id) ns

abbrev combine_onto : Option Network → List Network → Option Network
combine_onto none ns = combine ns
combine_onto (some m) ns = some (absorb_all ns m)

lookup-gather :
    (id : Str) (ns : List Network) (tmp : Assoc Network)
    → lookup id (gather ns tmp) ≡ combine_onto (lookup id tmp) (with_id id ns)
unfolding gather keep combine absorb_all
lookup-gather id [] tmp = onto_nil (lookup id tmp)
  where
    onto_nil : (o : Option Network) → o ≡ combine_onto o []
    onto_nil none = refl
    onto_nil (some m) = refl
lookup-gather id (n ∷ ns) tmp =
    lookup-gather id ns (insert n.id (absorb n (lookup n.id tmp)) tmp)
    ∙ rw (lookup-insert n.id id (absorb n (lookup n.id tmp)) tmp)
        (by_id (Bool-cases (str_eq n.id id)))
  where
    onto :
        (o : Option Network)
        → combine_onto (some (absorb n o)) (with_id id ns) ≡ combine_onto o (n ∷ with_id id ns)
    onto none = refl
    onto (some m) = refl

    by_id :
        (str_eq n.id id ≡ true) ⊎ (str_eq n.id id ≡ false)
        → combine_onto
            (if str_eq n.id id then some (absorb n (lookup n.id tmp)) else lookup id tmp)
            (with_id id ns)
          ≡ combine_onto
              (lookup id tmp)
              (if str_eq n.id id then n ∷ with_id id ns else with_id id ns)
    by_id (inl e) = rw e (
        ap (λ i. combine_onto (some (absorb n (lookup i tmp))) (with_id id ns))
          (str_eq→eq n.id id e)
        ∙ onto (lookup id tmp))
    by_id (inr e) = rw e refl

-- The keys are the IDs, and each stands once.
abbrev IsTidy : Assoc Network → Type 0
IsTidy [] = Unit
IsTidy ((k, n) ∷ m) = (n.id ≡ k) × (has_key k m ≡ false) × IsTidy m

insert-IsTidy :
    (k : Str) (n : Network) (m : Assoc Network) → n.id ≡ k → IsTidy m → IsTidy (insert k n m)
unfolding insert has_key
insert-IsTidy k n [] h t = (h, refl, tt)
insert-IsTidy k n ((j, v) ∷ m) h (a, b, c) = elim (Bool-cases (str_eq j k)) [
  | inl e ↦ rw e (h ∙ sym (str_eq→eq j k e), b, c)
  | inr e ↦ rw e (
    a,
    ground (arith, has_key-insert k j n m, str_eq_iff k j, str_eq_iff j k),
    insert-IsTidy k n m h c,
  )
]

absorb-id :
    (n : Network) (id : Str) (tmp : Assoc Network)
    → n.id ≡ id
    → IsTidy tmp
    → (absorb n (lookup id tmp)).id ≡ id
unfolding absorb lookup
absorb-id n id [] h t = h
absorb-id n id ((k, m) ∷ tmp) h (a, b, c) = elim (Bool-cases (str_eq k id)) [
  | inl e ↦ rw e (a ∙ str_eq→eq k id e)
  | inr e ↦ rw e (absorb-id n id tmp h c)
]

gather-IsTidy : (ns : List Network) (tmp : Assoc Network) → IsTidy tmp → IsTidy (gather ns tmp)
unfolding gather
gather-IsTidy [] tmp t = t
gather-IsTidy (n ∷ ns) tmp t =
    gather-IsTidy ns (insert n.id (absorb n (lookup n.id tmp)) tmp)
      (insert-IsTidy n.id (absorb n (lookup n.id tmp)) tmp (absorb-id n n.id tmp refl t) t)

-- No two networks of the list have the same ID.
abbrev pub IsDistinct : List Network → Type 0
IsDistinct [] = Unit
IsDistinct (n ∷ ns) = Every (λ m. m.id ≢ n.id) ns × IsDistinct ns

absent-Every :
    (k : Str) (m : Assoc Network)
    → has_key k m ≡ false
    → IsTidy m
    → Every (λ n. n.id ≢ k) (values m)
unfolding has_key values
absent-Every k [] h t = tt
absent-Every k ((j, n) ∷ m) h (a, b, c) =
    (λ e. ground (arith, str_eq_iff j k), absent-Every k m (ground arith) c)

values-IsDistinct : (m : Assoc Network) → IsTidy m → IsDistinct (values m)
unfolding values
values-IsDistinct [] t = tt
values-IsDistinct ((k, n) ∷ m) (a, b, c) = (rw a (absent-Every k m b c), values-IsDistinct m c)

lookup_of_In :
    (n : Network) (m : Assoc Network) → IsTidy m → In n (values m) → lookup n.id m ≡ some n
unfolding lookup values
lookup_of_In n [] t i = absurd i
lookup_of_In n ((k, v) ∷ m) (a, b, c) (inl e) = ground (arith, str_eq_iff k n.id)
lookup_of_In n ((k, v) ∷ m) (a, b, c) (inr i) =
    let h = lookup_of_In n m c i in
    elim (Bool-cases (str_eq k n.id)) [
      | inl e ↦
          let p : has_key k m ≡ true = rw (str_eq→eq k n.id e) (has_key_of_lookup n.id n m h) in
          absurd (ground arith)
      | inr e ↦ rw e h
    ]

lookup-id : (k : Str) (v : Network) (m : Assoc Network) → IsTidy m → lookup k m ≡ some v → v.id ≡ k
unfolding lookup
lookup-id k v [] t h = absurd (ground arith)
lookup-id k v ((j, w) ∷ m) (a, b, c) h = elim (Bool-cases (str_eq j k)) [
  | inl e ↦ let same : w ≡ v = ground arith in subst (λ n. n.id ≡ k) same (a ∙ str_eq→eq j k e)
  | inr e ↦ lookup-id k v m c (ground arith)
]

combine_id :
    (id : Str) (n : Network) (ns : List Network)
    → In n (with_id id ns)
    → (m : Network) × (combine (with_id id ns) ≡ some m)
combine_id id n ns i = first (with_id id ns) i
  where
    first : (ms : List Network) → In n ms → (m : Network) × (combine ms ≡ some m)
    first [] i = absurd i
    first (m ∷ ms) i = unfold combine in (absorb_all ms m, refl)

combine-Combined :
    (ns : List Network) (m : Network)
    → Every (λ n. HasDistinctKeys n.containers) ns
    → combine ns ≡ some m
    → Combined ns m
unfolding combine
combine-Combined [] m d h = absurd (ground arith)
combine-Combined (n ∷ ns) m d h =
    let same : absorb_all ns n ≡ m = ground arith in
    subst (Combined (n ∷ ns)) same (absorb_all-Combined n ns d.1)

with_id-HasDistinctKeys :
    (id : Str) (ns : List Network)
    → Every (λ n. HasDistinctKeys n.containers) ns
    → Every (λ n. HasDistinctKeys n.containers) (with_id id ns)
unfolding keep
with_id-HasDistinctKeys id [] d = tt
with_id-HasDistinctKeys id (n ∷ ns) (a, d) = elim (Bool-cases (str_eq n.id id)) [
  | inl e ↦ rw (e, keep) (a, with_id-HasDistinctKeys id ns d)
  | inr e ↦ rw (e, keep) (with_id-HasDistinctKeys id ns d)
]

-- What the list `out` is for the networks `ns`.
pub record IsUniq (ns out : List Network) : Type 0 where
  pub distinct : IsDistinct out
  pub complete : (n : Network) → In n ns → (m : Network) × In m out × (m.id ≡ n.id)
  pub combined : (m : Network) → In m out → Combined (with_id m.id ns) m

-- The networks that Uniq returns have different IDs; each ID of a given network is among them; and
-- each of them is, but for its endpoints, the first given network of its ID, and has under each
-- container ID the endpoint that the last given network of its ID with an endpoint there has. The
-- endpoints of each given network are a map: each key stands once.
pub uniq-IsUniq :
    (ns : List Network) → Every (λ n. HasDistinctKeys n.containers) ns → IsUniq ns (uniq ns)
unfolding uniq
uniq-IsUniq ns d =
    let t = gather-IsTidy ns [] tt in
    record {
      distinct = values-IsDistinct (gather ns []) t;
      complete = λ n i.
          let j = In-keep_of (λ m. str_eq m.id n.id) n ns i (str_eq_refl n.id) in
          let (m, e) = combine_id n.id n ns j in
          let l = lookup-gather n.id ns [] ∙ e in
          let k = In-values_of_lookup n.id m (gather ns []) l in
          (m, k, lookup-id n.id m (gather ns []) t l);
      combined = λ m i.
          combine-Combined (with_id m.id ns) m (with_id-HasDistinctKeys m.id ns d)
            (sym (lookup-gather m.id ns []) ∙ lookup_of_In m (gather ns []) t i);
    }
