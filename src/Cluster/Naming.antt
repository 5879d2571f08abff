-- ===== src/Cluster/Naming.antt =====
-- checkNameUniqueness of cluster/swarm/cluster.go, said without the loops: which names are free.
use classicswarm.Prelude.{
  ◌≡◌, ◌≢◌, refl, inl, inr, true, false, List, [], ◌∷◌, ◌++◌, arith, is_empty, any, any_of, In,
  subst,
}
use classicswarm.Text.{Str, codes, str_eq}
use classicswarm.Text.Laws.{str_eq_iff, str_eq_refl}
use classicswarm.Assoc.{values}
use classicswarm.Container.{Container}
use classicswarm.Engine.{Engine}
use classicswarm.Engine.Caches.{list_containers}
use classicswarm.Cluster.{
  Cluster, PendingContainer, gather_all, containers, is_name, bears, is_awaited,
  check_name_uniqueness,
}

-- The name is free: no container of a registered engine bears it, with or without a slash, and
-- nor does a pending container; the empty name always is.
pub record IsFree (name : Str) (c : Cluster) : Type 0 where
  pub unused :
      (e : Engine) (k : Container) (cname : Str)
      → name ≢ []
      → In e (values c.engines)
      → In k (values e.containers)
      → In cname k.names
      → (cname ≢ name) × (cname ≢ codes "/" ++ name)
  pub unawaited :
      (p : PendingContainer) → name ≢ [] → In p (values c.pending_containers) → p.name ≢ name

In-append_left : {A : Type 0} (a : A) (xs ys : List A) → In a xs → In a (xs ++ ys)
In-append_left a [] ys i = absurd i
In-append_left a (x ∷ xs) ys (inl e) = inl e
In-append_left a (x ∷ xs) ys (inr i) = inr (In-append_left a xs ys i)

In-append_right : {A : Type 0} (a : A) (xs ys : List A) → In a ys → In a (xs ++ ys)
In-append_right a [] ys i = i
In-append_right a (x ∷ xs) ys i = inr (In-append_right a xs ys i)

In-gather_all :
    {A : Type 0} (of : Engine → List A) (e : Engine) (a : A) (es : List Engine)
    → In e es
    → In a (of e)
    → In a (gather_all of es)
unfolding gather_all
In-gather_all of e a [] i j = absurd i
In-gather_all of e a (f ∷ es) (inl h) j =
    In-append_left a (of f) (gather_all of es) (subst (λ o. In a (of o)) h j)
In-gather_all of e a (f ∷ es) (inr i) j =
    In-append_right a (of f) (gather_all of es) (In-gather_all of e a es i j)

pub check_name_uniqueness-IsFree :
    (name : Str) (c : Cluster) → check_name_uniqueness name c ≡ true → IsFree name c
unfolding check_name_uniqueness is_empty
check_name_uniqueness-IsFree [] c h = record {
  unused = λ e k cname ne i j l. absurd (ne refl);
  unawaited = λ p ne i. absurd (ne refl);
}
check_name_uniqueness-IsFree (b ∷ name) c h =
    let full = b ∷ name in
    let borne : any (bears full) (containers c) ≡ false = ground arith in
    let awaited : is_awaited full c.pending_containers ≡ false = ground arith in
    record {
      unused = λ e k cname ne i j l.
          let m : In k (containers c) =
            unfold containers list_containers in
            In-gather_all list_containers e k (values c.engines) i j in
          let without : is_name full cname ≡ true → ⊥ = λ t.
            let u : bears full k ≡ true = unfold bears in any_of (is_name full) cname k.names l t in
            let v = any_of (bears full) k (containers c) m u in absurd (ground arith) in
          (
            λ s. without (unfold is_name in ground (arith, str_eq_iff cname full)),
            λ s. without (unfold is_name in ground (arith, str_eq_iff cname (codes "/" ++ full))),
          );
      unawaited = λ p ne i s.
          let u : is_awaited full c.pending_containers ≡ true =
            unfold is_awaited in
            any_of (λ q. str_eq q.name full) p (values c.pending_containers) i
              (rw s (str_eq_refl full)) in
          absurd (ground arith);
    }
