-- ===== src/Cluster/Forgetting.antt =====
-- What RemoveNetwork leaves of a global network.
use classicswarm.Prelude.{
  ◌≡◌, refl, sym, ◌∙◌, ap, true, false, List, [], ◌∷◌, Option, none, some, arith, Every, inl, inr,
  Bool-cases, Option-cases,
}
use classicswarm.Text.{Str, str_eq}
use classicswarm.Text.Laws.{str_eq_refl}
use classicswarm.Int64.{ℤ}
use classicswarm.Assoc.{Assoc, lookup, insert, has_key}
use classicswarm.Assoc.Laws.{has_key-delete}
use classicswarm.Network.{Network}
use classicswarm.Engine.{Engine, ApiError}
use classicswarm.Engine.Caches.{remove_network, delete_network, checked}
use classicswarm.Engine.Kept.{check_connection_err-SameData}
use classicswarm.Cluster.{Cluster}
use classicswarm.Cluster.Operations.{put_engine}
use classicswarm.Cluster.Networks.{
  each_engine, try_engines, forget_network, is_global, after_removal, remove_cluster_network,
}

-- The networks that the engines of a table have in their caches.
unfoldable pub known_networks : Assoc Engine → List (Assoc Network)
known_networks [] = []
known_networks ((key, e) ∷ es) = e.networks ∷ known_networks es

-- Without an error no engine knows the network any more; with an error all know what they knew.
abbrev pub Outcome : Network → Cluster → Cluster × Option ApiError → Type 0
Outcome n c (d, none) = Every (λ m. has_key n.id m ≡ false) (known_networks d.engines)
Outcome n c (d, some x) = known_networks d.engines ≡ known_networks c.engines

forgotten :
    (n : Network) (es : Assoc Engine)
    → Every (λ m. has_key n.id m ≡ false) (known_networks (each_engine (delete_network n) es))
unfolding known_networks each_engine delete_network
forgotten n [] = tt
forgotten n ((key, e) ∷ es) =
    (ground (arith, has_key-delete n.id n.id e.networks, str_eq_refl n.id), forgotten n es)

failed_removal :
    (now : ℤ) (x : ApiError) (n : Network) (e : Engine)
    → (remove_network now (some x) n e).0.networks ≡ e.networks
unfolding remove_network checked
failed_removal now x n e = (check_connection_err-SameData now (some x) e).networks

put_known :
    (key : Str) (e f : Engine) (es : Assoc Engine)
    → lookup key es ≡ some e
    → f.networks ≡ e.networks
    → known_networks (insert key f es) ≡ known_networks es
unfolding known_networks lookup insert
put_known key e f [] l h = absurd (ground arith)
put_known key e f ((k, g) ∷ es) l h = elim (Bool-cases (str_eq k key)) [
  | inl q ↦
      let same : g ≡ e = ground arith in
      rw (q, known_networks) (ap (λ m. m ∷ known_networks es) (h ∙ sym (ap (λ o. o.networks) same)))
  | inr q ↦
      rw (q, known_networks) (ap (λ m. g.networks ∷ m) (put_known key e f es (ground arith) h))
]

-- Where no engine removed the network, they know what they knew.
tried :
    (now : ℤ) (removed : Str → Option ApiError) (n : Network) (es : Assoc Engine)
    → (try_engines now removed n es).1 ≡ false
    → known_networks (try_engines now removed n es).0 ≡ known_networks es
unfolding known_networks try_engines
tried now removed n [] h = refl
tried now removed n ((key, e) ∷ es) h = elim (Option-cases (removed key)) [
  | inl q ↦ absurd (ground arith)
  | inr (x, q) ↦
      let t = tried now removed n es (rw (q, try_engines) at h) in
      let k : (remove_network now (removed key) n e).0.networks ≡ e.networks =
        rw q (failed_removal now x n e) in
      rw (q, try_engines)
        (ap (λ m. m ∷ known_networks (try_engines now removed n es).0) k
          ∙ ap (λ m. e.networks ∷ m) t)
]

module _ (now : ℤ) (removed : Str → Option ApiError) (n : Network)
    (global : is_global n ≡ true) where
  after_removal-Outcome :
      (r : Option ApiError) (b c : Cluster)
      → ((x : ApiError) → r ≡ some x → known_networks c.engines ≡ known_networks b.engines)
      → Outcome n b (after_removal now removed n r c)
  unfolding after_removal forget_network
  after_removal-Outcome none b c k = rw global (forgotten n c.engines)
  after_removal-Outcome (some x) b c k = elim (Bool-cases x.refused) [
    | inr e ↦ rw e (k x refl)
    | inl e ↦ elim (Bool-cases (try_engines now removed n c.engines).1) [
      | inl f ↦
          rw (e, after_removal, global, f) (forgotten n (try_engines now removed n c.engines).0)
      | inr f ↦ rw (e, after_removal, global, f) (tried now removed n c.engines f ∙ k x refl)
    ]
  ]

  -- A global network that RemoveNetwork removes without an error, be it on its own engine or, where
  -- that cannot be reached, on another one, is in the cache of no engine of the cluster; and if it
  -- returns an error, every engine has the networks in its cache that it had before.
  pub remove_cluster_network-Outcome :
      (own : Option ApiError) (c : Cluster)
      → Outcome n c (remove_cluster_network now own removed n c)
  unfolding remove_cluster_network put_engine
  remove_cluster_network-Outcome own c = elim (Option-cases (lookup n.engine.id c.engines)) [
    | inl e ↦ rw (e, remove_cluster_network) (after_removal-Outcome own c c (λ x h. refl))
    | inr (f, e) ↦
        let (g, r) = remove_network now own n f in
        rw (e, remove_cluster_network)
          (after_removal-Outcome r c (put_engine n.engine.id g c)
            (λ x h. put_known n.engine.id f g c.engines e (only_failed own f x h)))
  ]
    where
      only_failed :
          (o : Option ApiError) (f : Engine) (x : ApiError)
          → (remove_network now o n f).1 ≡ some x
          → (remove_network now o n f).0.networks ≡ f.networks
      only_failed none f x h = absurd (unfold remove_network in ground arith)
      only_failed (some y) f x h = failed_removal now y n f
