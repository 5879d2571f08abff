-- ===== src/Network/Endpoints.antt =====
-- RemoveDuplicateEndpoints: one endpoint for each endpoint ID.
use classicswarm.Prelude.{
  ◌≡◌, refl, sym, ◌∙◌, ap, subst, inl, inr, true, false, List, [], ◌∷◌, some, arith, any, any_some,
  any_of, In, if◌then◌else◌, Bool-cases,
}
use classicswarm.Text.{Str, str_eq, contains}
use classicswarm.Text.Laws.{str_eq→eq, str_eq_refl}
use classicswarm.Assoc.{Assoc, lookup, insert, values}
use classicswarm.Assoc.Laws.{lookup-insert, In-values_of_lookup}
use classicswarm.Assoc.Keys.{HasDistinctKeys, lookup_of_In, In-of_lookup, key_of_value}
use classicswarm.Network.{
  Network, EndpointResource, endpoint_map, read_endpoint, copy_endpoints,
  remove_duplicate_endpoints,
}
use classicswarm.Network.Chosen.{
  lookup_of_has_key, Chosen, SeenIn, endpoint_map-Chosen, SeenIn-In, SeenIn-of_In,
  endpoint_map-HasDistinctKeys,
}

lookup-copy_endpoints :
    (i : Str) (is : List Str) (es out : Assoc EndpointResource)
    → lookup i (copy_endpoints is es out)
      ≡ (if any (λ j. str_eq j i) is then some (read_endpoint (lookup i es)) else lookup i out)
unfolding copy_endpoints any
lookup-copy_endpoints i [] es out = refl
lookup-copy_endpoints i (j ∷ is) es out =
    lookup-copy_endpoints i is es (insert j (read_endpoint (lookup j es)) out)
    ∙ (elim (Bool-cases (str_eq j i)) [
      | inl e ↦
          let same = str_eq→eq j i e in
          ground (
            arith,
            lookup-insert j i (read_endpoint (lookup j es)) out,
            ap (λ k. read_endpoint (lookup k es)) same,
          )
      | inr e ↦ ground (arith, lookup-insert j i (read_endpoint (lookup j es)) out)
    ])

-- What the endpoints `out` are of the endpoints `es`.
pub record Deduplicated (es out : Assoc EndpointResource) : Type 0 where
  pub kept : (i : Str) (r : EndpointResource) → lookup i out ≡ some r → lookup i es ≡ some r
  pub covered :
      (i : Str) (r : EndpointResource)
      → lookup i es ≡ some r
      → (j : Str) × (s : EndpointResource) × (lookup j out ≡ some s)
        × (s.endpoint_id ≡ r.endpoint_id)
        × (contains i r.endpoint_id ≡ false → contains j r.endpoint_id ≡ false)
  pub distinct :
      (i j : Str) (r s : EndpointResource)
      → lookup i out ≡ some r
      → lookup j out ≡ some s
      → r.endpoint_id ≡ s.endpoint_id
      → i ≡ j

module _ (es : Assoc EndpointResource) (keys : HasDistinctKeys es) where
  nothing_seen : Chosen (λ i r. ⊥) []
  nothing_seen = record {
    from = λ id i h. absurd (unfold lookup in ground arith);
    every = λ i r h. absurd h;
    preferred = λ i j r h. absurd h;
  }

  abbrev chosen : Assoc Str
  chosen = endpoint_map es []

  all_chosen : Chosen (SeenIn es (λ i r. ⊥)) chosen
  all_chosen = endpoint_map-Chosen es (λ i r. ⊥) [] nothing_seen

  chosen_of :
      (id i : Str)
      → lookup id chosen ≡ some i
      → (s : EndpointResource) × (lookup i es ≡ some s) × (s.endpoint_id ≡ id)
  chosen_of id i l =
      let (s, seen, q) = all_chosen.from id i l in
      elim (SeenIn-In es (λ i r. ⊥) i s seen) [
        | inl z ↦ absurd z
        | inr m ↦ (s, lookup_of_In i s es keys m, q)
      ]

  -- An endpoint of the result: it is one of the given ones, and the chosen one of its ID.
  copied :
      (i : Str) (r : EndpointResource)
      → lookup i (copy_endpoints (values chosen) es []) ≡ some r
      → (lookup i es ≡ some r) × (lookup r.endpoint_id chosen ≡ some i)
  copied i r h = elim (Bool-cases (any (λ j. str_eq j i) (values chosen))) [
    | inr e ↦
        absurd (unfold lookup in ground (arith, lookup-copy_endpoints i (values chosen) es []))
    | inl e ↦
        let (j, m, f) = any_some (λ j. str_eq j i) (values chosen) e in
        let (id, p) =
          key_of_value i chosen (subst (λ k. In k (values chosen)) (str_eq→eq j i f) m) in
        let l = lookup_of_In id i chosen (endpoint_map-HasDistinctKeys es [] tt) p in
        let (s, g, q) = chosen_of id i l in
        let same : s ≡ r =
          let c = lookup-copy_endpoints i (values chosen) es [] in
          unfold read_endpoint in ground arith in
        (
          g ∙ ap some same,
          subst (λ t. lookup t.endpoint_id chosen ≡ some i) same (ap (λ k. lookup k chosen) q ∙ l),
        )
  ]

  covering :
      (i : Str) (r : EndpointResource)
      → lookup i es ≡ some r
      → (j : Str) × (s : EndpointResource) × (lookup j (copy_endpoints (values chosen) es [])
          ≡ some s)
        × (s.endpoint_id ≡ r.endpoint_id)
        × (contains i r.endpoint_id ≡ false → contains j r.endpoint_id ≡ false)
  covering i r h =
      let seen = SeenIn-of_In es (λ i r. ⊥) i r (inr (In-of_lookup i r es h)) in
      let (j, l) = lookup_of_has_key r.endpoint_id chosen (all_chosen.every i r seen) in
      let (s, g, q) = chosen_of r.endpoint_id j l in
      let t : any (λ k. str_eq k j) (values chosen) ≡ true =
        any_of (λ k. str_eq k j) j (values chosen) (In-values_of_lookup r.endpoint_id j chosen l)
          (str_eq_refl j) in
      let c : lookup j (copy_endpoints (values chosen) es []) ≡ some s =
        let f = lookup-copy_endpoints j (values chosen) es [] in
        unfold read_endpoint in ground arith in
      (j, s, c, q, λ n. all_chosen.preferred i j r seen n l)

-- RemoveDuplicateEndpoints keeps endpoints of the network, and of those with one endpoint ID exactly
-- one; where an endpoint with the ID has an index that does not contain the ID, the one that is
-- kept has such an index. The endpoints of the network are a map: no index stands twice.
pub remove_duplicate_endpoints-Deduplicated :
    (n : Network)
    → HasDistinctKeys n.containers
    → Deduplicated n.containers (remove_duplicate_endpoints n).containers
unfolding remove_duplicate_endpoints
remove_duplicate_endpoints-Deduplicated n keys = record {
  kept = λ i r h. (copied n.containers keys i r h).0;
  covered = λ i r h. covering n.containers keys i r h;
  distinct = λ i j r s h g e.
      let a = (copied n.containers keys i r h).1 in
      let b = (copied n.containers keys j s g).1 in
      some_inj (sym a ∙ ap (λ k. lookup k (endpoint_map n.containers [])) e ∙ b);
}
  where
    some_inj : {a b : Str} → some a ≡ some b → a ≡ b
    some_inj h = ground arith
