-- ===== src/Network/Merged.antt =====
-- The networks of one ID as Uniq merges them (cluster/network.go).
use classicswarm.Prelude.{
  ◌≡◌, refl, sym, ◌∙◌, ap, inl, inr, false, List, [], ◌∷◌, Option, none, some, arith, Every,
  Bool-cases, Option-cases,
}
use classicswarm.Text.{Str, str_eq}
use classicswarm.Text.Laws.{str_eq→eq}
use classicswarm.Assoc.{Assoc, lookup, has_key, insert}
use classicswarm.Assoc.Laws.{lookup-insert, has_key_of_lookup}
use classicswarm.Assoc.Keys.{HasDistinctKeys}
use classicswarm.Network.{Network, EndpointResource, put_endpoints, absorb}

-- A network with what later ones of its ID add to it.
unfoldable pub absorb_all : List Network → Network → Network
unfolding absorb
absorb_all [] n = n
absorb_all (m ∷ ms) n = absorb_all ms (absorb m (some n))

-- The first, if there is one, or the second.
abbrev pub latest {ℓ} : {A : Type ℓ} → Option A → Option A → Option A
latest (some a) o = some a
latest none o = o

-- The endpoint under the key in the last of the networks that has one.
unfoldable pub last_endpoint : Str → List Network → Option EndpointResource
unfolding lookup
last_endpoint k [] = none
last_endpoint k (n ∷ ns) = latest (last_endpoint k ns) (lookup k n.containers)

-- What the network is for the networks of its ID: the first of them, but for its endpoints; and
-- under each key it has the endpoint of the last one that has an endpoint there.
pub record Combined (ns : List Network) (m : Network) : Type 0 where
  pub first : Network
  pub later : List Network
  pub parts : ns ≡ first ∷ later
  pub as_first : m ≡ record first { containers = m.containers }
  pub endpoints : (k : Str) → lookup k m.containers ≡ last_endpoint k ns

missing : (k : Str) (m : Assoc EndpointResource) → has_key k m ≡ false → lookup k m ≡ none
missing k m h = elim (Option-cases (lookup k m)) [
  | inl e ↦ e
  | inr (v, e) ↦ let p = has_key_of_lookup k v m e in absurd (ground arith)
]

latest-latest : {A : Type 0} (a b c : Option A) → latest (latest a b) c ≡ latest a (latest b c)
latest-latest none b c = refl
latest-latest (some a) b c = refl

lookup-put_endpoints :
    (k : Str) (es m : Assoc EndpointResource)
    → HasDistinctKeys es
    → lookup k (put_endpoints es m) ≡ latest (lookup k es) (lookup k m)
unfolding put_endpoints lookup
lookup-put_endpoints k [] m d = refl
lookup-put_endpoints k ((id, e) ∷ es) m (a, d) =
    let rest = lookup-put_endpoints k es (insert id e m) d in
    let one = lookup-insert id k e m in
    elim (Bool-cases (str_eq id k)) [
      | inl same ↦
          let gone : lookup k es ≡ none = missing k es (rw (sym (str_eq→eq id k same)) a) in
          rw (rest, one, same, gone) refl
      | inr other ↦ rw (rest, one, other) refl
    ]

absorb_all-endpoints :
    (k : Str) (ns : List Network) (n : Network)
    → Every (λ m. HasDistinctKeys m.containers) ns
    → lookup k (absorb_all ns n).containers ≡ latest (last_endpoint k ns) (lookup k n.containers)
unfolding absorb_all absorb last_endpoint
absorb_all-endpoints k [] n d = refl
absorb_all-endpoints k (m ∷ ms) n (a, d) =
    absorb_all-endpoints k ms (absorb m (some n)) d
    ∙ ap (latest (last_endpoint k ms)) (lookup-put_endpoints k m.containers n.containers a)
    ∙ sym (latest-latest (last_endpoint k ms) (lookup k m.containers) (lookup k n.containers))

absorb_all-as_first :
    (ns : List Network) (n : Network)
    → absorb_all ns n ≡ record n { containers = (absorb_all ns n).containers }
unfolding absorb_all absorb
absorb_all-as_first [] n = refl
absorb_all-as_first (m ∷ ms) n = absorb_all-as_first ms (absorb m (some n))

pub absorb_all-Combined :
    (n : Network) (ns : List Network)
    → Every (λ m. HasDistinctKeys m.containers) ns
    → Combined (n ∷ ns) (absorb_all ns n)
unfolding last_endpoint
absorb_all-Combined n ns d = record {
  first = n;
  later = ns;
  parts = refl;
  as_first = absorb_all-as_first ns n;
  endpoints = λ k. absorb_all-endpoints k ns n d;
}
