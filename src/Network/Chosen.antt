-- ===== src/Network/Chosen.antt =====
-- The first loop of RemoveDuplicateEndpoints: the index that it chooses for each endpoint ID.
use classicswarm.Prelude.{
  ◌≡◌, refl, sym, ap, subst, ◌⊎◌, inl, inr, Bool, true, false, not, ◌||◌, [], ◌∷◌, some, arith, In,
  if◌then◌else◌, Bool-cases,
}
use classicswarm.Text.{Str, str_eq, contains}
use classicswarm.Text.Laws.{str_eq→eq, str_eq_refl}
use classicswarm.Assoc.{Assoc, lookup, has_key, insert}
use classicswarm.Assoc.Laws.{lookup-insert, has_key-insert}
use classicswarm.Assoc.Keys.{HasDistinctKeys, insert-HasDistinctKeys}
use classicswarm.Network.{EndpointResource, endpoint_map}

pub lookup_of_has_key :
    {V : Type 0} (k : Str) (m : Assoc V) → has_key k m ≡ true → (v : V) × (lookup k m ≡ some v)
unfolding has_key lookup
lookup_of_has_key k [] h = absurd (ground arith)
lookup_of_has_key k ((j, v) ∷ m) h = elim (Bool-cases (str_eq j k)) [
  | inl e ↦ (v, rw e refl)
  | inr e ↦ let (w, f) = lookup_of_has_key k m (ground arith) in (w, rw e f)
]

-- The index that is kept of each endpoint ID, against the endpoints that were seen.
pub record Chosen (seen : Str → EndpointResource → Type 0) (m : Assoc Str) : Type 0 where
  pub from :
      (id i : Str) → lookup id m ≡ some i → (r : EndpointResource) × seen i r × (r.endpoint_id ≡ id)
  pub every : (i : Str) (r : EndpointResource) → seen i r → has_key r.endpoint_id m ≡ true
  pub preferred :
      (i j : Str) (r : EndpointResource)
      → seen i r
      → contains i r.endpoint_id ≡ false
      → lookup r.endpoint_id m ≡ some j
      → contains j r.endpoint_id ≡ false

abbrev pub Also :
    Str → EndpointResource → (Str → EndpointResource → Type 0) → Str → EndpointResource → Type 0
Also i r seen j s = ((i ≡ j) × (r ≡ s)) ⊎ seen j s

insert-Chosen :
    (seen : Str → EndpointResource → Type 0) (i : Str) (r : EndpointResource) (m : Assoc Str)
    → (has_key r.endpoint_id m ≡ false) ⊎ (contains i r.endpoint_id ≡ false)
    → Chosen seen m
    → Chosen (Also i r seen) (insert r.endpoint_id i m)
insert-Chosen seen i r m new c = record {
  from = λ id j h. elim (Bool-cases (str_eq r.endpoint_id id)) [
    | inl e ↦
        let l = lookup-insert r.endpoint_id id i m in
        let same : i ≡ j = ground arith in (r, inl (same, refl), str_eq→eq r.endpoint_id id e)
    | inr e ↦
        let l = lookup-insert r.endpoint_id id i m in
        let (s, p, q) = c.from id j (ground arith) in (s, inr p, q)
  ];
  every = λ j s g. elim g [
    | inl (a, b) ↦
        subst (λ t. has_key t.endpoint_id (insert r.endpoint_id i m) ≡ true) b
          (ground
            (arith, has_key-insert r.endpoint_id r.endpoint_id i m, str_eq_refl r.endpoint_id))
    | inr p ↦
        let old = c.every j s p in ground (arith, has_key-insert r.endpoint_id s.endpoint_id i m)
  ];
  preferred = λ j k s g n l.
      let at = lookup-insert r.endpoint_id s.endpoint_id i m in
      elim (Bool-cases (str_eq r.endpoint_id s.endpoint_id)) [
        | inl e ↦
            let same : r.endpoint_id ≡ s.endpoint_id = str_eq→eq r.endpoint_id s.endpoint_id e in
            let new_one : i ≡ k = ground arith in
            subst (λ t. contains t s.endpoint_id ≡ false) new_one
              (elim new [
                | inr short ↦ subst (λ t. contains i t ≡ false) same short
                | inl unknown ↦ elim g [
                  | inl (a, b) ↦ subst (λ t. contains t s.endpoint_id ≡ false) (sym a) n
                  | inr p ↦
                      let old = c.every j s p in
                      let none_yet : has_key s.endpoint_id m ≡ false =
                        subst (λ t. has_key t m ≡ false) same unknown in
                      absurd (ground arith)
                ]
              ])
        | inr e ↦ elim g [
          | inl (a, b) ↦
              let z : str_eq s.endpoint_id s.endpoint_id ≡ false =
                subst (λ t. str_eq t.endpoint_id s.endpoint_id ≡ false) b e in
              absurd (ground (arith, str_eq_refl s.endpoint_id))
          | inr p ↦ c.preferred j k s p n (ground arith)
        ]
      ];
}

keep-Chosen :
    (seen : Str → EndpointResource → Type 0) (i : Str) (r : EndpointResource) (m : Assoc Str)
    → has_key r.endpoint_id m ≡ true
    → contains i r.endpoint_id ≡ true
    → Chosen seen m
    → Chosen (Also i r seen) m
keep-Chosen seen i r m known long c = record {
  from = λ id j h. let (s, p, q) = c.from id j h in (s, inr p, q);
  every = λ j s g. elim g [
    | inl (a, b) ↦ subst (λ t. has_key t.endpoint_id m ≡ true) b known
    | inr p ↦ c.every j s p
  ];
  preferred = λ j k s g n l. elim g [
    | inl (a, b) ↦ absurd (
        let z : contains j s.endpoint_id ≡ true =
          subst (λ t. contains t s.endpoint_id ≡ true) a
            (subst (λ t. contains i t.endpoint_id ≡ true) b long) in
        ground arith)
    | inr p ↦ c.preferred j k s p n l
  ];
}

-- The endpoints of a list, and those seen before.
abbrev pub SeenIn :
    Assoc EndpointResource → (Str → EndpointResource → Type 0) → Str → EndpointResource → Type 0
SeenIn [] seen = seen
SeenIn ((i, r) ∷ es) seen = SeenIn es (Also i r seen)

pub endpoint_map-Chosen :
    (es : Assoc EndpointResource) (seen : Str → EndpointResource → Type 0) (m : Assoc Str)
    → Chosen seen m
    → Chosen (SeenIn es seen) (endpoint_map es m)
unfolding endpoint_map
endpoint_map-Chosen [] seen m c = c
endpoint_map-Chosen ((i, r) ∷ es) seen m c =
    endpoint_map-Chosen es (Also i r seen) _
      (step (Bool-cases (has_key r.endpoint_id m)) (Bool-cases (contains i r.endpoint_id)))
  where
    step :
        (has_key r.endpoint_id m ≡ true) ⊎ (has_key r.endpoint_id m ≡ false)
        → (contains i r.endpoint_id ≡ true) ⊎ (contains i r.endpoint_id ≡ false)
        → Chosen (Also i r seen) (
            if not (has_key r.endpoint_id m) || not (contains i r.endpoint_id)
            then insert r.endpoint_id i m
            else m)
    step (inl k) (inl l) = rw (k, l) (keep-Chosen seen i r m k l c)
    step (inl k) (inr l) = rw (k, l) (insert-Chosen seen i r m (inr l) c)
    step (inr k) l = rw k (insert-Chosen seen i r m (inl k) c)

pub SeenIn-In :
    (es : Assoc EndpointResource) (seen : Str → EndpointResource → Type 0) (i : Str)
    (r : EndpointResource)
    → SeenIn es seen i r
    → seen i r ⊎ In (i, r) es
SeenIn-In [] seen i r h = inl h
SeenIn-In ((j, s) ∷ es) seen i r h = elim (SeenIn-In es (Also j s seen) i r h) [
  | inl (inl (a, b)) ↦ inr (inl (rw (a, b) refl))
  | inl (inr p) ↦ inl p
  | inr p ↦ inr (inr p)
]

pub SeenIn-of_In :
    (es : Assoc EndpointResource) (seen : Str → EndpointResource → Type 0) (i : Str)
    (r : EndpointResource)
    → seen i r ⊎ In (i, r) es
    → SeenIn es seen i r
SeenIn-of_In [] seen i r (inl h) = h
SeenIn-of_In [] seen i r (inr h) = absurd h
SeenIn-of_In ((j, s) ∷ es) seen i r (inl h) = SeenIn-of_In es (Also j s seen) i r (inl (inr h))
SeenIn-of_In ((j, s) ∷ es) seen i r (inr (inl e)) =
    SeenIn-of_In es (Also j s seen) i r (inl (inl (sym (ap (λ p. p.0) e), sym (ap (λ p. p.1) e))))
SeenIn-of_In ((j, s) ∷ es) seen i r (inr (inr h)) = SeenIn-of_In es (Also j s seen) i r (inr h)

pub endpoint_map-HasDistinctKeys :
    (es : Assoc EndpointResource) (m : Assoc Str)
    → HasDistinctKeys m
    → HasDistinctKeys (endpoint_map es m)
unfolding endpoint_map
endpoint_map-HasDistinctKeys [] m h = h
endpoint_map-HasDistinctKeys ((i, r) ∷ es) m h =
    endpoint_map-HasDistinctKeys es _
      (step (not (has_key r.endpoint_id m) || not (contains i r.endpoint_id)))
  where
    step : (b : Bool) → HasDistinctKeys (if b then insert r.endpoint_id i m else m)
    step true = insert-HasDistinctKeys r.endpoint_id i m h
    step false = h
