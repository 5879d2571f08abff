-- ===== src/Network/Samples.antt =====
-- Two engines that know one global network, each with the endpoints of its own containers.
use classicswarm.Prelude.{◌≡◌, refl, [], ◌∷◌, List}
use classicswarm.Text.{codes, str_eq}
use classicswarm.Assoc.{has_key}
use classicswarm.Network.Endpoints.{Deduplicated, remove_duplicate_endpoints-Deduplicated}
use classicswarm.Network.{
  remove_duplicate_endpoints, Network, EndpointResource, put_endpoints, absorb, gather, uniq,
}
use classicswarm.Network.Uniq.{IsUniq, uniq-IsUniq}

abbrev endpoint : EndpointResource
endpoint = record {
  name = codes "web";
  endpoint_id = codes "e1";
  mac_address = [];
  ipv4_address = codes "10.1.0.2/24";
  ipv6_address = [];
}

abbrev pub overlay : Network
overlay = record {
  id = codes "n1";
  name = codes "front";
  scope = codes "global";
  driver = codes "overlay";
  labels = [];
  containers = (codes "9f1c", endpoint) ∷ [];
  engine = record { id = codes "X"; name = codes "alpha" };
}

abbrev elsewhere : Network
elsewhere = record overlay {
  containers = (codes "77aa", endpoint) ∷ [];
  engine = record { id = codes "Y"; name = codes "beta" };
}

abbrev bridge : Network
bridge = record overlay {
  id = codes "n2";
  name = codes "bridge";
  scope = codes "local";
  containers = [];
}

abbrev known : List Network
known = overlay ∷ bridge ∷ elsewhere ∷ []

merged_endpoints :
    uniq known
    ≡ record overlay { containers = (codes "9f1c", endpoint) ∷ (codes "77aa", endpoint) ∷ [] }
      ∷ bridge
      ∷ []
unfolding uniq gather absorb put_endpoints classicswarm.Text.str_eq
merged_endpoints = refl

uniq-IsUniq_example : IsUniq known (uniq known)
unfolding has_key
uniq-IsUniq_example = uniq-IsUniq known ((refl, tt), (tt, ((refl, tt), tt)))

abbrev doubled : Network
doubled = record overlay { containers = (codes "ep-e1", endpoint) ∷ (codes "9f1c", endpoint) ∷ [] }

remove_duplicate_endpoints-Deduplicated_example :
    Deduplicated doubled.containers (remove_duplicate_endpoints doubled).containers
unfolding has_key str_eq
remove_duplicate_endpoints-Deduplicated_example =
    remove_duplicate_endpoints-Deduplicated doubled (refl, (refl, tt))
