-- ===== src/Examples/Routes.antt =====
-- The theorems on packets and routes, for three mixes, two providers and small keys.
use loopix_messaging.Prelude.{
  ◌↔◌, ℕ, zero, suc, ◌≡◌, refl, List, [], ◌∷◌, some, Bytes, bytes, ok, arith, inl, inr, ◌⊎◌, length,
  replicate, equal, ◌%◌, ◌++◌,
}
use loopix_messaging.Prelude.Maps.{lookup, nat_key}
use loopix_messaging.Flags.{
  last_hop, pull, sphinx_flag_bytes, sphinx_flag_from_bytes, flag_unique, packet_flag_from_bytes,
  packet_flag_bytes,
}
use loopix_messaging.Messages.{MixConfig, ClientConfig, Header}
use loopix_messaging.Config.{E2EPath}
use loopix_messaging.Sphinx.Curve.{PrivateKey}
use loopix_messaging.Sphinx.Routes.{path_nodes}
use loopix_messaging.Sphinx.Delivery.{Carries, relay_chain-pack}
use loopix_messaging.Topology.{LayeredMixes, MixNodePresence, get_mixes_pki}
use loopix_messaging.Topology.Layers.{entries, present, lookup-get_mixes_pki}
use loopix_messaging.ClientCore.{CryptoClient, get_random_mix_sequence}
use loopix_messaging.ClientCore.Sequence.{
  Stocked, OneOf, InLayers, get_random_mix_sequence-InLayers,
}
use loopix_messaging.ClientCore.Delivery.{
  IsNode, AllNodes, keys_of, Reaches, encode_message-delivers,
}
use loopix_messaging.Client.{strip_packet}
use loopix_messaging.Client.Stripping.{strip_packet_digits}
use loopix_messaging.Examples.Toy.{
  point, toy_library, toy_library-IsLawful, toy_library-IsProtobuf, toy_random, toy_random-IsRandom,
  toy_encoding,
}

-- The node with the given key, in a layer.
abbrev node : ℕ → ℕ → MixConfig
node k layer = record {
  id = k ∷ [];
  host = bytes "127.0.0.1";
  port = bytes "9000";
  pub_key = point k;
  layer = layer;
}

-- The private and the public key of a node have the same bytes.
abbrev same_key : Bytes → PrivateKey
same_key pub_key = record { raw = pub_key }

abbrev three_mixes : LayeredMixes
three_mixes = (1, node 11 1 ∷ []) ∷ (2, node 12 2 ∷ []) ∷ (3, node 13 3 ∷ []) ∷ []

abbrev alice : CryptoClient
alice = record {
  pub_key = record { raw = point 1 };
  prv_key = record { raw = point 1 };
  provider = node 20 1000000;
  network = record { last_updated = 0; mixes = three_mixes; clients = [] };
}

abbrev bob : ClientConfig
bob = record {
  id = bytes "Bob";
  host = bytes "127.0.0.1";
  port = bytes "9998";
  pub_key = point 2;
  provider = some (node 21 1000000);
}

abbrev five_nodes : E2EPath
five_nodes = record {
  ingress_provider = node 20 1000000;
  mixes = node 11 1 ∷ node 12 2 ∷ node 13 3 ∷ [];
  egress_provider = node 21 1000000;
  recipient = bob;
}

abbrev five_keys : List PrivateKey
five_keys = keys_of toy_library same_key (path_nodes five_nodes)

relay_chain-pack_example :
    Carries toy_library toy_library-IsLawful five_keys
      (point 77)
      five_nodes
      (1 ∷ 2 ∷ 3 ∷ 4 ∷ 5 ∷ 6 ∷ [])
      (bytes "Hello")
relay_chain-pack_example =
    relay_chain-pack toy_library toy_library-IsLawful five_keys (point 77) five_nodes
      (1 ∷ 2 ∷ 3 ∷ 4 ∷ 5 ∷ 6 ∷ []) (bytes "Hello")
      (refl, refl, (refl, refl, (refl, refl, (refl, refl, (refl, refl, tt))))) (omega arith)
      (refl, (refl, (refl, (refl, (refl, tt)))))

three_mixes-Stocked : Stocked three_mixes 1 3
unfolding lookup
three_mixes-Stocked = ((node 11 1, [], refl), ((node 12 2, [], refl), ((node 13 3, [], refl), tt)))

get_random_mix_sequence-InLayers_example :
    (ms : List MixConfig) × (get_random_mix_sequence toy_random (some three_mixes) 3 ≡ ok ms)
    × (length ms ≡ 3)
    × InLayers three_mixes 1 ms
get_random_mix_sequence-InLayers_example =
    get_random_mix_sequence-InLayers toy_random toy_random-IsRandom three_mixes 3 (omega arith)
      three_mixes-Stocked

node-IsNode : (k layer : ℕ) → point k ≡ point (k % 256) → IsNode toy_library same_key (node k layer)
node-IsNode k layer h = record { key_length = refl; key_pair = h; strings = refl }

only_one : {A : Type 0} (a m : A) → OneOf m (a ∷ []) → m ≡ a
only_one a m (zero, h) = cc
only_one a m (suc k, h) = cc

three_mixes-lookup :
    (i : ℕ) (layer : List MixConfig)
    → lookup i three_mixes ≡ some layer
    → (layer ≡ node 11 1 ∷ []) ⊎ ((layer ≡ node 12 2 ∷ []) ⊎ (layer ≡ node 13 3 ∷ []))
unfolding lookup
three_mixes-lookup i layer h = ground arith

three_mixes-AllNodes : AllNodes toy_library same_key three_mixes
three_mixes-AllNodes i layer m at one = elim (three_mixes-lookup i layer at) [
  | inl e ↦ rw (only_one (node 11 1) m (rw e at one)) (node-IsNode 11 1 refl)
  | inr (inl e) ↦ rw (only_one (node 12 2) m (rw e at one)) (node-IsNode 12 2 refl)
  | inr (inr e) ↦ rw (only_one (node 13 3) m (rw e at one)) (node-IsNode 13 3 refl)
]

encode_message-delivers_example :
    Reaches toy_library same_key toy_library-IsLawful toy_random toy_random-IsRandom alice bob
      (node 21 1000000)
      (point 77)
      (bytes "Hello")
encode_message-delivers_example =
    encode_message-delivers toy_library same_key toy_library-IsLawful toy_random toy_random-IsRandom
      alice bob (node 21 1000000) (point 77) (bytes "Hello") three_mixes-Stocked
      three_mixes-AllNodes (node-IsNode 20 1000000 refl) refl (node-IsNode 21 1000000 refl) refl

-- The last packet with a short message, and with one of 200 bytes.
abbrev long_final : Bytes
long_final = 10 ∷ 34 ∷ 10 ∷ 32 ∷ (point 9 ++ (18 ∷ 200 ∷ 1 ∷ replicate 200 7))

abbrev nine : Header
nine = record { alpha = point 9; beta = []; mac = [] }

strip_packet_digits_example : strip_packet long_final ≡ 1 ∷ replicate 200 7
unfolding equal
strip_packet_digits_example =
    strip_packet_digits toy_library toy_library-IsLawful toy_library-IsProtobuf long_final
      (replicate 200 7) (nine, refl, refl, refl, refl, refl) (omega arith) (omega arith)

abbrev presences : List MixNodePresence
presences =
    record { pub_key = point 11; host = bytes "127.0.0.1:9000"; layer = 1 }
    ∷ record { pub_key = point 12; host = bytes "127.0.0.1"; layer = 1 }
    ∷ record { pub_key = point 13; host = bytes "127.0.0.1:9002"; layer = 1 }
    ∷ []

lookup-get_mixes_pki_example :
    lookup 1 (get_mixes_pki toy_encoding presences) ≡ present (entries toy_encoding 1 presences)
lookup-get_mixes_pki_example = lookup-get_mixes_pki toy_encoding presences 1

flag_unique_example :
    ((sphinx_flag_from_bytes (0xf0 ∷ []) ≡ last_hop) ↔ ((0xf0 ∷ []) ≡ sphinx_flag_bytes last_hop))
    × ((packet_flag_from_bytes (0xf0 ∷ []) ≡ pull) ↔ ((0xf0 ∷ []) ≡ packet_flag_bytes pull))
flag_unique_example = flag_unique (0xf0 ∷ []) last_hop pull (λ e. cc) (λ e. cc)
