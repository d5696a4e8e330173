-- ===== src/ClientCore.antt =====
-- clientcore/mixClient.go: how a client chooses a path and makes a packet.
pub mod Sequence
pub mod Delivery
use loopix_messaging.Prelude.{
  ℕ, zero, suc, ◌+◌, ◌*◌, ◌<◌, List, [], ◌∷◌, Bool, true, false, ◌||◌, Option, none, some, Bytes,
  Result, ok, err, ◌>>=◌, length, ltb, ◌==◌, if◌then◌else◌, insufficient_mixes, no_mixes_for_layer,
  invalid_egress_provider,
}
use loopix_messaging.Prelude.Maps.{Map, lookup, nat_key}
use loopix_messaging.Messages.{Float64, MixConfig, ClientConfig, SphinxPacket}
use loopix_messaging.Config.{E2EPath, path_len}
use loopix_messaging.Topology.{LayeredMixes}
use loopix_messaging.Helpers.{Random, random_mix, random_exponential}
use loopix_messaging.Sphinx.Library.{Library}
use loopix_messaging.Sphinx.Curve.{PrivateKey, PublicKey}
use loopix_messaging.Sphinx.Packing.{pack_forward_message}

-- Times are in nanoseconds. A nil map is the empty one.
pub record NetworkPki : Type 0 where
  pub last_updated : ℕ
  pub mixes : LayeredMixes
  pub clients : List ClientConfig

abbrev pub maximum_topology_age : ℕ
maximum_topology_age = 60 * 1000000000

-- `now` is what `time.Now` gives.
unfoldable pub update_network : ℕ → NetworkPki → LayeredMixes → List ClientConfig → NetworkPki
update_network now n new_mixes new_clients = record {
  last_updated = now;
  mixes = new_mixes;
  clients = new_clients;
}

unfoldable pub should_update : ℕ → NetworkPki → Bool
should_update now n = ltb (n.last_updated + maximum_topology_age) now

pub record CryptoClient : Type 0 where
  pub pub_key : PublicKey
  pub prv_key : PrivateKey
  pub provider : MixConfig
  pub network : NetworkPki

abbrev pub path_length : ℕ
path_length = 3

-- `recipient.Provider == nil || len(recipient.Provider.PubKey) == 0` is an error.
unfoldable pub path_to : MixConfig → List MixConfig → ClientConfig → Result E2EPath
path_to ingress mix_seq recipient = elim recipient.provider [
  | none ↦ err invalid_egress_provider
  | some egress ↦
      if length egress.pub_key == 0
      then err invalid_egress_provider
      else ok (record {
        ingress_provider = ingress;
        mixes = mix_seq;
        egress_provider = egress;
        recipient = recipient;
      })
]

module _ (r : Random) where
  -- The loop of `getRandomMixSequence` from layer `i` on, for the layers left.
  unfoldable pub mix_sequence_from : LayeredMixes → ℕ → ℕ → Result (List MixConfig)
  mix_sequence_from mixes i zero = ok []
  mix_sequence_from mixes i (suc left) = elim (lookup i mixes) [
    | none ↦ err (no_mixes_for_layer i)
    | some layer_mixes ↦ do
      m ← random_mix r i layer_mixes
      rest ← mix_sequence_from mixes (suc i) left
      ok (m ∷ rest)
  ]

  -- The map of the mixes, or nil.
  unfoldable pub get_random_mix_sequence : Option LayeredMixes → ℕ → Result (List MixConfig)
  get_random_mix_sequence none wanted = err insufficient_mixes
  get_random_mix_sequence (some mixes) wanted =
      if ltb (length mixes) wanted then err insufficient_mixes else mix_sequence_from mixes 1 wanted

  -- The loop of `generateDelaySequence` from sample `i` on.
  unfoldable pub delays_from : Float64 → ℕ → ℕ → Result (List Float64)
  delays_from rate i zero = ok []
  delays_from rate i (suc left) = do
    d ← random_exponential r i rate
    rest ← delays_from rate (suc i) left
    ok (d ∷ rest)

  unfoldable pub generate_delay_sequence : Float64 → ℕ → Result (List Float64)
  generate_delay_sequence rate wanted = delays_from rate 0 wanted

  -- A nil map of the network is one without layers here: for a length that is not 0 it is refused
  -- with the same error.
  unfoldable pub build_path : CryptoClient → ClientConfig → Result E2EPath
  unfolding path_to
  build_path c recipient = do
    mix_seq ← get_random_mix_sequence (some c.network.mixes) path_length
    path_to c.provider mix_seq recipient

  -- `read` is what the random source gives for the packet's first secret.
  unfoldable pub create_sphinx_packet :
      Library → Result Bytes → CryptoClient → Bytes → ClientConfig → Result Bytes
  create_sphinx_packet lib read c message recipient = do
    path ← build_path c recipient
    delays ← generate_delay_sequence r.five (path_len path)
    sphinx_packet ← pack_forward_message lib read path delays message
    lib.sphinx_packet.marshal sphinx_packet

  unfoldable pub encode_message :
      Library → Result Bytes → CryptoClient → Bytes → ClientConfig → Result Bytes
  encode_message lib read c message recipient = do
    packet ← create_sphinx_packet lib read c message recipient
    ok packet

unfoldable pub decode_message : SphinxPacket → Result SphinxPacket
decode_message packet = ok packet

abbrev pub new_crypto_client : PrivateKey → PublicKey → MixConfig → NetworkPki → CryptoClient
new_crypto_client prv_key pub_key provider network = record {
  pub_key = pub_key;
  prv_key = prv_key;
  provider = provider;
  network = network;
}
