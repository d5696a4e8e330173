-- ===== src/Client.antt =====
-- client/client.go: the network client on top of clientcore.
pub mod Stripping
pub mod Fetching
pub mod Pulling
pub mod Arrival
pub mod Config
pub mod Traffic
pub mod Start
pub mod Registering
use loopix_messaging.Prelude.{
  ℕ, ◌+◌, List, [], ◌∷◌, ◌++◌, Bool, true, false, Option, none, some, Bytes, bytes, Error, Result,
  ok, err, panic, ◌>>=◌, length, drop, ltb, equal, index, no_provider_with_key, if◌then◌else◌,
}
use loopix_messaging.Flags.{comm, assign, pull}
use loopix_messaging.Messages.{
  MixConfig, ClientConfig, GeneralPacket, ProviderResponse, PullRequest,
}
use loopix_messaging.Config.{wrap_with_flag, unmarshal_provider_response}
use loopix_messaging.Wire.{Wire}
use loopix_messaging.Helpers.{Random}
use loopix_messaging.Topology.{
  Encoding, TopologyData, MixProviderPresence, get_mixes_pki, get_client_pki,
  provider_presence_to_config,
}
use loopix_messaging.ClientCore.{
  CryptoClient, NetworkPki, update_network, should_update, encode_message,
}
use loopix_messaging.Sphinx.Library.{Library}

abbrev pub loop_load : Bytes
loop_load = bytes "LoopCoverMessage"

pub record NetClient : Type 0 where
  pub core : CryptoClient
  pub config : ClientConfig
  pub token : Bytes
  pub received_messages : List Bytes
  -- whether `haltedCh` is closed
  pub halted : Bool

-- The messages are handed over, and the list starts anew.
unfoldable pub get_received_messages : NetClient → List Bytes × NetClient
get_received_messages c = (c.received_messages, record c { received_messages = [] })

unfoldable pub add_new_message : Bytes → NetClient → NetClient
add_new_message msg c = record c { received_messages = c.received_messages ++ (msg ∷ []) }

unfoldable pub register_token : Bytes → NetClient → NetClient
register_token token c = record c { token = token }

unfoldable pub shutdown : NetClient → NetClient
shutdown c = record c { halted = true }

unfoldable pub get_provider : List MixProviderPresence → Bytes → Result MixProviderPresence
get_provider [] pub_key = err no_provider_with_key
get_provider (presence ∷ rest) pub_key =
    if equal presence.pub_key pub_key then ok presence else get_provider rest pub_key

-- `processPacket` takes the first 38 bytes off a packet that is longer.
unfoldable pub strip_packet : Bytes → Bytes
strip_packet packet = if ltb 38 (length packet) then drop 38 packet else packet

module _ (enc : Encoding) where
  -- `now` is what `time.Now` gives.
  unfoldable pub read_in_network_from_topology : ℕ → TopologyData → NetClient → NetClient
  read_in_network_from_topology now topology c = record c {
    core = record c.core {
      network =
          update_network now c.core.network (get_mixes_pki enc topology.mix_nodes)
            (get_client_pki enc topology.mix_provider_nodes);
    };
  }

  -- `fetched` is what `GetNetworkTopology` gives.
  unfoldable pub update_network_view : ℕ → Result TopologyData → NetClient → Result NetClient
  unfolding read_in_network_from_topology
  update_network_view now fetched c = do
    topology ← fetched
    ok (read_in_network_from_topology now topology c)

  unfoldable pub check_topology : ℕ → Result TopologyData → NetClient → Result NetClient
  unfolding update_network_view
  check_topology now fetched c =
      if should_update now c.core.network then update_network_view now fetched c else ok c

  unfoldable pub get_all_possible_recipients :
      ℕ → Result TopologyData → NetClient → List ClientConfig × NetClient
  get_all_possible_recipients now fetched c = elim (update_network_view now fetched c) [
    | ok c' ↦ (c'.core.network.clients, c')
    | _ ↦ ([], c)
  ]

-- `providerFromTopology`: the first provider of the list.
unfoldable pub provider_from_topology : Encoding → TopologyData → Option (Result MixConfig)
provider_from_topology enc topology = elim topology.mix_provider_nodes [
  | [] ↦ none
  | v ∷ rest ↦ some (provider_presence_to_config enc v)
]

module _ (lib : Library) (wire : Wire) (r : Random) where
  -- The client's `encodeMessage`; `read` is what the random source gives.
  unfoldable pub encode_for : Result Bytes → NetClient → Bytes → ClientConfig → Result Bytes
  encode_for read c message recipient = do
    sphinx_packet ← encode_message r lib read c.core message recipient
    wrap_with_flag wire.general_packet comm sphinx_packet

  -- The packet that goes to the outgoing queue, and the client with its view of the network.
  unfoldable pub send_message :
      Encoding
      → ℕ
      → Result TopologyData
      → Result Bytes
      → NetClient
      → Bytes
      → ClientConfig
      → Result Bytes × NetClient
  unfolding encode_for
  send_message enc now fetched read c message recipient = elim (check_topology enc now fetched c) [
    | ok c' ↦ (encode_for read c' message recipient, c')
    | err e ↦ (err e, c)
    | panic ↦ (panic, c)
  ]

  unfoldable pub create_loop_cover_message : Result Bytes → NetClient → Result Bytes
  unfolding encode_for
  create_loop_cover_message read c = encode_for read c loop_load c.config

-- The body of the loop of `getMessagesFromProvider`: cover messages are dropped.
unfoldable pub receive_packet : NetClient → GeneralPacket → NetClient
receive_packet c packet =
    let content = strip_packet packet.data_ in
    if equal content loop_load then c else add_new_message content c

unfoldable pub receive_packets : NetClient → List GeneralPacket → NetClient
receive_packets c [] = c
receive_packets c (p ∷ packets) = receive_packets (receive_packet c p) packets

-- `exchange packet host port` is what comes back on a connection to the address.
abbrev pub Exchange : Type 0
Exchange = Bytes → Bytes → Bytes → Result Bytes

module _ (wire : Wire) where
  unfoldable pub send : Exchange → Bytes → Bytes → Bytes → Result ProviderResponse
  send exchange packet host port = do
    buff ← exchange packet host port
    wire.provider_response.unmarshal buff

  -- A wrong number of packets or one that does not unmarshal is only logged, and then `packets[0]`
  -- is read.
  unfoldable pub token_from : ProviderResponse → Result Bytes
  token_from response = elim (unmarshal_provider_response wire.general_packet response) [
    | ok packets ↦ do first ← index packets 0; ok first.data_
    | _ ↦ panic
  ]

  unfoldable pub send_register_message_to_provider : Exchange → NetClient → Result NetClient
  unfolding token_from send
  send_register_message_to_provider exchange c = do
    conf_bytes ← wire.client_config.marshal c.config
    pkt_bytes ← wrap_with_flag wire.general_packet assign conf_bytes
    response ← send exchange pkt_bytes c.core.provider.host c.core.provider.port
    token ← token_from response
    ok (register_token token c)

  -- A response that does not unmarshal is only logged.
  unfoldable pub get_messages_from_provider : Exchange → NetClient → Result NetClient
  unfolding send receive_packets
  get_messages_from_provider exchange c = do
    pull_rqs_bytes ←
        wire.pull_request.marshal
          (record { token = c.token; client_public_key = c.core.pub_key.raw })
    pkt_bytes ← wrap_with_flag wire.general_packet pull pull_rqs_bytes
    response ← send exchange pkt_bytes c.core.provider.host c.core.provider.port
    elim (unmarshal_provider_response wire.general_packet response) [
      | ok packets ↦ ok (receive_packets c packets)
      | err e ↦ ok c
      | panic ↦ panic
    ]
