-- ===== src/Topology.antt =====
-- helpers/topology/topology.go: the network as the directory server presents it.
pub mod Layers
pub mod Clients
use loopix_messaging.Prelude.{
  ◌>>=◌, ℕ, List, [], ◌∷◌, ◌++◌, Option, none, some, Bytes, bytes, Result, ok, err, foldl, Error,
  library, invalid_provider_presence, invalid_client_information,
}
use loopix_messaging.Prelude.Maps.{Map, lookup, insert, nat_key}
use loopix_messaging.Messages.{MixConfig, ClientConfig}
use loopix_messaging.Config.{new_mix_config, provider_layer}

-- `encoding/base64` with `URLEncoding`, and `SplitHostPort` and `JoinHostPort` of `net`; `none` is
-- an error.
pub record Encoding : Type 0 where
  pub encode : Bytes → Bytes
  pub decode : Bytes → Option Bytes
  pub split_host_port : Bytes → Option (Bytes × Bytes)
  pub join_host_port : Bytes → Bytes → Bytes

-- The structs of nym-directory/models, with the fields that the program reads.
pub record MixNodePresence : Type 0 where
  pub pub_key : Bytes
  pub host : Bytes
  pub layer : ℕ

pub record RegisteredClient : Type 0 where
  pub pub_key : Bytes

pub record MixProviderPresence : Type 0 where
  pub pub_key : Bytes
  pub host : Bytes
  pub registered_clients : List RegisteredClient

pub record TopologyData : Type 0 where
  pub mix_nodes : List MixNodePresence
  pub mix_provider_nodes : List MixProviderPresence

-- `get` is what the request to the endpoint gives, and `unmarshal` reads the JSON of its body.
unfoldable pub get_network_topology :
    (Bytes → Result Bytes) → (Bytes → Result TopologyData) → Bytes → Result TopologyData
get_network_topology get unmarshal endpoint = do body ← get endpoint; unmarshal body

abbrev pub LayeredMixes : Type 0
LayeredMixes = Map ℕ (List MixConfig)

-- The entry that the loop of `GetMixesPKI` makes; `none` where it continues with the next one.
unfoldable pub mix_entry : Encoding → MixNodePresence → Option MixConfig
mix_entry enc v = elim (enc.decode v.pub_key) [
  | none ↦ none
  | some b ↦ elim (enc.split_host_port v.host) [
    | none ↦ none
    | some (host, port) ↦
        some (record { id = v.pub_key; host = host; port = port; pub_key = b; layer = v.layer })
  ]
]

unfoldable pub add_to_layer : LayeredMixes → ℕ → MixConfig → LayeredMixes
add_to_layer mixes layer entry = elim (lookup layer mixes) [
  | some layer_mixes ↦ insert layer (layer_mixes ++ (entry ∷ [])) mixes
  | none ↦ insert layer (entry ∷ []) mixes
]

-- The body of the loop of `GetMixesPKI`.
unfoldable pub add_presence : Encoding → LayeredMixes → MixNodePresence → LayeredMixes
unfolding add_to_layer
add_presence enc mixes v = elim (mix_entry enc v) [
  | none ↦ mixes
  | some entry ↦ add_to_layer mixes v.layer entry
]

-- The error that it returns is always nil.
unfoldable pub get_mixes_pki : Encoding → List MixNodePresence → LayeredMixes
get_mixes_pki enc presences = foldl (add_presence enc) [] presences

unfoldable pub provider_presence_to_config : Encoding → MixProviderPresence → Result MixConfig
provider_presence_to_config enc presence = elim (enc.decode presence.pub_key) [
  | none ↦ err invalid_provider_presence
  | some b ↦ elim (enc.split_host_port presence.host) [
    | none ↦ err (library 0)
    | some (host, port) ↦ ok (new_mix_config presence.host host port b provider_layer)
  ]
]

unfoldable pub registered_client_to_config : Encoding → RegisteredClient → Result ClientConfig
registered_client_to_config enc client = elim (enc.decode client.pub_key) [
  | none ↦ err invalid_client_information
  | some b ↦ ok (record {
    id = client.pub_key;
    host = bytes "0.0.0.0";
    port = bytes "42";
    pub_key = b;
    provider = none;
  })
]

-- The inner loop of `GetClientPKI`, which skips what does not decode.
unfoldable pub clients_of : Encoding → MixConfig → List RegisteredClient → List ClientConfig
clients_of enc provider [] = []
clients_of enc provider (client ∷ rest) = elim (registered_client_to_config enc client) [
  | ok cfg ↦ record cfg { provider = some provider } ∷ clients_of enc provider rest
  | _ ↦ clients_of enc provider rest
]

-- The outer loop. The error that it returns is always nil.
unfoldable pub get_client_pki : Encoding → List MixProviderPresence → List ClientConfig
get_client_pki enc [] = []
get_client_pki enc (provider ∷ rest) = elim (provider_presence_to_config enc provider) [
  | ok cfg ↦ clients_of enc cfg provider.registered_clients ++ get_client_pki enc rest
  | _ ↦ get_client_pki enc rest
]
