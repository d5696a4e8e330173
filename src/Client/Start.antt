-- ===== src/Client/Start.antt =====
-- client/client.go: how a client is made and started.
pub mod Started
use loopix_messaging.Prelude.{
  ℕ, ◌<◌, List, [], ◌∷◌, Bool, true, false, Option, none, some, Bytes, Error, Result, ok, err,
  panic, ◌>>=◌, ◌>>◌, length, ltb, if◌then◌else◌,
}
use loopix_messaging.Messages.{MixConfig, ClientConfig}
use loopix_messaging.Wire.{Wire}
use loopix_messaging.Topology.{Encoding, TopologyData, provider_presence_to_config}
use loopix_messaging.Sphinx.Curve.{PrivateKey, PublicKey}
use loopix_messaging.Client.{
  NetClient, Exchange, get_provider, read_in_network_from_topology, update_network_view,
  send_register_message_to_provider,
}

-- `config.MixConfig{}`
abbrev pub no_provider : MixConfig
no_provider = record { id = []; host = []; port = []; pub_key = []; layer = 0 }

-- What `NewTestClient` puts together, and `NewClient` after it has read the keys. The config's
-- `Provider` points to the client's own.
unfoldable pub new_net_client : Encoding → PrivateKey → PublicKey → NetClient
new_net_client enc prv_key pub_key = record {
  core = record {
    pub_key = pub_key;
    prv_key = prv_key;
    provider = no_provider;
    network = record { last_updated = 0; mixes = []; clients = [] };
  };
  config = record {
    id = enc.encode pub_key.raw;
    host = [];
    port = [];
    pub_key = pub_key.raw;
    provider = some no_provider;
  };
  token = [];
  received_messages = [];
  halted = false;
}

-- `log` is what making the logger gives.
unfoldable pub new_test_client :
    Encoding → Result (Unit {0}) → PrivateKey → PublicKey → Result NetClient
unfolding new_net_client
new_test_client enc log prv_key pub_key = log >> ok (new_net_client enc prv_key pub_key)

-- The keys as they are read from their files.
unfoldable pub new_client :
    Encoding → Result (Unit {0}) → Result PrivateKey → Result PublicKey → Result NetClient
unfolding new_net_client
new_client enc log private_file public_file = do
  log
  prv_key ← private_file
  pub_key ← public_file
  ok (new_net_client enc prv_key pub_key)

-- `c.Provider = provider`, which the config's pointer sees as well.
unfoldable pub set_provider : MixConfig → NetClient → NetClient
set_provider provider c = record c {
  core = record c.core { provider = provider };
  config = record c.config { provider = some provider };
}

-- What the outside gives while a client starts: the clock and the first answer of the directory
-- server, the connection at each attempt to register, and the clock and the directory server's
-- answer each time that the client looks for others.
pub record Starting : Type 0 where
  pub now : ℕ
  pub first : Result TopologyData
  pub attempts : List Exchange
  pub polls : List (ℕ × Result TopologyData)

-- The loop that registers: no result while all attempts have failed.
unfoldable pub register : Wire → List Exchange → NetClient → Option (Result NetClient)
register wire [] c = none
register wire (exchange ∷ attempts) c = elim (send_register_message_to_provider wire exchange c) [
  | ok c' ↦ some (ok c')
  | err e ↦ register wire attempts c
  | panic ↦ some panic
]

-- The loop that waits for some client to be registered.
unfoldable pub wait_for_clients :
    Encoding → List (ℕ × Result TopologyData) → NetClient → Option (Result NetClient)
wait_for_clients enc [] c = none
wait_for_clients enc ((now, fetched) ∷ polls) c = elim (update_network_view enc now fetched c) [
  | ok c' ↦
      if ltb 0 (length c'.core.network.clients) then some (ok c') else wait_for_clients enc polls c'
  | err e ↦ some (err e)
  | panic ↦ some panic
]

-- `Start` up to the registration.
unfoldable pub find_provider : Encoding → Bytes → Starting → NetClient → Result NetClient
unfolding set_provider
find_provider enc provider_id env c = do
  topology ← env.first
  presence ← get_provider topology.mix_provider_nodes provider_id
  provider ← provider_presence_to_config enc presence
  ok (set_provider provider (read_in_network_from_topology enc env.now topology c))

-- `Start` up to the start of the traffic; there is no result while it is still waiting.
unfoldable pub start : Encoding → Wire → Bytes → Starting → NetClient → Option (Result NetClient)
unfolding find_provider register wait_for_clients
start enc wire provider_id env c = elim (find_provider enc provider_id env c) [
  | ok ready ↦ elim (register wire env.attempts ready) [
    | some (ok registered) ↦ wait_for_clients enc env.polls registered
    | some (err e) ↦ some (err e)
    | some panic ↦ some panic
    | none ↦ none
  ]
  | err e ↦ some (err e)
  | panic ↦ some panic
]
