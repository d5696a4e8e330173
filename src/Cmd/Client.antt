-- ===== src/Cmd/Client.antt =====
-- cmd/nym-mixnet-client/commands: how a client is set up and run as a program.
pub mod Written
pub mod Setup
use loopix_messaging.Prelude.{
  ℕ, List, [], ◌∷◌, Bool, not, Option, none, some, Bytes, bytes, Result, ok, err, panic, ◌>>=◌,
  ◌>>◌, guard, must, deref, index, length, ltb, ◌==◌, library, usage_error, no_topology,
  no_config_file, if◌then◌else◌,
}
use loopix_messaging.Prelude.Maps.{lookup, insert, bytes_key}
use loopix_messaging.Helpers.{Random, random_string}
use loopix_messaging.Helpers.Pem.{
  Pem, ReadFile, private_key_pem_type, public_key_pem_type, ensure_dir,
}
use loopix_messaging.Topology.{Encoding, TopologyData, MixProviderPresence, get_network_topology}
use loopix_messaging.Sphinx.Curve.{
  PrivateKey, PublicKey, unmarshal_private_key, unmarshal_public_key, generate_key_pair,
}
use loopix_messaging.Sphinx.Library.{Library}
use loopix_messaging.Client.{NetClient}
use loopix_messaging.Client.Config as Settings
use loopix_messaging.Client.Config.{Platform, Config}
use loopix_messaging.Client.Config.Template.{write_config_file}
use loopix_messaging.Client.Start.{new_client}
use loopix_messaging.Messages.{Float64}
use loopix_messaging.Rpc.Websocket.{SocketListener, new_socket_listener}
use loopix_messaging.Cmd.{Files, save_pair, load_pem}
use loopix_messaging.Cmd.Provider.{zero_private_key, zero_public_key}

-- What the machine does: whether a directory is there, and what making it and writing to a path
-- give; how a float is printed with two decimals; and the directory of a path.
pub record Disk : Type 0 where
  pub stat : Bytes → ReadFile
  pub mkdir_all : Bytes → Result (Unit {0})
  pub write : Bytes → Result (Unit {0})
  pub format_floats : Float64 → Bytes
  pub split : Bytes → Bytes × Bytes

pub record InitOptions : Type 0 where
  pub id : Bytes
  pub provider : Bytes
  pub local : Bool
  pub params : List Bytes

-- The random bytes of the key pair, and what reaches the program from the directory server.
pub record Setting : Type 0 where
  pub source : Result Bytes
  pub random : Random
  pub get : Bytes → Result Bytes
  pub unmarshal : Bytes → Result TopologyData

abbrev pub default_local_topology_endpoint : Bytes
default_local_topology_endpoint = bytes "http://localhost:8080/api/presence/topology"

unfoldable pub choose_random : Random → ℕ → List MixProviderPresence → Result MixProviderPresence
choose_random r i providers = index providers (r.intn i (length providers))

-- The client part with the flags of the command put in.
abbrev pub with_flags : InitOptions → Settings.Client → Settings.Client
with_flags opts c = record c {
  provider_id = opts.provider;
  directory_server_topology_endpoint =
      if opts.local then default_local_topology_endpoint else c.directory_server_topology_endpoint;
}

module _ (os : Platform Config) (pem : Pem) where
  abbrev pub write_keys : Disk → Settings.Client → PrivateKey → PublicKey → Files → Result Files
  write_keys disk c priv pub_key files =
      save_pair pem disk.write (Settings.private_key_file os c) (Settings.public_key_file os c) priv
        pub_key files

  -- `InitCmd`: the files that it leaves. Whatever provider was asked for, it takes a random one.
  unfoldable pub init_cmd : Library → Disk → Setting → InitOptions → Files → Result Files
  unfolding write_config_file choose_random
  init_cmd lib disk env opts files = do
    guard (length opts.params == 0) usage_error
    (priv, pub_key) ← generate_key_pair lib env.source
    client_id ← (if length opts.id == 0 then random_string env.random 0 8 else ok opts.id)
    default_cfg ← Settings.default_config os client_id
    default_client ← deref default_cfg.client
    let c = with_flags opts default_client
    config_path ← Settings.default_config_path os client_id
    let config_dir = (disk.split config_path).0
    ensure_dir (disk.stat config_dir) (disk.mkdir_all config_dir)
    with_keys ← write_keys disk c priv pub_key files
    topology ← get_network_topology env.get env.unmarshal c.directory_server_topology_endpoint
    guard (not (length topology.mix_provider_nodes == 0)) no_topology
    chosen ← choose_random env.random 8 topology.mix_provider_nodes
    let c' = record c { provider_id = chosen.pub_key }
    let apps = Settings.full_mix_apps_dir os c'
    ensure_dir (disk.stat apps) (disk.mkdir_all apps)
    content ←
        write_config_file disk.format_floats disk.write config_path
          (record default_cfg { client = some c' })
    ok (insert config_path content with_keys)

  abbrev pub config_path_of : Bytes → Bytes → Result Bytes
  config_path_of id custom =
      if ltb 0 (length custom) then ok custom else must (Settings.default_config_path os id)

  abbrev pub content_of : Files → Bytes → Result Bytes
  content_of files path = elim (lookup path files) [ none ↦ err (library 3) | some b ↦ ok b ]

  abbrev pub config_there : Files → Bytes → Result (Unit {0})
  config_there files path = elim (lookup path files) [ none ↦ err no_config_file | some b ↦ ok tt ]

  -- The keys from the files that the configuration names.
  abbrev pub client_of : Encoding → Result (Unit {0}) → Files → Settings.Client → Result NetClient
  client_of enc log files c =
      new_client enc log
        (load_pem pem unmarshal_private_key files (Settings.private_key_file os c)
          private_key_pem_type zero_private_key)
        (load_pem pem unmarshal_public_key files (Settings.public_key_file os c) public_key_pem_type
          zero_public_key)

  -- The configuration that a command runs on.
  abbrev pub open_config : Bytes → Bytes → List Bytes → Files → Result Config
  open_config id custom params files = do
    guard (length params == 0) usage_error
    config_path ← config_path_of id custom
    config_there files config_path
    Settings.load_file os (content_of files) config_path

  -- `RunCmd` up to the start of the client; `log` is what making the client's logger gives.
  unfoldable pub run_cmd :
      Encoding
      → Result (Unit {0})
      → Bytes
      → Bytes
      → List Bytes
      → Files
      → Result (Config × NetClient)
  run_cmd enc log id custom params files = do
    cfg ← open_config id custom params files
    c ← deref cfg.client
    client ← must (client_of enc log files c)
    ok (cfg, client)

  -- `RunSocketCmd` up to the start of the listener. The error of making its logger is not tested;
  -- the listeners then read a logger that is not there.
  unfoldable pub run_socket_cmd :
      Encoding
      → Result (Unit {0})
      → Result (Unit {0})
      → Bytes
      → Bytes
      → Bytes
      → List Bytes
      → Files
      → Result (SocketListener × NetClient)
  unfolding new_socket_listener
  run_socket_cmd enc log socket_log socket_type id custom params files = do
    cfg ← open_config id custom params files
    c ← deref cfg.client
    client ← client_of enc log files c
    listener ← new_socket_listener socket_type
    must socket_log
    ok (listener, client)
