-- ===== src/Client/Config.antt =====
-- client/config: a client's configuration, its defaults, and its loading.
pub mod Defaults
pub mod Loading
pub mod Template
use loopix_messaging.Prelude.{
  ℕ, ◌^◌, List, [], ◌∷◌, ◌++◌, Bool, true, false, not, ◌||◌, ◌==◌, Option, none, some, Bytes, bytes,
  Error, Result, ok, err, panic, ◌>>=◌, ◌>>◌, guard, length, if◌then◌else◌, invalid_client_id,
  relative_home, no_client_id, no_client_block,
}
use loopix_messaging.Messages.{Float64}

-- What `filepath`, `os`, `logrus` and the TOML library do.
pub record Platform (C : Type 0) : Type 0 where
  pub is_abs : Bytes → Bool
  pub join : List Bytes → Bytes
  pub expand_env : Bytes → Bytes
  pub parse_level : Bytes → Result (Unit {0})
  pub decode : Bytes → Result C
  pub clean : Bytes → Bytes

pub record Client : Type 0 where
  pub home_directory : Bytes
  pub id : Bytes
  pub directory_server_topology_endpoint : Bytes
  pub mix_apps_directory : Bytes
  pub private_key : Bytes
  pub public_key : Bytes
  pub provider_id : Bytes

pub record Logging : Type 0 where
  pub disable : Bool
  pub file : Bytes
  pub level : Bytes

pub record Debug : Type 0 where
  pub loop_cover_traffic_rate : Float64
  pub fetch_message_rate : Float64
  pub message_sending_rate : Float64
  pub rate_compliant_cover_messages_disabled : Bool

-- The pointers may be nil.
pub record Config : Type 0 where
  pub client : Option Client
  pub logging : Option Logging
  pub debug : Option Debug

-- `10.0`
abbrev pub default_rate : Float64
default_rate = 4621819117588971520

-- `f == 0.0`, which holds of both zeros.
unfoldable pub is_zero : Float64 → Bool
is_zero f = f == 0 || f == 2 ^ 63

unfoldable pub apply_defaults : Debug → Debug
unfolding is_zero
apply_defaults d = record d {
  loop_cover_traffic_rate =
      if is_zero d.loop_cover_traffic_rate then default_rate else d.loop_cover_traffic_rate;
  fetch_message_rate = if is_zero d.fetch_message_rate then default_rate else d.fetch_message_rate;
  message_sending_rate =
      if is_zero d.message_sending_rate then default_rate else d.message_sending_rate;
}

unfoldable pub default_debug_config : Debug
default_debug_config = record {
  loop_cover_traffic_rate = default_rate;
  fetch_message_rate = default_rate;
  message_sending_rate = default_rate;
  rate_compliant_cover_messages_disabled = false;
}

-- `s`, or the default where `s` is empty.
abbrev pub or_default : Bytes → Bytes → Bytes
or_default default s = if length s == 0 then default else s

abbrev pub default_mix_app_directory : Bytes
default_mix_app_directory = bytes "mixapps"

abbrev pub default_topology_endpoint : Bytes
default_topology_endpoint = bytes "https://directory.nymtech.net/api/presence/topology"

abbrev pub default_log_level : Bytes
default_log_level = bytes "info"

module _ (os : Platform Config) where
  abbrev pub default_home_directory : Bytes
  default_home_directory =
      os.expand_env (os.join (bytes "$HOME" ∷ bytes ".nym" ∷ bytes "clients" ∷ []))

  abbrev pub default_private_key_path : Bytes
  default_private_key_path = os.join (bytes "config" ∷ bytes "private_key.pem" ∷ [])

  abbrev pub default_public_key_path : Bytes
  default_public_key_path = os.join (bytes "config" ∷ bytes "public_key.pem" ∷ [])

  unfoldable pub default_config_path : Bytes → Result Bytes
  default_config_path client_id = do
    guard (not (length client_id == 0)) invalid_client_id
    ok (os.join (default_home_directory ∷ client_id ∷ bytes "config" ∷ bytes "config.toml" ∷ []))

  unfoldable pub default_client_config : Bytes → Result Client
  default_client_config client_id = do
    guard (not (length client_id == 0)) invalid_client_id
    ok (record {
      home_directory = default_home_directory;
      id = client_id;
      directory_server_topology_endpoint = default_topology_endpoint;
      mix_apps_directory = default_mix_app_directory;
      private_key = default_private_key_path;
      public_key = default_public_key_path;
      provider_id = [];
    })

  unfoldable pub rootify : Bytes → Bytes → Bytes
  rootify path root = if os.is_abs path then path else os.join (root ∷ path ∷ [])

  abbrev pub home_of : Client → Bytes
  home_of cfg = os.join (cfg.home_directory ∷ cfg.id ∷ [])

  unfoldable pub private_key_file : Client → Bytes
  unfolding rootify
  private_key_file cfg = rootify cfg.private_key (home_of cfg)

  unfoldable pub public_key_file : Client → Bytes
  unfolding rootify
  public_key_file cfg = rootify cfg.public_key (home_of cfg)

  unfoldable pub full_mix_apps_dir : Client → Bytes
  unfolding rootify
  full_mix_apps_dir cfg = rootify cfg.mix_apps_directory (home_of cfg)

  -- The struct is changed in place; after an error no caller reads it.
  unfoldable pub validate_client : Client → Result Client
  validate_client cfg = do
    guard (length cfg.home_directory == 0 || os.is_abs cfg.home_directory) relative_home
    guard (not (length cfg.id == 0)) no_client_id
    ok (record cfg {
      home_directory = or_default default_home_directory cfg.home_directory;
      mix_apps_directory = or_default default_mix_app_directory cfg.mix_apps_directory;
      directory_server_topology_endpoint =
          or_default default_topology_endpoint cfg.directory_server_topology_endpoint;
      private_key = or_default default_private_key_path cfg.private_key;
      public_key = or_default default_public_key_path cfg.public_key;
    })

  unfoldable pub validate_logging : Logging → Result (Unit {0})
  validate_logging cfg = os.parse_level cfg.level

  unfoldable pub default_logging_config : Bytes → Logging
  default_logging_config client_id = record {
    disable = false;
    file = os.join (bytes "/tmp" ∷ (bytes "nym_" ++ (client_id ++ bytes ".log")) ∷ []);
    level = default_log_level;
  }

  unfoldable pub default_config : Bytes → Result Config
  unfolding default_client_config default_logging_config
  default_config client_id = do
    guard (not (length client_id == 0)) invalid_client_id
    client ← default_client_config client_id
    ok (record {
      client = some client;
      logging = some (default_logging_config client_id);
      debug = some default_debug_config;
    })

  -- `&Debug{}` where there is none.
  abbrev pub debug_or_zero : Option Debug → Debug
  debug_or_zero (some d) = d
  debug_or_zero none = record {
    loop_cover_traffic_rate = 0;
    fetch_message_rate = 0;
    message_sending_rate = 0;
    rate_compliant_cover_messages_disabled = false;
  }

  abbrev pub logging_or_default : Bytes → Option Logging → Logging
  logging_or_default client_id (some l) = l
  logging_or_default client_id none = default_logging_config client_id

  unfoldable pub validate_and_apply_defaults : Config → Result Config
  unfolding validate_client apply_defaults validate_logging
  validate_and_apply_defaults cfg = elim cfg.client [
    | none ↦ err no_client_block
    | some c ↦ do
      client ← validate_client c
      let debug = apply_defaults (debug_or_zero cfg.debug)
      let logging = logging_or_default client.id cfg.logging
      validate_logging logging
      ok (record { client = some client; logging = some logging; debug = some debug })
  ]

  unfoldable pub load_binary : Bytes → Result Config
  unfolding validate_and_apply_defaults
  load_binary b = do cfg ← os.decode b; validate_and_apply_defaults cfg

  -- `read_file` is what `ioutil.ReadFile` does.
  unfoldable pub load_file : (Bytes → Result Bytes) → Bytes → Result Config
  unfolding load_binary
  load_file read_file f = do b ← read_file (os.clean f); load_binary b
