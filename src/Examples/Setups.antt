-- ===== src/Examples/Setups.antt =====
-- A client that is set up and run, on a machine that reads configuration files by their quotes.
use loopix_messaging.Prelude.{◌≡◌, refl, [], ◌∷◌, true, bytes, Result, ok, equal, ok_injective}
use loopix_messaging.Prelude.Maps.{lookup, insert}
use loopix_messaging.Client.Config.{
  Platform, Config, default_config_path, default_config, default_client_config,
  default_logging_config, private_key_file, public_key_file,
}
use loopix_messaging.Client.Config.Defaults.{IsPlatform}
use loopix_messaging.Client.Start.{new_net_client}
use loopix_messaging.Helpers.Pem.{to_pem_file, ensure_dir, absent}
use loopix_messaging.Topology.{TopologyData, get_network_topology}
use loopix_messaging.Sphinx.Curve.{
  PrivateKey, PublicKey, generate_key_pair, marshal_private_key, marshal_public_key,
}
use loopix_messaging.Cmd.{Files}
use loopix_messaging.Cmd.Client.{Disk, InitOptions, Setting, choose_random, init_cmd, run_cmd}
use loopix_messaging.Cmd.Client.Written.{IsReadBack, config_of}
use loopix_messaging.Cmd.Client.Setup.{init_cmd-run_cmd}
use loopix_messaging.Client.Config.Template.{write_config_file}
use loopix_messaging.Examples.Toml.{read_toml, read_toml-execute_template}
use loopix_messaging.Examples.Toy.{
  toy_library, toy_library-IsLawful, toy_encoding, toy_random, point,
}
use loopix_messaging.Examples.Machines.{toy_pem, toy_pem-IsPem, unix, unix-IsPlatform}

abbrev machine : Platform Config
machine = record {
  is_abs = unix.is_abs;
  join = unix.join;
  expand_env = unix.expand_env;
  parse_level = unix.parse_level;
  decode = read_toml;
  clean = unix.clean;
}

machine-IsPlatform : IsPlatform machine
machine-IsPlatform = record {
  is_abs_empty = unix-IsPlatform.is_abs_empty;
  is_abs_home = unix-IsPlatform.is_abs_home;
  is_abs-join = unix-IsPlatform.is_abs-join;
  join_nonempty = unix-IsPlatform.join_nonempty;
  parse_level_default = unix-IsPlatform.parse_level_default;
}

abbrev disk : Disk
disk = record {
  stat = λ path. absent;
  mkdir_all = λ path. ok tt;
  write = λ path. ok tt;
  format_floats = λ f. bytes "10.00";
  split = λ path. (path, []);
}

disk-IsReadBack : IsReadBack machine disk
disk-IsReadBack c l content plain made =
    read_toml-execute_template disk.format_floats c l content plain made

abbrev topology : TopologyData
topology = record {
  mix_nodes = [];
  mix_provider_nodes =
      record { pub_key = bytes "other"; host = bytes "b:1"; registered_clients = [] } ∷ [];
}

abbrev setting : Setting
setting = record {
  source = ok (point 7);
  random = toy_random;
  get = λ endpoint. ok [];
  unmarshal = λ body. ok topology;
}

-- A provider is asked for that is not the one that is drawn.
abbrev options : InitOptions
options = record { id = bytes "bob"; provider = bytes "mine"; local = true; params = [] }

abbrev files_of : Result Files → Files
files_of (ok files) = files
files_of _ = []

abbrev after : Files
after = files_of (init_cmd machine toy_pem toy_library disk setting options [])

init_cmd-run_cmd_example :
    (priv : PrivateKey) × (pub_key : PublicKey) × (generate_key_pair toy_library (ok (point 7))
      ≡ ok (priv, pub_key))
    × (run_cmd machine toy_pem toy_encoding (ok tt) (bytes "bob") [] [] after
        ≡ ok (config_of machine options (bytes "other"), new_net_client toy_encoding priv pub_key))
unfolding init_cmd write_config_file choose_random default_config default_client_config
    default_config_path default_logging_config generate_key_pair to_pem_file marshal_private_key
    marshal_public_key ensure_dir get_network_topology private_key_file public_key_file equal lookup
    insert
init_cmd-run_cmd_example =
    init_cmd-run_cmd machine machine-IsPlatform toy_pem toy_pem-IsPem toy_library disk setting
      toy_encoding options [] after (bytes "/root/.nym/clients/bob/config/config.toml") topology
      (record { pub_key = bytes "other"; host = bytes "b:1"; registered_clients = [] })
      toy_library-IsLawful disk-IsReadBack (λ b drawn. rw (← ok_injective (point 7) b drawn) refl)
      refl refl
      (record { private_public = refl; private_config = refl; public_config = refl; clean = refl })
      (refl, (refl, (refl, (refl, (refl, (refl, (refl, (refl, (refl, tt))))))))) refl refl refl
