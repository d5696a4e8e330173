-- ===== src/Cmd/Client/Setup.antt =====
-- A client that is set up and then run (cmd/nym-mixnet-client/commands).
use loopix_messaging.Prelude.{
  ◌≡◌, refl, ap, ◌∙◌, [], false, ◌==◌, some, Bytes, ok, length, bind_inverse, ok_injective,
}
use loopix_messaging.Prelude.Maps.{lookup, bytes_key, lookup-insert_self}
use loopix_messaging.Helpers.Pem.{Pem}
use loopix_messaging.Helpers.Pem.Keys.{IsPem, private_loaded, public_loaded}
use loopix_messaging.Topology.{Encoding, TopologyData, MixProviderPresence, get_network_topology}
use loopix_messaging.Sphinx.Curve.{PrivateKey, PublicKey, generate_key_pair}
use loopix_messaging.Sphinx.Library.{Library, IsLawful}
use loopix_messaging.Client.Config as Settings
use loopix_messaging.Client.Config.{Platform, Client, Logging, Debug, Config}
use loopix_messaging.Client.Config.Defaults.{IsPlatform}
use loopix_messaging.Client.Start.{new_net_client, new_client}
use loopix_messaging.Cmd.Client.Written.{
  IsPlain, IsReadBack, AreApart, client_part, config_of, init_cmd_files, read_back_complete,
}
use loopix_messaging.Cmd.Saving.{lookup-saved_pair}
use loopix_messaging.Cmd.{Files, read_file}
use loopix_messaging.Cmd.Provider.{zero_private_key, zero_public_key}
use loopix_messaging.Cmd.Client.{
  Disk, InitOptions, Setting, choose_random, init_cmd, run_cmd, open_config, config_there,
  content_of,
}

module _ (os : Platform Config) (law : IsPlatform os) (pem : Pem) (pem_law : IsPem pem)
    (lib : Library) (disk : Disk) (env : Setting) where
  generated_long :
      IsLawful lib
      → ((b : Bytes) → env.source ≡ ok b → length b ≡ 32)
      → (keys : PrivateKey × PublicKey) → generate_key_pair lib env.source ≡ ok keys
      → (length keys.0.raw ≡ 32) × (length keys.1.raw ≡ 32)
  unfolding generate_key_pair
  generated_long lawful whole keys h =
      let (b, drawn, is) = bind_inverse env.source _ keys h in
      rw (← ok_injective _ _ is) (whole b drawn, lawful.length-scalar_base_mult b)

  -- The configuration is read back as it was written.
  opened :
      (opts : InitOptions) (files : Files) (config_path content : Bytes)
      (chosen : MixProviderPresence)
      → (length opts.id == 0) ≡ false
      → Settings.default_config_path os opts.id ≡ ok config_path
      → AreApart os (client_part os opts chosen.pub_key) config_path
      → lookup config_path files ≡ some content
      → os.decode content
        ≡ ok (record (config_of os opts chosen.pub_key) {
          debug = some (record Settings.default_debug_config { message_sending_rate = 0 });
        })
      → open_config os pem opts.id [] [] files ≡ ok (config_of os opts chosen.pub_key)
  unfolding Settings.load_file Settings.load_binary
  opened opts files config_path content chosen h path apart there read =
      let found : config_there os pem files config_path ≡ ok tt = rw (config_there, there) refl in
      let held : content_of os pem files config_path ≡ ok content = rw (content_of, there) refl in
      rw (path, found, apart.clean, held, read, read_back_complete os law opts chosen.pub_key h)
        refl

  -- Where InitCmd for an id that is not empty succeeds, RunCmd for that id on the files that it
  -- left runs on exactly the configuration that was written, with the provider that was drawn
  -- whatever the flag of the provider was, and on a new client with the pair of keys that was
  -- made. The random source gives 32 bytes, the paths are different, the strings of the
  -- configuration are plain, and the TOML library reads the template back.
  pub init_cmd-run_cmd :
      (enc : Encoding) (opts : InitOptions) (files files' : Files) (config_path : Bytes)
      (topology : TopologyData) (chosen : MixProviderPresence)
      → IsLawful lib
      → IsReadBack os disk
      → ((b : Bytes) → env.source ≡ ok b → length b ≡ 32)
      → (length opts.id == 0) ≡ false
      → Settings.default_config_path os opts.id ≡ ok config_path
      → AreApart os (client_part os opts chosen.pub_key) config_path
      → IsPlain (client_part os opts chosen.pub_key) (Settings.default_logging_config os opts.id)
      → get_network_topology env.get env.unmarshal
          (client_part os opts []).directory_server_topology_endpoint
        ≡ ok topology
      → choose_random env.random 8 topology.mix_provider_nodes ≡ ok chosen
      → init_cmd os pem lib disk env opts files ≡ ok files'
      → (priv : PrivateKey) × (pub_key : PublicKey) × (generate_key_pair lib env.source
          ≡ ok (priv, pub_key))
        × (run_cmd os pem enc (ok tt) opts.id [] [] files'
            ≡ ok (config_of os opts chosen.pub_key, new_net_client enc priv pub_key))
  unfolding run_cmd new_client Settings.private_key_file Settings.public_key_file
  init_cmd-run_cmd enc opts files files' config_path topology chosen lawful template whole h path
        apart plain got chose made =
      let c = client_part os opts chosen.pub_key in
      let (priv, pub_key, with_keys, content, pair, kept, filled, is) =
        init_cmd_files os law pem pem_law lib disk env opts files files' config_path chosen topology
          h path got chose made in
      let config_read : lookup config_path files' ≡ some content =
        ap (lookup config_path) is ∙ lookup-insert_self config_path content with_keys in
      let (private_kept, public_kept) =
        lookup-saved_pair pem (Settings.private_key_file os c) (Settings.public_key_file os c) priv
          pub_key files disk.write with_keys config_path content kept apart.private_public
          apart.private_config apart.public_config in
      let private_read = ap (lookup (Settings.private_key_file os c)) is ∙ private_kept in
      let public_read = ap (lookup (Settings.public_key_file os c)) is ∙ public_kept in
      let long = generated_long lawful whole (priv, pub_key) pair in
      let first =
        private_loaded pem pem_law priv zero_private_key
          (read_file files' (Settings.private_key_file os c)) long.0
          (rw (read_file, private_read) refl) in
      let second =
        public_loaded pem pem_law pub_key zero_public_key
          (read_file files' (Settings.public_key_file os c)) long.1
          (rw (read_file, public_read) refl) in
      (
        priv,
        pub_key,
        pair,
        rw
            (
              opened opts files' config_path content chosen h path apart config_read
                  (template c _ content plain filled),
              first,
              second,
            )
            refl,
      )
