-- ===== src/Cmd/Client/Written.antt =====
-- What `InitCmd` writes (cmd/nym-mixnet-client/commands/init.go).
use loopix_messaging.Prelude.{
  ◌≡◌, refl, sym, ◌∙◌, [], ◌∷◌, Bool, true, false, not, ◌&&◌, ◌==◌, some, Bytes, ok, length, ltb,
  equal, if◌then◌else◌, guard, bind_inverse, bind_known, ok_injective, usage_error, no_topology,
  Bool-cases, inl, inr, All,
}
use loopix_messaging.Prelude.Maps.{insert, bytes_key}
use loopix_messaging.Helpers.{random_string}
use loopix_messaging.Helpers.Pem.{Pem, ensure_dir}
use loopix_messaging.Helpers.Pem.Keys.{IsPem}
use loopix_messaging.Topology.{TopologyData, MixProviderPresence, get_network_topology}
use loopix_messaging.Sphinx.Curve.{PrivateKey, PublicKey, generate_key_pair}
use loopix_messaging.Sphinx.Library.{Library}
use loopix_messaging.Client.Config as Settings
use loopix_messaging.Client.Config.{Platform, Client, Logging, Debug, Config}
use loopix_messaging.Client.Config.Defaults.{IsPlatform, IsClient, validate_client_complete}
use loopix_messaging.Client.Config.Template.{execute_template, write_config_file}
use loopix_messaging.Cmd.{Files}
use loopix_messaging.Cmd.Client.{
  Disk, InitOptions, Setting, with_flags, write_keys, choose_random, init_cmd,
}

-- A string that TOML reads back as it stands between quotes: no quote, no backslash, nothing below
-- a space.
abbrev pub is_plain : Bytes → Bool
is_plain [] = true
is_plain (x ∷ s) = not (x == 34) && (not (x == 92) && (not (ltb x 32) && is_plain s))

abbrev pub IsPlain : Client → Logging → Type 0
IsPlain c l =
    All (λ s. is_plain s ≡ true)
      (c.home_directory ∷ c.id ∷ c.directory_server_topology_endpoint ∷ c.mix_apps_directory
        ∷ c.private_key ∷ c.public_key ∷ c.provider_id ∷ l.file ∷ l.level ∷ [])

write_config_file-content :
    (disk : Disk) (path : Bytes) (cfg : Config) (content : Bytes)
    → write_config_file disk.format_floats disk.write path cfg ≡ ok content
    → execute_template disk.format_floats cfg ≡ ok content
unfolding write_config_file
write_config_file-content disk path cfg content h =
    let (made, filled, rest) = bind_inverse (execute_template disk.format_floats cfg) _ content h in
    let (done, wrote, is) = bind_inverse (disk.write path) _ content rest in filled ∙ is

module _ (os : Platform Config) where
  -- The configuration that `InitCmd` writes.
  abbrev pub default_part : InitOptions → Client
  default_part opts = record {
    home_directory = Settings.default_home_directory os;
    id = opts.id;
    directory_server_topology_endpoint = Settings.default_topology_endpoint;
    mix_apps_directory = Settings.default_mix_app_directory;
    private_key = Settings.default_private_key_path os;
    public_key = Settings.default_public_key_path os;
    provider_id = [];
  }

  abbrev pub client_part : InitOptions → Bytes → Client
  client_part opts provider_id = record (with_flags opts (default_part opts)) {
    provider_id = provider_id;
  }

  abbrev pub default_of : InitOptions → Config
  default_of opts = record {
    client = some (default_part opts);
    logging = some (Settings.default_logging_config os opts.id);
    debug = some Settings.default_debug_config;
  }

  abbrev pub config_of : InitOptions → Bytes → Config
  config_of opts provider_id = record {
    client = some (client_part opts provider_id);
    logging = some (Settings.default_logging_config os opts.id);
    debug = some Settings.default_debug_config;
  }

  -- The template, filled in with plain strings and the default rates, is read back by the TOML
  -- library but for the sending rate, whose tag ends with a space and matches no key.
  abbrev pub IsReadBack : Disk → Type 0
  IsReadBack disk =
      (c : Client) (l : Logging) (content : Bytes)
      → IsPlain c l
      → execute_template disk.format_floats
          (record { client = some c; logging = some l; debug = some Settings.default_debug_config })
        ≡ ok content
      → os.decode content
        ≡ ok (record {
          client = some c;
          logging = some l;
          debug = some (record Settings.default_debug_config { message_sending_rate = 0 });
        })

  -- `filepath`: different names in a directory are different paths, and what is joined is clean.
  pub record AreApart (c : Client) (config_path : Bytes) : Type 0 where
    pub private_public :
        equal (Settings.public_key_file os c) (Settings.private_key_file os c) ≡ false
    pub private_config : equal config_path (Settings.private_key_file os c) ≡ false
    pub public_config : equal config_path (Settings.public_key_file os c) ≡ false
    pub clean : os.clean config_path ≡ config_path

  module _ (law : IsPlatform os) where
    client_part-IsClient :
        (opts : InitOptions) (provider_id : Bytes)
        → (length opts.id == 0) ≡ false
        → IsClient os (client_part opts provider_id)
    client_part-IsClient opts provider_id h = (
      law.is_abs_home,
      h,
      refl,
      elim (Bool-cases opts.local) [ inl e ↦ rw e refl | inr e ↦ rw e refl ],
      law.join_nonempty _ _ refl,
      law.join_nonempty _ _ refl,
    )

    default_config_is :
        (opts : InitOptions)
        → (length opts.id == 0) ≡ false
        → Settings.default_config os opts.id ≡ ok (default_of opts)
    unfolding Settings.default_config Settings.default_client_config
    default_config_is opts h = rw (h) refl

    -- What is read back is filled in to what was written.
    pub read_back_complete :
        (opts : InitOptions) (provider_id : Bytes)
        → (length opts.id == 0) ≡ false
        → Settings.validate_and_apply_defaults os (record (config_of opts provider_id) {
          debug = some (record Settings.default_debug_config { message_sending_rate = 0 });
        })
          ≡ ok (config_of opts provider_id)
    unfolding Settings.validate_and_apply_defaults Settings.validate_logging Settings.apply_defaults
        Settings.is_zero Settings.default_debug_config Settings.default_logging_config
    read_back_complete opts provider_id h =
        rw
          (
            validate_client_complete os law (client_part opts provider_id)
                (client_part-IsClient opts provider_id h),
            law.parse_level_default,
          )
          refl

    module _ (pem : Pem) (pem_law : IsPem pem) (lib : Library) (disk : Disk) (env : Setting) where
      pub init_cmd_files :
          (opts : InitOptions) (files files' : Files) (config_path : Bytes)
          (chosen : MixProviderPresence) (topology : TopologyData)
          → (length opts.id == 0) ≡ false
          → Settings.default_config_path os opts.id ≡ ok config_path
          → get_network_topology env.get env.unmarshal
              (client_part opts []).directory_server_topology_endpoint
            ≡ ok topology
          → choose_random env.random 8 topology.mix_provider_nodes ≡ ok chosen
          → init_cmd os pem lib disk env opts files ≡ ok files'
          → (priv : PrivateKey) × (pub_key : PublicKey) × (with_keys : Files) × (content : Bytes)
            × (generate_key_pair lib env.source ≡ ok (priv, pub_key))
            × (write_keys os pem disk (client_part opts opts.provider) priv pub_key files
                ≡ ok with_keys)
            × (execute_template disk.format_floats (config_of opts chosen.pub_key) ≡ ok content)
            × (files' ≡ insert config_path content with_keys)
      unfolding init_cmd
      init_cmd_files opts files files' config_path chosen topology h path got chose made =
          let c = client_part opts chosen.pub_key in
          let (u0, usage, made0) =
            bind_inverse (guard (length opts.params == 0) usage_error) _ files' made in
          let ((priv, pub_key), pair, made1) =
            bind_inverse (generate_key_pair lib env.source) _ files' made0 in
          let named =
            bind_known (if length opts.id == 0 then random_string env.random 0 8 else ok opts.id) _
              opts.id files' (rw h refl) made1 in
          let configured =
            bind_known (Settings.default_config os opts.id) _ (default_of opts) files'
              (default_config_is opts h) named in
          let made2 =
            bind_known (Settings.default_config_path os opts.id) _ config_path files' path
              configured in
          let (u1, dir, made3) =
            bind_inverse
              (ensure_dir (disk.stat (disk.split config_path).0)
                (disk.mkdir_all (disk.split config_path).0))
              _ files' made2 in
          let (with_keys, kept, made4) =
            bind_inverse
              (write_keys os pem disk (client_part opts opts.provider) priv pub_key files) _ files'
              made3 in
          let made5 =
            bind_known
              (get_network_topology env.get env.unmarshal
                (client_part opts []).directory_server_topology_endpoint)
              _ topology files' got made4 in
          let (u2, some_node, made6) =
            bind_inverse (guard (not (length topology.mix_provider_nodes == 0)) no_topology) _
              files' made5 in
          let made7 =
            bind_known (choose_random env.random 8 topology.mix_provider_nodes) _ chosen files'
              chose made6 in
          let (u3, apps, made8) =
            bind_inverse
              (ensure_dir (disk.stat (Settings.full_mix_apps_dir os c))
                (disk.mkdir_all (Settings.full_mix_apps_dir os c)))
              _ files' made7 in
          let (content, filed, is) =
            bind_inverse
              (write_config_file disk.format_floats disk.write config_path
                (config_of opts chosen.pub_key))
              _ files' made8 in
          let filled =
            write_config_file-content disk config_path (config_of opts chosen.pub_key) content
              filed in
          (priv, pub_key, with_keys, content, pair, kept, filled, sym (ok_injective _ _ is))
