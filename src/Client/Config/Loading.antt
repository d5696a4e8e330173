-- ===== src/Client/Config/Loading.antt =====
-- What a configuration that is loaded, and the default one, hold (client/config).
use loopix_messaging.Prelude.{
  ◌≡◌, refl, sym, ◌∙◌, [], Bool, true, false, not, ◌==◌, none, some, Bytes, Result, ok, ◌>>=◌,
  length, bind_inverse, some_injective, Bool-cases, inl, inr, guard, invalid_client_id,
}
use loopix_messaging.Client.Config.{
  Platform, Client, Config, is_zero, apply_defaults, validate_client, validate_logging,
  validate_and_apply_defaults, load_binary, load_file, private_key_file, public_key_file,
  full_mix_apps_dir, rootify, home_of, default_config, default_client_config,
  default_logging_config, default_debug_config,
}
use loopix_messaging.Client.Config.Defaults.{
  IsPlatform, IsClient, IsComplete, validated-IsComplete, validated_complete,
}

-- The client part of a configuration file in which only the id is set.
abbrev pub only_id : Bytes → Client
only_id client_id = record {
  home_directory = [];
  id = client_id;
  directory_server_topology_endpoint = [];
  mix_apps_directory = [];
  private_key = [];
  public_key = [];
  provider_id = [];
}

module _ (os : Platform Config) (law : IsPlatform os) where
  rootify_abs :
      (path root : Bytes) → os.is_abs root ≡ true → os.is_abs (rootify os path root) ≡ true
  unfolding rootify
  rootify_abs path root h = elim (Bool-cases (os.is_abs path)) [
    | inl abs ↦ rw (rootify, abs) abs
    | inr rel ↦ rw (rootify, rel) (law.is_abs-join root _ h)
  ]

  home_abs : (c : Client) → IsClient os c → os.is_abs (home_of os c) ≡ true
  home_abs c client = law.is_abs-join c.home_directory _ client.0

  -- A configuration that is loaded from a file has a client, a log and a debug part in which
  -- nothing is left to fill in: the home directory is absolute, the id and the paths are not empty,
  -- the rates are not zero and the log's level is a level. To validate it again changes nothing,
  -- and the two key files and the mixapps directory have absolute paths.
  pub load_file-IsComplete :
      (read_file : Bytes → Result Bytes) (f : Bytes) (cfg : Config)
      → load_file os read_file f ≡ ok cfg
      → IsComplete os cfg
        × (validate_and_apply_defaults os cfg ≡ ok cfg)
        × ((c : Client)
            → cfg.client ≡ some c
            → (os.is_abs (private_key_file os c) ≡ true)
              × (os.is_abs (public_key_file os c) ≡ true)
              × (os.is_abs (full_mix_apps_dir os c) ≡ true))
  unfolding load_file load_binary private_key_file public_key_file full_mix_apps_dir
  load_file-IsComplete read_file f cfg h =
      let (b, read, loaded) = bind_inverse (read_file (os.clean f)) _ cfg h in
      let (raw, decoded, valid) = bind_inverse (os.decode b) _ cfg loaded in
      let (c, l, d, e, client, level, rates) = validated-IsComplete os law raw cfg valid in
      (
        (c, l, d, e, client, level, rates),
        validated_complete os law cfg (c, l, d, e, client, level, rates),
        λ c' there. rw (← some_injective c c' (rw e at there)) (
          rootify_abs c.private_key _ (home_abs c client),
          rootify_abs c.public_key _ (home_abs c client),
          rootify_abs c.mix_apps_directory _ (home_abs c client),
        ),
      )

  guarded_twice :
      {A B : Type 0} (b : Bool) (a : A) (f : A → B)
      → b ≡ true
      → (v : B) × ◌≡◌ {A = Result B}
          (guard b invalid_client_id >>= λ _.
            (guard b invalid_client_id >>= λ _. ok a) >>= λ x. ok (f x))
          (ok v)
  guarded_twice true a f h = (f a, refl)
  guarded_twice false a f h = cc

  default_config_made :
      (client_id : Bytes)
      → (length client_id == 0) ≡ false
      → (cfg : Config) × (default_config os client_id ≡ ok cfg)
  unfolding default_config default_client_config
  default_config_made client_id h = guarded_twice (not (length client_id == 0)) _ _ (rw h refl)

  -- The default configuration of a client with an id is what validating a configuration gives in
  -- which only the id is set, it has nothing left to fill in, and to validate it changes nothing.
  default_config-IsComplete :
      (client_id : Bytes)
      → (length client_id == 0) ≡ false
      → (cfg : Config) × (default_config os client_id ≡ ok cfg)
        × IsComplete os cfg
        × (validate_and_apply_defaults os cfg ≡ ok cfg)
        × (validate_and_apply_defaults os
              (record { client = some (only_id client_id); logging = none; debug = none })
            ≡ ok cfg)
  unfolding default_config validate_and_apply_defaults validate_client validate_logging
      apply_defaults default_debug_config default_client_config default_logging_config is_zero
  default_config-IsComplete client_id h =
      let made : default_config os client_id
          ≡ validate_and_apply_defaults os
              (record { client = some (only_id client_id); logging = none; debug = none }) =
        rw (h, law.parse_level_default) refl in
      let (cfg, known) = default_config_made client_id h in
      let complete =
        validated-IsComplete os law
          (record { client = some (only_id client_id); logging = none; debug = none }) cfg
          (sym made ∙ known) in
      (cfg, known, complete, validated_complete os law cfg complete, sym made ∙ known)
