-- ===== src/Client/Config/Defaults.antt =====
-- What the validation of a configuration guarantees (client/config).
use loopix_messaging.Prelude.{
  ◌≡◌, refl, sym, List, [], ◌∷◌, Bool, true, false, ◌||◌, ◌==◌, some, Bytes, bytes, Result, ok,
  ◌>>=◌, length, arith, if◌then◌else◌, ok_injective, Result-cases, Option-cases, inl, inr, guard,
  relative_home, no_client_id,
}
use loopix_messaging.Messages.{Float64}
use loopix_messaging.Client.Config.{
  Platform, Client, Logging, Debug, Config, is_zero, apply_defaults, default_rate, or_default,
  validate_client, validate_logging, validate_and_apply_defaults, default_log_level, debug_or_zero,
  logging_or_default, default_home_directory,
}

-- `filepath` on Unix: a path that starts with an absolute one is absolute, and the empty path is
-- not; what is joined from something is not empty. HOME holds an absolute path, and "info" is a
-- level.
pub record IsPlatform (os : Platform Config) : Type 0 where
  pub is_abs_empty : os.is_abs [] ≡ false
  pub is_abs_home :
      os.is_abs (os.expand_env (os.join (bytes "$HOME" ∷ bytes ".nym" ∷ bytes "clients" ∷ [])))
      ≡ true
  pub is_abs-join :
      (p : Bytes) (ps : List Bytes) → os.is_abs p ≡ true → os.is_abs (os.join (p ∷ ps)) ≡ true
  pub join_nonempty :
      (p : Bytes) (ps : List Bytes)
      → (length p == 0) ≡ false
      → (length (os.join (p ∷ ps)) == 0) ≡ false
  pub parse_level_default : os.parse_level default_log_level ≡ ok tt

module _ (os : Platform Config) where
  abbrev pub IsClient : Client → Type 0
  IsClient c =
      (os.is_abs c.home_directory ≡ true)
      × ((length c.id == 0) ≡ false)
      × ((length c.mix_apps_directory == 0) ≡ false)
      × ((length c.directory_server_topology_endpoint == 0) ≡ false)
      × ((length c.private_key == 0) ≡ false)
      × ((length c.public_key == 0) ≡ false)

  abbrev pub AreRates : Debug → Type 0
  AreRates d =
      (is_zero d.loop_cover_traffic_rate ≡ false)
      × (is_zero d.fetch_message_rate ≡ false)
      × (is_zero d.message_sending_rate ≡ false)

  -- A configuration in which nothing is left to fill in or to refuse.
  abbrev pub IsComplete : Config → Type 0
  IsComplete cfg =
      (c : Client) × (l : Logging) × (d : Debug) × (cfg
        ≡ record { client = some c; logging = some l; debug = some d })
      × IsClient c
      × (os.parse_level l.level ≡ ok tt)
      × AreRates d

  is_zero-or_rate : (f : Float64) → is_zero (if is_zero f then default_rate else f) ≡ false
  unfolding is_zero
  is_zero-or_rate f = ground arith

  apply_defaults-AreRates : (d : Debug) → AreRates (apply_defaults d)
  unfolding apply_defaults
  apply_defaults-AreRates d = (
    is_zero-or_rate d.loop_cover_traffic_rate,
    is_zero-or_rate d.fetch_message_rate,
    is_zero-or_rate d.message_sending_rate,
  )

  apply_defaults_complete : (d : Debug) → AreRates d → apply_defaults d ≡ d
  unfolding apply_defaults
  apply_defaults_complete d (a, b, c) = rw (a, b, c) refl

  or_default-nonempty :
      (default s : Bytes)
      → (length default == 0) ≡ false
      → (length (or_default default s) == 0) ≡ false
  or_default-nonempty default [] h = h
  or_default-nonempty default (x ∷ s) h = ground arith

  guards_passed :
      {A : Type 0} (a b : Bool) (v w : A)
      → ◌≡◌ {A = Result A}
          (guard a relative_home >>= λ _. guard b no_client_id >>= λ _. ok v)
          (ok w)
      → (a ≡ true) × (b ≡ true) × (v ≡ w)
  guards_passed true true v w h = (refl, refl, cc)
  guards_passed true false v w h = cc
  guards_passed false b v w h = cc

  module _ (law : IsPlatform os) where
    abs_nonempty : (p : Bytes) → os.is_abs p ≡ true → (length p == 0) ≡ false
    abs_nonempty [] h = cc (law.is_abs_empty, h)
    abs_nonempty (x ∷ p) h = ground arith

    or_default_abs :
        (p : Bytes)
        → (length p == 0 || os.is_abs p) ≡ true
        → os.is_abs (or_default (default_home_directory os) p) ≡ true
    or_default_abs [] h = law.is_abs_home
    or_default_abs (x ∷ p) h = ground arith

    pub validate_client_complete : (c : Client) → IsClient c → validate_client os c ≡ ok c
    unfolding validate_client
    validate_client_complete c (abs, id, apps, endpoint, private, public) =
        rw (abs_nonempty c.home_directory abs, abs, id, apps, endpoint, private, public) refl

    validate_client-IsClient : (c c' : Client) → validate_client os c ≡ ok c' → IsClient c'
    unfolding validate_client
    validate_client-IsClient c c' h =
        let (home, named, same) = guards_passed _ _ _ c' h in
        rw (← same) (
          or_default_abs c.home_directory home,
          ground arith,
          or_default-nonempty _ c.mix_apps_directory refl,
          or_default-nonempty _ c.directory_server_topology_endpoint refl,
          or_default-nonempty _ c.private_key (law.join_nonempty _ _ refl),
          or_default-nonempty _ c.public_key (law.join_nonempty _ _ refl),
        )

    pub validated-IsComplete :
        (cfg cfg' : Config) → validate_and_apply_defaults os cfg ≡ ok cfg' → IsComplete cfg'
    unfolding validate_and_apply_defaults validate_logging
    validated-IsComplete cfg cfg' h = elim (Option-cases cfg.client) [
      | inl nothing ↦ cc (rw (validate_and_apply_defaults, nothing) at h)
      | inr (c, there) ↦ elim (Result-cases (validate_client os c)) [
        | inl (c', checked) ↦
            elim (Result-cases (os.parse_level (logging_or_default os c'.id cfg.logging).level)) [
              | inl (done, level) ↦ (
                c',
                logging_or_default os c'.id cfg.logging,
                apply_defaults (debug_or_zero os cfg.debug),
                ok_injective _ _
                    (sym (rw (validate_and_apply_defaults, there, checked, level) at h)),
                validate_client-IsClient c c' checked,
                level,
                apply_defaults-AreRates (debug_or_zero os cfg.debug),
              )
              | inr (inl (e, level)) ↦
                  cc (rw (validate_and_apply_defaults, there, checked, level) at h)
              | inr (inr level) ↦ cc (rw (validate_and_apply_defaults, there, checked, level) at h)
            ]
        | inr (inl (e, checked)) ↦ cc (rw (validate_and_apply_defaults, there, checked) at h)
        | inr (inr checked) ↦ cc (rw (validate_and_apply_defaults, there, checked) at h)
      ]
    ]

    pub validated_complete :
        (cfg : Config) → IsComplete cfg → validate_and_apply_defaults os cfg ≡ ok cfg
    unfolding validate_and_apply_defaults validate_logging
    validated_complete cfg (c, l, d, e, client, level, rates) =
        rw (e, validate_client_complete c client, level, apply_defaults_complete d rates) refl
