-- ===== src/Cmd/Provider/Keys.antt =====
-- The keys of a provider over its runs (cmd/nym-mixnet-provider/run.go).
use loopix_messaging.Prelude.{
  ◌≡◌, refl, ap, ◌∙◌, some, Bytes, Result, ok, length, equal, Result-cases, inl, inr, ok_injective,
  bind_inverse,
}
use loopix_messaging.Prelude.Maps.{lookup, bytes_key}
use loopix_messaging.Helpers.Pem.{Pem, present, private_key_pem_type, public_key_pem_type}
use loopix_messaging.Helpers.Pem.Keys.{IsPem, private_loaded, public_loaded}
use loopix_messaging.Sphinx.Curve.{PrivateKey, PublicKey, generate_key_pair}
use loopix_messaging.Sphinx.Library.{Library, IsLawful}
use loopix_messaging.Cmd.Saving.{saved, save_pair-saved, lookup-saved_private, lookup-saved_public}
use loopix_messaging.Cmd.{Files, read_file}
use loopix_messaging.Cmd.Provider.{
  zero_private_key, zero_public_key, default_private_key_file, default_public_key_file, stat,
  load_keys, save_keys, make_keys, own_keys,
}

module _ (pem : Pem) (law : IsPem pem) where
  load_keys_there :
      (priv_p : PrivateKey) (pub_p : PublicKey) (files : Files)
      → length priv_p.raw ≡ 32
      → length pub_p.raw ≡ 32
      → lookup default_private_key_file files
        ≡ some (pem.encode_to_memory private_key_pem_type priv_p.raw)
      → lookup default_public_key_file files
        ≡ some (pem.encode_to_memory public_key_pem_type pub_p.raw)
      → load_keys pem files ≡ ok (priv_p, pub_p)
  unfolding load_keys
  load_keys_there priv_p pub_p files h k first second =
      let private_read : read_file files default_private_key_file
          ≡ present (pem.encode_to_memory private_key_pem_type priv_p.raw) =
        rw (read_file, first) refl in
      let public_read : read_file files default_public_key_file
          ≡ present (pem.encode_to_memory public_key_pem_type pub_p.raw) =
        rw (read_file, second) refl in
      let stat_private : stat files default_private_key_file ≡ ok tt = rw (stat, first) refl in
      let stat_public : stat files default_public_key_file ≡ ok tt = rw (stat, second) refl in
      rw
        (
          stat_private,
          stat_public,
          private_loaded pem law priv_p zero_private_key _ h private_read,
          public_loaded pem law pub_p zero_public_key _ k public_read,
        )
        refl

  load_keys-saved :
      (priv_p : PrivateKey) (pub_p : PublicKey) (files : Files)
      → length priv_p.raw ≡ 32
      → length pub_p.raw ≡ 32
      → load_keys pem
          (saved pem default_private_key_file default_public_key_file priv_p pub_p files)
        ≡ ok (priv_p, pub_p)
  unfolding equal
  load_keys-saved priv_p pub_p files h k =
      load_keys_there priv_p pub_p
        (saved pem default_private_key_file default_public_key_file priv_p pub_p files) h k
        (lookup-saved_private pem default_private_key_file default_public_key_file priv_p pub_p
          files refl)
        (lookup-saved_public pem default_private_key_file default_public_key_file priv_p pub_p
          files)

  make_keys-persist :
      (lib : Library) (write later_write : Bytes → Result (Unit {0}))
      (random later_random : Result Bytes) (files files' : Files) (keys : PrivateKey × PublicKey)
      → IsLawful lib
      → ((b : Bytes) → random ≡ ok b → length b ≡ 32)
      → make_keys pem lib write random files ≡ ok (keys, files')
      → own_keys pem lib later_write later_random files' ≡ ok (keys, files')
  unfolding own_keys generate_key_pair save_keys
  make_keys-persist lib write later_write random later_random files files' keys lawful whole h =
      elim (Result-cases random) [
        | inl (b, drawn) ↦
            let pair : PrivateKey × PublicKey =
              (record { raw = b }, record { raw = lib.scalar_base_mult b }) in
            let (next, wrote, same) =
              bind_inverse (save_keys pem write pair.0 pair.1 files) _ (keys, files')
                (rw drawn at h) in
            let is = ok_injective _ _ same in
            let all =
              save_pair-saved pem default_private_key_file default_public_key_file pair.0 pair.1
                files write next wrote in
            let loads : load_keys pem next ≡ ok pair =
              ap (load_keys pem) all
              ∙ load_keys-saved pair.0 pair.1 files (whole b drawn)
                  (lawful.length-scalar_base_mult b) in
            rw (← ap (λ v. v.0) is, ← ap (λ v. v.1) is) (rw (own_keys, loads) refl)
        | inr (inl (e, failed)) ↦ cc (rw failed at h)
        | inr (inr failed) ↦ cc (rw failed at h)
      ]

  -- Where the random source gives 32 bytes at a time, a provider that has got keys, from its files
  -- or made and saved there, gets the same keys in every later run over the files that it left,
  -- whatever can be written and whatever the random source gives then, and leaves the files as they
  -- are.
  pub own_keys-persist :
      (lib : Library) (write later_write : Bytes → Result (Unit {0}))
      (random later_random : Result Bytes) (files files' : Files) (keys : PrivateKey × PublicKey)
      → IsLawful lib
      → ((b : Bytes) → random ≡ ok b → length b ≡ 32)
      → own_keys pem lib write random files ≡ ok (keys, files')
      → own_keys pem lib later_write later_random files' ≡ ok (keys, files')
  unfolding own_keys generate_key_pair
  own_keys-persist lib write later_write random later_random files files' keys lawful whole h =
      elim (Result-cases (load_keys pem files)) [
        | inl (loaded, e) ↦
            let same = ok_injective _ _ (rw (own_keys, e) at h) in
            rw (← ap (λ v. v.0) same, ← ap (λ v. v.1) same) (rw (own_keys, e) refl)
        | inr (inl (f, e)) ↦
            make_keys-persist lib write later_write random later_random files files' keys lawful
              whole (rw (own_keys, e) at h)
        | inr (inr e) ↦ cc (rw (own_keys, e) at h)
      ]
