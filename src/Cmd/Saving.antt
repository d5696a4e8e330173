-- ===== src/Cmd/Saving.antt =====
-- The saving of a pair of keys in two files (cmd).
use loopix_messaging.Prelude.{
  ◌≡◌, sym, ◌∙◌, false, some, Bytes, Result, ok, equal, Result-cases, inl, inr, ok_injective,
}
use loopix_messaging.Prelude.Maps.{insert, bytes_key, lookup, lookup-insert, lookup-insert_self}
use loopix_messaging.Helpers.Pem.{Pem, to_pem_file, private_key_pem_type, public_key_pem_type}
use loopix_messaging.Sphinx.Curve.{PrivateKey, PublicKey, marshal_private_key, marshal_public_key}
use loopix_messaging.Cmd.{Files, save_pair}

module _ (pem : Pem) (priv_path pub_path : Bytes) (priv : PrivateKey) (pub_key : PublicKey)
    (files : Files) where
  abbrev pub saved : Files
  saved =
      insert pub_path (pem.encode_to_memory public_key_pem_type pub_key.raw)
        (insert priv_path (pem.encode_to_memory private_key_pem_type priv.raw) files)

  pub save_pair-saved :
      (write : Bytes → Result (Unit {0})) (files' : Files)
      → save_pair pem write priv_path pub_path priv pub_key files ≡ ok files'
      → files' ≡ saved
  unfolding to_pem_file marshal_private_key marshal_public_key
  save_pair-saved write files' h = elim (Result-cases (write priv_path)) [
    | inl (done, e) ↦ elim (Result-cases (write pub_path)) [
      | inl (done', e') ↦ sym (ok_injective _ _ (rw (e, e') at h))
      | inr (inl (f, e')) ↦ cc (rw (e, e') at h)
      | inr (inr e') ↦ cc (rw (e, e') at h)
    ]
    | inr (inl (f, e)) ↦ cc (rw e at h)
    | inr (inr e) ↦ cc (rw e at h)
  ]

  pub lookup-saved_private :
      equal pub_path priv_path ≡ false
      → lookup priv_path saved ≡ some (pem.encode_to_memory private_key_pem_type priv.raw)
  lookup-saved_private apart =
      lookup-insert pub_path priv_path _ _ ∙ (rw apart (lookup-insert_self priv_path _ files))

  pub lookup-saved_public :
      lookup pub_path saved ≡ some (pem.encode_to_memory public_key_pem_type pub_key.raw)
  lookup-saved_public = lookup-insert_self pub_path _ _

  -- A third file that is written after the pair hides neither key.
  pub lookup-saved_pair :
      (write : Bytes → Result (Unit {0})) (with_keys : Files) (other content : Bytes)
      → save_pair pem write priv_path pub_path priv pub_key files ≡ ok with_keys
      → equal pub_path priv_path ≡ false
      → equal other priv_path ≡ false
      → equal other pub_path ≡ false
      → (lookup priv_path (insert other content with_keys)
          ≡ some (pem.encode_to_memory private_key_pem_type priv.raw))
        × (lookup pub_path (insert other content with_keys)
            ≡ some (pem.encode_to_memory public_key_pem_type pub_key.raw))
  lookup-saved_pair write with_keys other content kept apart from_private from_public =
      let stored = save_pair-saved write with_keys kept in
      (
        lookup-insert other priv_path content with_keys
            ∙ rw (from_private, stored) (lookup-saved_private apart),
        lookup-insert other pub_path content with_keys
            ∙ rw (from_public, stored) lookup-saved_public,
      )
