-- ===== src/Helpers/Pem/Keys.antt =====
-- The round trip of keys through PEM files (helpers/utilities.go).
use loopix_messaging.Prelude.{
  ◌≡◌, refl, [], ==_iff, some, none, Bytes, Result, ok, err, panic, length, equal, copy_to-length,
  invalid_pem_type,
}
use loopix_messaging.Sphinx.Curve.{
  PrivateKey, PublicKey, marshal_private_key, unmarshal_private_key, marshal_public_key,
  unmarshal_public_key,
}
use loopix_messaging.Helpers.Pem.{
  Pem, ReadFile, present, to_pem_file, from_pem_file, private_key_pem_type, public_key_pem_type,
}

-- A block is read back, and nothing follows it; a file with no text has no block.
pub record IsPem (pem : Pem) : Type 0 where
  pub decode-encode_to_memory :
      (pem_type b : Bytes) → pem.decode (pem.encode_to_memory pem_type b) ≡ (some (pem_type, b), [])
  pub decode_empty : pem.decode [] ≡ (none, [])

module _ (pem : Pem) (law : IsPem pem) where
  pub private_loaded :
      (priv old : PrivateKey) (file : ReadFile)
      → length priv.raw ≡ 32
      → file ≡ present (pem.encode_to_memory private_key_pem_type priv.raw)
      → from_pem_file pem unmarshal_private_key file private_key_pem_type old ≡ ok priv
  unfolding from_pem_file unmarshal_private_key equal
  private_loaded priv old file h there =
      rw
        (
          there,
          law.decode-encode_to_memory,
          unmarshal_private_key,
          (==_iff (length priv.raw) 32).1 h,
          copy_to-length 32 priv.raw h,
        )
        refl

  pub public_loaded :
      (pub_key old : PublicKey) (file : ReadFile)
      → length pub_key.raw ≡ 32
      → file ≡ present (pem.encode_to_memory public_key_pem_type pub_key.raw)
      → from_pem_file pem unmarshal_public_key file public_key_pem_type old ≡ ok pub_key
  unfolding from_pem_file unmarshal_public_key equal
  public_loaded pub_key old file h there =
      rw
        (
          there,
          law.decode-encode_to_memory,
          unmarshal_public_key,
          (==_iff (length pub_key.raw) 32).1 h,
          copy_to-length 32 pub_key.raw h,
        )
        refl

  -- A private and a public key of 32 bytes that are written to files are read back as they were,
  -- whatever the keys held that they are read into; the file of a public key is refused as one of a
  -- private key; and a file with no text makes the reading panic.
  pub from_pem_file-to_pem_file :
      (priv old_priv : PrivateKey) (pub_key old_pub : PublicKey) (write : Bytes → Result (Unit {0}))
      → length priv.raw ≡ 32
      → length pub_key.raw ≡ 32
      → ((b : Bytes) → write b ≡ ok tt)
      → (file : Bytes) × (pub_file : Bytes) × (to_pem_file pem marshal_private_key write
            private_key_pem_type priv
          ≡ ok file)
        × (to_pem_file pem marshal_public_key write public_key_pem_type pub_key ≡ ok pub_file)
        × (from_pem_file pem unmarshal_private_key (present file) private_key_pem_type old_priv
            ≡ ok priv)
        × (from_pem_file pem unmarshal_public_key (present pub_file) public_key_pem_type old_pub
            ≡ ok pub_key)
        × (from_pem_file pem unmarshal_private_key (present pub_file) private_key_pem_type old_priv
            ≡ err invalid_pem_type)
        × (from_pem_file pem unmarshal_private_key (present []) private_key_pem_type old_priv
            ≡ panic)
  unfolding to_pem_file from_pem_file marshal_private_key marshal_public_key equal
  from_pem_file-to_pem_file priv old_priv pub_key old_pub write h k written = (
    pem.encode_to_memory private_key_pem_type priv.raw,
    pem.encode_to_memory public_key_pem_type pub_key.raw,
    rw written refl,
    rw written refl,
    private_loaded priv old_priv _ h refl,
    public_loaded pub_key old_pub _ k refl,
    rw law.decode-encode_to_memory refl,
    rw law.decode_empty refl,
  )
