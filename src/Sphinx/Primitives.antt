-- ===== src/Sphinx/Primitives.antt =====
-- The functions of sphinx/crypto.go and sphinx/crypto_curve25519.go as total functions, over
-- primitives that behave as documented.
use loopix_messaging.Prelude.{
  ℕ, suc, ◌≤◌, ◌≡◌, refl, ap, [], ◌∷◌, Bytes, bytes, ok, length, take, arith, length-take, copy_to,
  copy_to-length,
}
use loopix_messaging.Prelude.Xor.{bit_xor-twice}
use loopix_messaging.Sphinx.Library.{Block, Library, IsLawful}
use loopix_messaging.Sphinx.Crypto.{k_size, xor_key_stream, aes_ctr, kdf, compute_mac}
use loopix_messaging.Sphinx.Curve.{
  PrivateKey, PublicKey, bytes_to_field_element, bytes_to_public_key, private_key_to_field_element,
  public_key_to_field_element,
}
use loopix_messaging.Sphinx.Packing.{compute_blinding_factor}

-- Encrypting twice with one key stream gives the text back.
pub xor_key_stream-twice :
    (key : ℕ → ℕ) (i : ℕ) (xs : Bytes) → xor_key_stream key i (xor_key_stream key i xs) ≡ xs
unfolding xor_key_stream
xor_key_stream-twice key i [] = refl
xor_key_stream-twice key i (x ∷ xs) =
    rw (bit_xor-twice x (key i), xor_key_stream-twice key (suc i) xs)

pub length-xor_key_stream :
    (key : ℕ → ℕ) (i : ℕ) (xs : Bytes) → length (xor_key_stream key i xs) ≡ length xs
unfolding xor_key_stream
length-xor_key_stream key i [] = refl
length-xor_key_stream key i (x ∷ xs) = ap suc (length-xor_key_stream key (suc i) xs)

-- A slice that fits is read whole and padded with zeros.
pub bytes_to_field_element-le :
    (b : Bytes) → length b ≤ 32 → bytes_to_field_element b ≡ ok (record { raw = copy_to 32 b })
unfolding bytes_to_field_element
bytes_to_field_element-le b h = ground arith

pub bytes_to_field_element-eq :
    (b : Bytes) → length b ≡ 32 → bytes_to_field_element b ≡ ok (record { raw = b })
bytes_to_field_element-eq b h =
    rw (bytes_to_field_element-le b (omega arith), copy_to-length 32 b h)

pub private_key_to_field_element-eq :
    (p : PrivateKey)
    → length p.raw ≡ 32
    → private_key_to_field_element p ≡ ok (record { raw = p.raw })
unfolding private_key_to_field_element
private_key_to_field_element-eq p h = bytes_to_field_element-eq p.raw h

-- A public key of 32 bytes is read as it is.
pub bytes_to_public_key-eq :
    (b : Bytes) → length b ≡ 32 → bytes_to_public_key b ≡ ok (record { raw = b })
unfolding bytes_to_public_key
bytes_to_public_key-eq b h = rw (h, copy_to-length 32 b h)

pub public_key_to_field_element-eq :
    (p : PublicKey)
    → length p.raw ≡ 32
    → public_key_to_field_element p ≡ ok (record { raw = p.raw })
unfolding public_key_to_field_element
public_key_to_field_element-eq p h = bytes_to_field_element-eq p.raw h

module _ (lib : Library) where
  -- The first 16 bytes of the digest.
  pub derive : Bytes → Bytes
  derive b = take k_size (lib.sha256 b)

module _ (lib : Library) (law : IsLawful lib) where
  pub kdf-eq : (b : Bytes) → kdf lib b ≡ ok (derive lib b)
  unfolding kdf derive
  kdf-eq b = ground (arith, law.length-sha256 b)

  pub length-derive : (b : Bytes) → length (derive lib b) ≡ 16
  unfolding derive
  length-derive b = length-take 16 (lib.sha256 b) (omega (arith, law.length-sha256 b))

  cipher : Bytes → Block
  cipher b = (law.new_cipher_total (derive lib b) (length-derive b)).0

  cipher_lem : (b : Bytes) → lib.new_cipher (derive lib b) ≡ ok (cipher b)
  unfolding cipher
  cipher_lem b = (law.new_cipher_total (derive lib b) (length-derive b)).1

  -- AES-CTR under the key that is derived from a secret.
  pub encrypt : Bytes → Bytes → Bytes
  encrypt secret text =
      xor_key_stream ((cipher secret).key_stream (bytes "0000000000000000")) 0 text

  pub encrypt-encrypt : (secret text : Bytes) → encrypt secret (encrypt secret text) ≡ text
  unfolding encrypt
  encrypt-encrypt secret text = xor_key_stream-twice _ 0 text

  pub aes_ctr-eq :
      (secret text : Bytes) → aes_ctr lib (derive lib secret) text ≡ ok (encrypt secret text)
  unfolding aes_ctr encrypt
  aes_ctr-eq secret text = rw (cipher_lem secret)

  blinding_bytes : Bytes → Bytes
  blinding_bytes secret =
      xor_key_stream ((cipher secret).key_stream (bytes "initialvector000")) 0
        (bytes "0000000000000000")

  -- The blinding factor of a hop, from the secret that is shared with it.
  pub blinding : Bytes → Bytes
  blinding secret = copy_to 32 (blinding_bytes secret)

  pub compute_blinding_factor-eq :
      (secret : Bytes)
      → compute_blinding_factor lib (derive lib secret) ≡ ok (record { raw = blinding secret })
  unfolding compute_blinding_factor blinding blinding_bytes
  compute_blinding_factor-eq secret = rw (cipher_lem secret) (
      bytes_to_field_element-le (blinding_bytes secret) (
        omega (
          arith,
          length-xor_key_stream ((cipher secret).key_stream (bytes "initialvector000")) 0
              (bytes "0000000000000000"),
        )))

  pub compute_mac-eq : (key text : Bytes) → compute_mac lib key text ≡ ok (lib.hmac_sha256 key text)
  unfolding compute_mac
  compute_mac-eq key text = refl
