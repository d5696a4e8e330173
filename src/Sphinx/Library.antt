-- ===== src/Sphinx/Library.antt =====
-- The cryptography under sphinx/: crypto/sha256, crypto/hmac, crypto/aes, crypto/cipher and
-- golang.org/x/crypto/curve25519, and the two messages that the package marshals. They are
-- parameters, with their documented behaviour as `IsLawful`.
use loopix_messaging.Prelude.{
  ℕ, ◌≡◌, Bool, true, ◌&&◌, Option, none, some, Bytes, Result, ok, length,
}
use loopix_messaging.Messages.{Hop, RoutingInfo, SphinxPacket, Codec, IsCodec, no_strings}

-- A `cipher.Block`, as counter mode uses it: the key stream that it makes from an initial vector.
pub record Block : Type 0 where
  pub key_stream : Bytes → ℕ → ℕ

pub record Library : Type 0 where
  pub sha256 : Bytes → Bytes
  pub hmac_sha256 : Bytes → Bytes → Bytes
  pub new_cipher : Bytes → Result Block
  pub scalar_mult : Bytes → Bytes → Bytes
  pub scalar_base_mult : Bytes → Bytes
  pub valid_utf8 : Bytes → Bool
  pub routing_info : Codec RoutingInfo
  pub sphinx_packet : Codec SphinxPacket

-- The strings of a hop are its id and its address.
abbrev pub hop_valid : Library → Option Hop → Bool
hop_valid lib none = true
hop_valid lib (some h) = lib.valid_utf8 h.id && lib.valid_utf8 h.address

pub record IsLawful (lib : Library) : Type 0 where
  -- Digests of SHA-256 have 32 bytes.
  pub length-sha256 : (b : Bytes) → length (lib.sha256 b) ≡ 32
  -- AES takes keys of 16 bytes.
  pub new_cipher_total : (k : Bytes) → length k ≡ 16 → (b : Block) × (lib.new_cipher k ≡ ok b)
  -- Points of curve25519 are arrays of 32 bytes.
  pub length-scalar_mult : (a p : Bytes) → length (lib.scalar_mult a p) ≡ 32
  pub length-scalar_base_mult : (a : Bytes) → length (lib.scalar_base_mult a) ≡ 32
  -- Scalar multiplications commute, also with that of the base point.
  pub scalar_mult_comm :
      (a b p : Bytes)
      → lib.scalar_mult a (lib.scalar_mult b p) ≡ lib.scalar_mult b (lib.scalar_mult a p)
  pub scalar_mult_base :
      (a b : Bytes)
      → lib.scalar_mult a (lib.scalar_base_mult b) ≡ lib.scalar_mult b (lib.scalar_base_mult a)
  pub routing_info_codec : IsCodec (λ r. hop_valid lib r.next_hop) lib.routing_info
  pub sphinx_packet_codec : IsCodec no_strings lib.sphinx_packet
