-- ===== src/Sphinx/Processing.antt =====
-- sphinx/sphinx.go, the node's side: `ProcessSphinxPacket` and what it calls.
use loopix_messaging.Prelude.{
  some, Bytes, Result, ok, ◌>>=◌, ◌>>◌, guard, deref, equal, macs_not_matching,
}
use loopix_messaging.Messages.{Header, Hop, Commands, RoutingInfo}
use loopix_messaging.Sphinx.Library.{Library}
use loopix_messaging.Sphinx.Crypto.{aes_ctr, kdf, compute_mac}
use loopix_messaging.Sphinx.Curve.{PrivateKey, bytes_to_field_element, private_key_to_field_element}
use loopix_messaging.Sphinx.Packing.{compute_blinding_factor}

-- Both pointers are followed without a check.
unfoldable pub read_beta : RoutingInfo → Result (Hop × Commands × Bytes × Bytes)
read_beta beta = do
  next_hop ← deref beta.next_hop
  commands ← deref beta.routing_commands
  ok (next_hop, commands, beta.next_hop_meta_data, beta.mac)

module _ (lib : Library) where
  unfoldable pub process_sphinx_header : Header → PrivateKey → Result (Hop × Commands × Header)
  process_sphinx_header packet priv_key = do
    alpha ← bytes_to_field_element packet.alpha
    priv ← private_key_to_field_element priv_key
    aes_s ← kdf lib (lib.scalar_mult priv.raw alpha.raw)
    enc_key ← kdf lib aes_s
    recomputed_mac ← compute_mac lib enc_key packet.beta
    guard (equal recomputed_mac packet.mac) macs_not_matching
    blinder ← compute_blinding_factor lib aes_s
    dec_beta ← aes_ctr lib enc_key packet.beta
    routing_info ← lib.routing_info.unmarshal dec_beta
    (next_hop, commands, next_beta, next_mac) ← read_beta routing_info
    ok (
      next_hop,
      commands,
      record { alpha = lib.scalar_mult blinder.raw alpha.raw; beta = next_beta; mac = next_mac },
    )

  unfoldable pub process_sphinx_payload : Bytes → Bytes → PrivateKey → Result Bytes
  process_sphinx_payload alpha payload priv_key = do
    priv ← private_key_to_field_element priv_key
    point ← bytes_to_field_element alpha
    aes_s ← kdf lib (lib.scalar_mult priv.raw point.raw)
    dec_key ← kdf lib aes_s
    aes_ctr lib dec_key payload

  -- The header is a pointer, followed without a check.
  unfoldable pub process_sphinx_packet : Bytes → PrivateKey → Result (Hop × Commands × Bytes)
  process_sphinx_packet packet_bytes priv_key = do
    packet ← lib.sphinx_packet.unmarshal packet_bytes
    hdr ← deref packet.hdr
    (hop, commands, new_header) ← process_sphinx_header hdr priv_key
    new_payload ← process_sphinx_payload hdr.alpha packet.pld priv_key
    new_packet_bytes ←
        lib.sphinx_packet.marshal (record { hdr = some new_header; pld = new_payload })
    ok (hop, commands, new_packet_bytes)
