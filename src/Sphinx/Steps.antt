-- ===== src/Sphinx/Steps.antt =====
-- What `ProcessSphinxPacket` does with a packet that was made for the node.
use loopix_messaging.Prelude.{◌≡◌, some, Bytes, ok, length, equal_refl}
use loopix_messaging.Messages.{Commands, Hop}
use loopix_messaging.Sphinx.Library.{Library, IsLawful}
use loopix_messaging.Sphinx.Curve.{PrivateKey}
use loopix_messaging.Sphinx.Processing.{
  read_beta, process_sphinx_header, process_sphinx_payload, process_sphinx_packet,
}
use loopix_messaging.Sphinx.Primitives.{
  derive, kdf-eq, encrypt, encrypt-encrypt, aes_ctr-eq, compute_mac-eq, blinding,
  compute_blinding_factor-eq, bytes_to_field_element-eq, private_key_to_field_element-eq,
}
use loopix_messaging.Sphinx.Onion.{routing_of}

module _ (lib : Library) (law : IsLawful lib) where
  -- A node that holds the key for the outer layer of a header checks its code, and gets the entry
  -- of the layer and the header that was inside.
  process_sphinx_header-eq :
      (p : PrivateKey) (alpha routing beta' mac' : Bytes) (e : Hop × Commands)
      → length alpha ≡ 32
      → length p.raw ≡ 32
      → lib.routing_info.marshal (routing_of e beta' mac') ≡ ok routing
      → let secret = lib.scalar_mult p.raw alpha in
        let beta = encrypt lib law (derive lib secret) routing in
        process_sphinx_header lib
          (record {
            alpha = alpha;
            beta = beta;
            mac = lib.hmac_sha256 (derive lib (derive lib secret)) beta;
          })
          p
        ≡ ok (
          e.0,
          e.1,
          record {
            alpha = lib.scalar_mult (blinding lib law secret) alpha;
            beta = beta';
            mac = mac';
          },
        )
  unfolding process_sphinx_header read_beta
  process_sphinx_header-eq p alpha routing beta' mac' (hop, command) a32 p32 made =
      let secret = lib.scalar_mult p.raw alpha in
      let hash = derive lib secret in
      let beta = encrypt lib law hash routing in
      rw (
        bytes_to_field_element-eq alpha a32,
        private_key_to_field_element-eq p p32,
        kdf-eq lib law secret,
        kdf-eq lib law hash,
        compute_mac-eq lib law (derive lib hash) beta,
        equal_refl (lib.hmac_sha256 (derive lib hash) beta),
        compute_blinding_factor-eq lib law secret,
        aes_ctr-eq lib law hash beta,
        encrypt-encrypt lib law hash routing,
        law.routing_info_codec.unmarshal-marshal (routing_of (hop, command) beta' mac') routing
            made,
      )

  process_sphinx_payload-eq :
      (p : PrivateKey) (alpha text : Bytes)
      → length alpha ≡ 32
      → length p.raw ≡ 32
      → process_sphinx_payload lib alpha
          (encrypt lib law (derive lib (lib.scalar_mult p.raw alpha)) text)
          p
        ≡ ok text
  unfolding process_sphinx_payload
  process_sphinx_payload-eq p alpha text a32 p32 =
      let secret = lib.scalar_mult p.raw alpha in
      let hash = derive lib secret in
      rw (
        private_key_to_field_element-eq p p32,
        bytes_to_field_element-eq alpha a32,
        kdf-eq lib law secret,
        kdf-eq lib law hash,
        aes_ctr-eq lib law hash (encrypt lib law hash text),
        encrypt-encrypt lib law hash text,
      )

  -- One node: it learns the entry of the outer layer, and makes the packet for the next node.
  pub process_sphinx_packet-eq :
      (p : PrivateKey) (alpha routing beta' mac' inner b b' : Bytes) (e : Hop × Commands)
      → length alpha ≡ 32
      → length p.raw ≡ 32
      → lib.routing_info.marshal (routing_of e beta' mac') ≡ ok routing
      → let secret = lib.scalar_mult p.raw alpha in
        let hash = derive lib secret in
        let beta = encrypt lib law hash routing in
        lib.sphinx_packet.marshal (record {
          hdr =
              some (record {
                alpha = alpha;
                beta = beta;
                mac = lib.hmac_sha256 (derive lib hash) beta;
              });
          pld = encrypt lib law hash inner;
        })
          ≡ ok b
        → lib.sphinx_packet.marshal (record {
          hdr = some (record {
            alpha = lib.scalar_mult (blinding lib law (lib.scalar_mult p.raw alpha)) alpha;
            beta = beta';
            mac = mac';
          });
          pld = inner;
        })
          ≡ ok b'
        → process_sphinx_packet lib b p ≡ ok (e.0, e.1, b')
  unfolding process_sphinx_packet
  process_sphinx_packet-eq p alpha routing beta' mac' inner b b' e a32 p32 wrapped made made' = rw (
    law.sphinx_packet_codec.unmarshal-marshal _ b made,
    process_sphinx_header-eq p alpha routing beta' mac' e a32 p32 wrapped,
    process_sphinx_payload-eq p alpha inner a32 p32,
    made',
  )
