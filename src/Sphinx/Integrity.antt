-- ===== src/Sphinx/Integrity.antt =====
-- Packets that were not made for a node (`ProcessSphinxPacket`).
use loopix_messaging.Prelude.{
  ◌≤◌, ◌≡◌, ◌≢◌, refl, sym, some, none, false, Bytes, ok, err, panic, length, equal, equal_sound,
  copy_to, macs_not_matching, Bool-cases, inl, inr,
}
use loopix_messaging.Messages.{Header}
use loopix_messaging.Sphinx.Library.{Library, IsLawful}
use loopix_messaging.Sphinx.Curve.{PrivateKey}
use loopix_messaging.Sphinx.Primitives.{
  derive, kdf-eq, compute_mac-eq, bytes_to_field_element-le, private_key_to_field_element-eq,
}
use loopix_messaging.Sphinx.Processing.{process_sphinx_header, process_sphinx_packet}

module _ (lib : Library) where
  -- The code that the holder of the key expects over the routing data of a header.
  abbrev pub expected_mac : PrivateKey → Header → Bytes
  expected_mac key hdr =
      lib.hmac_sha256 (derive lib (derive lib (lib.scalar_mult key.raw (copy_to 32 hdr.alpha))))
        hdr.beta

  -- A packet without a header ends the process that handles it.
  pub process_sphinx_packet-no_header :
      (b : Bytes) (pld : Bytes) (key : PrivateKey)
      → lib.sphinx_packet.unmarshal b ≡ ok (record { hdr = none; pld = pld })
      → process_sphinx_packet lib b key ≡ panic
  unfolding process_sphinx_packet
  process_sphinx_packet-no_header b pld key read = rw (read, process_sphinx_packet) refl

  module _ (law : IsLawful lib) where
    process_sphinx_header-rejects :
        (hdr : Header) (key : PrivateKey)
        → length key.raw ≡ 32
        → length hdr.alpha ≤ 32
        → equal (expected_mac key hdr) hdr.mac ≡ false
        → process_sphinx_header lib hdr key ≡ err macs_not_matching
    unfolding process_sphinx_header
    process_sphinx_header-rejects hdr key k32 fits different =
        rw
          (
            bytes_to_field_element-le hdr.alpha fits,
            private_key_to_field_element-eq key k32,
            kdf-eq lib law (lib.scalar_mult key.raw (copy_to 32 hdr.alpha)),
            kdf-eq lib law (derive lib (lib.scalar_mult key.raw (copy_to 32 hdr.alpha))),
            compute_mac-eq lib law
                (derive lib (derive lib (lib.scalar_mult key.raw (copy_to 32 hdr.alpha)))) hdr.beta,
            different,
          )
          refl

    -- A packet whose code is not the expected one is refused.
    pub process_sphinx_packet-rejects :
        (b pld : Bytes) (hdr : Header) (key : PrivateKey)
        → lib.sphinx_packet.unmarshal b ≡ ok (record { hdr = some hdr; pld = pld })
        → length key.raw ≡ 32
        → length hdr.alpha ≤ 32
        → hdr.mac ≢ expected_mac key hdr
        → process_sphinx_packet lib b key ≡ err macs_not_matching
    unfolding process_sphinx_packet
    process_sphinx_packet-rejects b pld hdr key read k32 fits other =
        rw
          (
            read,
            process_sphinx_packet,
            process_sphinx_header-rejects hdr key k32 fits
                (different hdr.mac (expected_mac key hdr) other),
          )
          refl
      where
        different : (x y : Bytes) → x ≢ y → equal y x ≡ false
        different x y h = elim (Bool-cases (equal y x)) [
          | inl same ↦ absurd (h (sym (equal_sound y x same)))
          | inr e ↦ e
        ]
