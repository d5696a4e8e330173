-- ===== src/Examples/Packets.antt =====
-- A codec of Sphinx packets that keeps its law.
use loopix_messaging.Prelude.{
  ok_injective, zero, suc, ◌+◌, ◌/◌, ◌%◌, ◌<◌, ◌≡◌, refl, sym, ap₂, ◌∙◌, List, [], ◌∷◌, ◌++◌,
  Option, none, some, Bool, true, false, ◌&&◌, Bytes, Result, ok, err, length, take, drop, ltb,
  ◌==◌, equal, arith, library, if◌then◌else◌, take-append, drop-append, equal_iff, Bool-cases, inl,
  inr,
}
use loopix_messaging.Messages.{Header, SphinxPacket, Codec, IsCodec, no_strings}
use loopix_messaging.Examples.Codecs.{pack, unpack, unpack-pack}

-- A Sphinx packet whose header holds nothing but an element of 32 bytes, and whose payload has 1 to
-- 16383 bytes, is written as protobuf does.
abbrev pub is_plain : Header → Bytes → Bool
is_plain h pld =
    (length h.alpha == 32)
    && equal h.beta []
    && equal h.mac []
    && ltb 0 (length pld)
    && ltb (length pld) 16384

abbrev put_plain : Bytes → Bytes → Bytes
put_plain alpha pld =
    10
    ∷ 34
    ∷ 10
    ∷ 32
    ∷ (alpha
        ++ (if ltb (length pld) 128
            then 18 ∷ length pld ∷ pld
            else 18 ∷ (length pld % 128 + 128) ∷ (length pld / 128) ∷ pld))

abbrev put_packet : Option Header → Bytes → Bytes
put_packet none pld = 0 ∷ pld
put_packet (some h) pld =
    if is_plain h pld then put_plain h.alpha pld else 1 ∷ pack (h.alpha ∷ h.beta ∷ h.mac ∷ pld ∷ [])

abbrev plain_packet : Bytes → Bytes → SphinxPacket
plain_packet alpha pld = record {
  hdr = some (record { alpha = alpha; beta = []; mac = [] });
  pld = pld;
}

abbrev read_plain : Bytes → Bytes → Result SphinxPacket
read_plain alpha (tag ∷ d ∷ rest) =
    ok (plain_packet alpha (if ltb d 128 then rest else drop 1 rest))
read_plain alpha _ = err (library 0)

abbrev read_packed : List Bytes → Result SphinxPacket
read_packed (a ∷ b ∷ m ∷ pld ∷ []) =
    ok (record { hdr = some (record { alpha = a; beta = b; mac = m }); pld = pld })
read_packed _ = err (library 0)

abbrev read_packet : Bytes → Result SphinxPacket
read_packet (zero ∷ pld) = ok (record { hdr = none; pld = pld })
read_packet (suc zero ∷ r) = read_packed (unpack r)
read_packet (suc (suc t) ∷ x ∷ y ∷ z ∷ r) = read_plain (take 32 r) (drop 32 r)
read_packet _ = err (library 0)

abbrev pub toy_sphinx_packet : Codec SphinxPacket
toy_sphinx_packet = record { marshal = λ p. ok (put_packet p.hdr p.pld); unmarshal = read_packet }

read_plain-put :
    (alpha pld : Bytes)
    → length alpha ≡ 32
    → read_packet (put_plain alpha pld) ≡ ok (plain_packet alpha pld)
read_plain-put alpha pld h =
    rw (← h, take-append, drop-append)
      (elim (Bool-cases (ltb (length pld) 128)) [
        | inl e ↦ rw (e, e) refl
        | inr e ↦ rw (e, above) refl
      ])
  where
    above : ltb (length pld % 128 + 128) 128 ≡ false
    above = ground arith

is_plain-eq :
    (h : Header) (pld : Bytes)
    → is_plain h pld ≡ true
    → (length h.alpha ≡ 32) × (h.beta ≡ []) × (h.mac ≡ [])
is_plain-eq h pld e = ground (arith, equal_iff h.beta [], equal_iff h.mac [])

pub toy_sphinx_packet-IsCodec : IsCodec no_strings toy_sphinx_packet
toy_sphinx_packet-IsCodec = record {
  marshal_total = λ p v. (put_packet p.hdr p.pld, refl);
  unmarshal-marshal = λ p b h. rw (← ok_injective _ _ h) (back p.hdr p.pld);
}
  where
    back :
        (h : Option Header) (pld : Bytes)
        → read_packet (put_packet h pld) ≡ ok (record { hdr = h; pld = pld })
    back none pld = refl
    back (some h) pld = elim (Bool-cases (is_plain h pld)) [
      | inl e ↦
          let (a32, no_beta, no_mac) = is_plain-eq h pld e in
          rw e (
            read_plain-put h.alpha pld a32
            ∙ ap₂
                (λ b m. ok (record {
                  hdr = some (record { alpha = h.alpha; beta = b; mac = m });
                  pld = pld;
                }))
                (sym no_beta) (sym no_mac))
      | inr e ↦ rw e (rw (unpack-pack (h.alpha ∷ h.beta ∷ h.mac ∷ pld ∷ [])) refl)
    ]

pub is_plain-header :
    (alpha pld : Bytes)
    → length alpha ≡ 32
    → 0 < length pld
    → length pld < 16384
    → is_plain (record { alpha = alpha; beta = []; mac = [] }) pld ≡ true
is_plain-header alpha pld h more fits = ground (arith, equal_iff [] [])
