-- ===== src/Client/Stripping.antt =====
-- `processPacket` of client/client.go, on the packets that the last node of a path leaves.
use loopix_messaging.Prelude.{
  ℕ, suc, ◌+◌, ◌/◌, ◌%◌, ◌≤◌, ◌<◌, ◌≡◌, refl, sym, ap₂, ◌∙◌, List, [], ◌∷◌, ◌++◌, some, Bytes, ok,
  length, drop, arith, ltb, if◌then◌else◌, Bool-cases, inl, inr, length-append,
}
use loopix_messaging.Sphinx.Library.{Library, IsLawful}
use loopix_messaging.Sphinx.Delivery.{Delivered}
use loopix_messaging.Client.{strip_packet}

-- The protobuf encoding of a packet with nothing but an element of 32 bytes in its header: field 1
-- of the packet holds field 1 of the header, and field 2 holds the payload, behind its length as a
-- base-128 number.
pub record IsProtobuf (lib : Library) : Type 0 where
  pub one_digit :
      (alpha pld : Bytes)
      → length alpha ≡ 32
      → 0 < length pld
      → length pld < 128
      → lib.sphinx_packet.marshal
          (record { hdr = some (record { alpha = alpha; beta = []; mac = [] }); pld = pld })
        ≡ ok (10 ∷ 34 ∷ 10 ∷ 32 ∷ (alpha ++ (18 ∷ length pld ∷ pld)))
  pub two_digits :
      (alpha pld : Bytes)
      → length alpha ≡ 32
      → 128 ≤ length pld
      → length pld < 16384
      → lib.sphinx_packet.marshal
          (record { hdr = some (record { alpha = alpha; beta = []; mac = [] }); pld = pld })
        ≡ ok (
            10
            ∷ 34
            ∷ 10
            ∷ 32
            ∷ (alpha ++ ((18 ∷ (length pld % 128 + 128) ∷ (length pld / 128) ∷ pld))))

drop-append_add {ℓ} :
    {A : Type ℓ} (xs ys : List A) (n k : ℕ) → length xs ≡ n → drop (n + k) (xs ++ ys) ≡ drop k ys
drop-append_add [] ys n k h = rw (← h) (simp zero_plus)
  where
    zero_plus : 0 + k ≡ k
    zero_plus = omega arith
drop-append_add (x ∷ xs) ys n k h = rw (← h, shift) (drop-append_add xs ys (length xs) k refl)
  where
    shift : length (x ∷ xs) + k ≡ suc (length xs + k)
    shift = omega arith

-- The part of a packet behind the element.
strip_behind :
    (alpha rest : Bytes) (a b c d e f : ℕ)
    → length alpha ≡ 32
    → 0 < length rest
    → strip_packet (a ∷ b ∷ c ∷ d ∷ (alpha ++ (e ∷ f ∷ rest))) ≡ rest
unfolding strip_packet
strip_behind alpha rest a b c d e f h more =
    ground (arith, length-append alpha (e ∷ f ∷ rest), drop-append_add alpha (e ∷ f ∷ rest) 32 2)

module _ (lib : Library) (law : IsLawful lib) (proto : IsProtobuf lib) where
  Delivered-bytes :
      (final message : Bytes)
      → Delivered lib law final message
      → (alpha : Bytes) × (length alpha ≡ 32)
        × (lib.sphinx_packet.marshal
              (record { hdr = some (record { alpha = alpha; beta = []; mac = [] }); pld = message })
            ≡ ok final)
  Delivered-bytes final message (hdr, read, made, a32, no_beta, no_mac) = (
    hdr.alpha,
    a32,
    sym (
          ap₂
            (λ b m. lib.sphinx_packet.marshal (record {
              hdr = some (record { alpha = hdr.alpha; beta = b; mac = m });
              pld = message;
            }))
            no_beta no_mac)
        ∙ made,
  )

  -- From what the last node leaves of a message of 1 to 127 bytes the client takes the message.
  pub strip_packet-short :
      (final message : Bytes)
      → Delivered lib law final message
      → 0 < length message
      → length message < 128
      → strip_packet final ≡ message
  strip_packet-short final message d some_bytes short =
      let (alpha, a32, made) = Delivered-bytes final message d in
      let same = sym (proto.one_digit alpha message a32 some_bytes short) ∙ made in
      let bytes_eq : final ≡ 10 ∷ 34 ∷ 10 ∷ 32 ∷ (alpha ++ (18 ∷ length message ∷ message)) = cc in
      rw bytes_eq (strip_behind alpha message 10 34 10 32 18 (length message) a32 some_bytes)

  -- From what the last node leaves of a message of 128 to 16383 bytes the client takes the message
  -- with one byte too many in front: the second digit of the payload's length.
  strip_packet-long :
      (final message : Bytes)
      → Delivered lib law final message
      → 128 ≤ length message
      → length message < 16384
      → strip_packet final ≡ (length message / 128) ∷ message
  strip_packet-long final message d long fits =
      let (alpha, a32, made) = Delivered-bytes final message d in
      let n = length message in
      let same = sym (proto.two_digits alpha message a32 long fits) ∙ made in
      let bytes_eq : final
          ≡ 10 ∷ 34 ∷ 10 ∷ 32 ∷ (alpha ++ (18 ∷ (n % 128 + 128) ∷ (n / 128) ∷ message)) =
        cc in
      rw bytes_eq
        (strip_behind alpha ((n / 128) ∷ message) 10 34 10 32 18 (n % 128 + 128) a32 (omega arith))

  -- From what the last node leaves of a message of 1 to 16383 bytes the client takes the message
  -- where that has at most 127 bytes, and otherwise the message with the second digit of its length
  -- in front.
  pub strip_packet_digits :
      (final message : Bytes)
      → Delivered lib law final message
      → 0 < length message
      → length message < 16384
      → strip_packet final
        ≡ (if ltb (length message) 128 then message else (length message / 128) ∷ message)
  strip_packet_digits final message d some_bytes fits =
      elim (Bool-cases (ltb (length message) 128)) [
        | inl short ↦ rw short (strip_packet-short final message d some_bytes (ground arith))
        | inr long ↦ rw long (strip_packet-long final message d (ground arith) fits)
      ]
