-- ===== src/Examples/Toy.antt =====
-- A cryptographic library that keeps the documented laws, with small keys.
use loopix_messaging.Prelude.{
  ℕ, zero, suc, ◌+◌, ◌%◌, ◌≤◌, ◌<◌, ◌≡◌, refl, ap, [], ◌∷◌, ◌++◌, true, false, Bytes, Result, ok,
  err, length, replicate, ◌==◌, ==_iff, arith, library, ltb, if◌then◌else◌, copy_to, length-copy_to,
  Option, none, some,
}
use loopix_messaging.Sphinx.Library.{Block, Library, IsLawful}
use loopix_messaging.Client.Stripping.{IsProtobuf}
use loopix_messaging.Wire.{Wire, IsWire}
use loopix_messaging.Helpers.{Random, IsRandom}
use loopix_messaging.Topology.{Encoding}
use loopix_messaging.Examples.Codecs.{
  toy_general_packet, toy_general_packet-IsCodec, toy_provider_response,
  toy_provider_response-IsCodec, toy_pull_request, toy_pull_request-IsCodec, toy_client_config,
  toy_routing_info, toy_routing_info-IsCodec,
}
use loopix_messaging.Examples.Packets.{
  toy_sphinx_packet, toy_sphinx_packet-IsCodec, is_plain-header,
}

-- An array of 32 bytes, of which the first counts.
abbrev pub point : ℕ → Bytes
point n = (n % 256) ∷ replicate 31 0

abbrev first : Bytes → ℕ
first [] = 0
first (x ∷ xs) = x

abbrev toy_cipher : Bytes → Result Block
toy_cipher key =
    if length key == 16
    then ok (record { key_stream = λ iv i. (i + first key) % 256 })
    else err (library 2)

abbrev pub toy_library : Library
toy_library = record {
  sha256 = copy_to 32;
  hmac_sha256 = λ key message. copy_to 32 (key ++ message);
  new_cipher = toy_cipher;
  scalar_mult = λ a p. point (first a + first p);
  scalar_base_mult = λ a. point (first a);
  valid_utf8 = λ s. true;
  routing_info = toy_routing_info;
  sphinx_packet = toy_sphinx_packet;
}

pub toy_library-IsLawful : IsLawful toy_library
toy_library-IsLawful = record {
  length-sha256 = length-copy_to 32;
  new_cipher_total = cipher;
  length-scalar_mult = λ a p. refl;
  length-scalar_base_mult = λ a. refl;
  scalar_mult_comm = λ a b p. ap (λ n. n ∷ replicate 31 0) (omega arith);
  scalar_mult_base = λ a b. ap (λ n. n ∷ replicate 31 0) (omega arith);
  routing_info_codec = toy_routing_info-IsCodec;
  sphinx_packet_codec = toy_sphinx_packet-IsCodec;
}
  where
    cipher : (k : Bytes) → length k ≡ 16 → (b : Block) × (toy_cipher k ≡ ok b)
    cipher k h =
        (record { key_stream = λ iv i. (i + first k) % 256 }, rw ((==_iff (length k) 16).1 h) refl)

pub toy_library-IsProtobuf : IsProtobuf toy_library
toy_library-IsProtobuf = record {
  one_digit = λ alpha pld a32 more short.
      rw (is_plain-header alpha pld a32 more (omega arith), ltb_short alpha pld short) refl;
  two_digits = λ alpha pld a32 long fits.
      rw (is_plain-header alpha pld a32 (omega arith) fits, ltb_long alpha pld long) refl;
}
  where
    ltb_short : (alpha pld : Bytes) → length pld < 128 → ltb (length pld) 128 ≡ true
    ltb_short alpha pld h = ground arith

    ltb_long : (alpha pld : Bytes) → 128 ≤ length pld → ltb (length pld) 128 ≡ false
    ltb_long alpha pld h = ground arith

abbrev pub toy_wire : Wire
toy_wire = record {
  general_packet = toy_general_packet;
  provider_response = toy_provider_response;
  pull_request = toy_pull_request;
  client_config = toy_client_config;
}

pub toy_wire-IsWire : IsWire toy_wire
toy_wire-IsWire = record {
  general_packet_codec = toy_general_packet-IsCodec;
  provider_response_codec = toy_provider_response-IsCodec;
  pull_request_codec = toy_pull_request-IsCodec;
}

-- Draws that run through the bound, and floats that are read as numbers.
abbrev draw : ℕ → ℕ → ℕ
draw i zero = 0
draw i (suc n) = i % suc n

abbrev pub toy_random : Random
toy_random = record {
  intn = draw;
  exp_float64 = λ i. i;
  le_zero = λ x. x == 0;
  divide = λ x y. x;
  five = 5;
}

pub toy_random-IsRandom : IsRandom toy_random
toy_random-IsRandom = record { intn-lt = below; five_positive = refl }
  where
    below : (i n : ℕ) → 0 < n → draw i n < n
    below i zero h = absurd (omega arith)
    below i (suc n) h = omega arith

-- Addresses are split at the first colon.
abbrev split : Bytes → Option (Bytes × Bytes)
split [] = none
split (x ∷ xs) =
    let rest = split xs in
    if x == 58 then some ([], xs) else elim rest [ none ↦ none | some p ↦ some (x ∷ p.0, p.1) ]

abbrev pub toy_encoding : Encoding
toy_encoding = record {
  encode = λ b. b;
  decode = λ b. some b;
  split_host_port = split;
  join_host_port = λ h p. h ++ (58 ∷ p);
}
