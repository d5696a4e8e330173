-- ===== src/Rpc/Framing.antt =====
-- The round trip of a message on a stream (client/rpc/utils/utils.go).
use mathlib.Core.List.{foldl-append}
use loopix_messaging.Prelude.{
  Result, List, ℕ, zero, suc, ◌+◌, ◌*◌, ◌/◌, ◌%◌, ◌^◌, ◌≤◌, ◌<◌, ◌≡◌, refl, sym, ap, ◌∙◌, [], ◌∷◌,
  ◌++◌, Bytes, ok, ◌>>=◌, length, take, drop, ltb, arith, length-append, take-append, drop-append,
  take_all, copy_to, copy_to-length, false, append_assoc,
}
use loopix_messaging.Messages.{Codec, ReadsBack}
use loopix_messaging.Rpc.{
  Reader, buffered, bare, left, max_request_size, big_endian, from_big_endian,
  encode_big_endian_len, encode_byte_slice, write_proto_message, read_proto_message,
}

abbrev limit : ℕ → ℕ
limit zero = 1
limit (suc n) = limit n * 256

from_big_endian-big_endian : (n i : ℕ) → i < limit n → from_big_endian (big_endian n i) ≡ i
from_big_endian-big_endian zero i h = omega arith
from_big_endian-big_endian (suc n) i h =
    let front = from_big_endian-big_endian n (i / 256) (omega arith) in
    foldl-append (λ acc x. acc * 256 + x) 0 (big_endian n (i / 256)) ((i % 256) ∷ [])
    ∙ (ap (λ v. v * 256 + i % 256) front ∙ omega arith)

length-big_endian : (n i : ℕ) → length (big_endian n i) ≡ n
length-big_endian zero i = refl
length-big_endian (suc n) i =
    omega (
      arith,
      length-append (big_endian n (i / 256)) ((i % 256) ∷ []),
      length-big_endian n (i / 256),
    )

pub length-encode_big_endian_len : (i : ℕ) → length (encode_big_endian_len i) ≡ 8
unfolding encode_big_endian_len
length-encode_big_endian_len i = length-big_endian 8 (i % 2 ^ 64)

from_big_endian-encode :
    (i : ℕ) → i ≤ max_request_size → from_big_endian (encode_big_endian_len i) ≡ i
unfolding encode_big_endian_len
from_big_endian-encode i h = from_big_endian-big_endian 8 (i % 2 ^ 64) (omega arith) ∙ omega arith

-- Messages one after the other, each behind its length.
abbrev pub write_all : {M : Type 0} → Codec M → List M → Result Bytes
write_all d [] = ok []
write_all d (m ∷ ms) = do first ← write_proto_message d m; rest ← write_all d ms; ok (first ++ rest)

abbrev pub Fits : {M : Type 0} → Codec M → M → Type 0
Fits d m = (b : Bytes) × (d.marshal m ≡ ok b) × (length b ≤ max_request_size)

module _ {M : Type 0} (c : Codec M) (as_read : M → M) (law : ReadsBack as_read c) where
  read_framed :
      (reader : Reader) (chunk : ℕ) (msg : M) (head b rest : Bytes)
      → 8 ≤ chunk
      → length head ≡ 8
      → from_big_endian head ≡ length b
      → length b ≤ max_request_size
      → c.marshal msg ≡ ok b
      → read_proto_message c reader chunk (head ++ (b ++ rest))
        ≡ ok (as_read msg, left reader (length b) rest)
  unfolding read_proto_message
  read_framed reader chunk msg [] b rest h h8 hv hb made = absurd (omega arith)
  read_framed reader chunk msg (x ∷ head) b rest h h8 hv hb made =
      let first : take 8 ((x ∷ head) ++ (b ++ rest)) ≡ x ∷ head =
        ap (λ n. take n ((x ∷ head) ++ (b ++ rest))) (sym h8)
        ∙ take-append (x ∷ head) (b ++ rest) in
      let all : take chunk (x ∷ head) ≡ x ∷ head = take_all chunk (x ∷ head) (omega arith) in
      let behind : drop (length (x ∷ head)) ((x ∷ head) ++ (b ++ rest)) ≡ b ++ rest =
        drop-append (x ∷ head) (b ++ rest) in
      let short : ltb max_request_size (length b) ≡ false = ground arith in
      let enough : ltb (length (b ++ rest)) (length b) ≡ false =
        ground (arith, length-append b rest) in
      rw
        (
          read_proto_message,
          first,
          all,
          copy_to-length 8 (x ∷ head) h8,
          hv,
          behind,
          short,
          enough,
          take-append b rest,
          law msg b made,
          drop-append b rest,
        )
        refl

  -- A message of at most 1 MB that is written to a stream is read back, where one `Read` gives the
  -- whole length, as the codec reads back what it marshals. A `*bufio.Reader` is left with what
  -- follows; of another reader the buffer that is thrown away has taken the front of what follows,
  -- unless the message has no bytes.
  pub read_proto_message-write_proto_message :
      (reader : Reader) (chunk : ℕ) (msg : M) (b rest : Bytes)
      → 8 ≤ chunk
      → c.marshal msg ≡ ok b
      → length b ≤ max_request_size
      → (written : Bytes) × (write_proto_message c msg ≡ ok written)
        × (read_proto_message c reader chunk (written ++ rest)
            ≡ ok (as_read msg, left reader (length b) rest))
  unfolding write_proto_message encode_byte_slice
  read_proto_message-write_proto_message reader chunk msg b rest h made fits =
      let head = encode_big_endian_len (length b) in
      (
        head ++ b,
        rw made refl,
        rw (append_assoc head b rest) (
            read_framed reader chunk msg head b rest h (length-encode_big_endian_len (length b))
              (from_big_endian-encode (length b) fits) fits made),
      )

  ltb_zero : (n : ℕ) → ltb n 0 ≡ false
  ltb_zero n = ground arith

  half_length :
      (i : ℕ)
      → i ≤ max_request_size
      → from_big_endian (copy_to 8 (take 4 (encode_big_endian_len i))) ≡ 0
  unfolding copy_to encode_big_endian_len
  half_length i h = omega arith

  left_zero : (reader : Reader) (rest : Bytes) → left reader 0 rest ≡ rest
  left_zero buffered rest = refl
  left_zero (bare extra) rest = refl

  -- Where the first `Read` gives only four bytes of the length, the message is read as one of no
  -- bytes, and the reader is left in the middle of the length.
  pub read_proto_message-half_length :
      (reader : Reader) (msg : M) (b rest : Bytes)
      → c.marshal msg ≡ ok b
      → length b ≤ max_request_size
      → (written : Bytes) × (write_proto_message c msg ≡ ok written)
        × (read_proto_message c reader 4 (written ++ rest)
            ≡ (c.unmarshal [] >>= λ m. ok (m, drop 4 (written ++ rest))))
  unfolding write_proto_message encode_byte_slice read_proto_message
  read_proto_message-half_length reader msg b rest made fits =
      let head = encode_big_endian_len (length b) in
      (head ++ b, rw made refl, rw (half_length (length b) fits, ltb_zero, left_zero) refl)
