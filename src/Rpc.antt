-- ===== src/Rpc.antt =====
-- client/rpc/utils/utils.go: messages on a stream, each behind its length.
pub mod Framing
pub mod Requests
pub mod Tcp
pub mod Websocket
pub mod Demo
use loopix_messaging.Prelude.{
  ℕ, zero, suc, ◌+◌, ◌*◌, ◌/◌, ◌%◌, ◌^◌, List, [], ◌∷◌, ◌++◌, foldl, Bytes, Result, ok, err, ◌>>=◌,
  ◌>>◌, guard, length, take, drop, replicate, ltb, short_buffer, library, not, if◌then◌else◌,
  copy_to,
}
use loopix_messaging.Messages.{Codec}

abbrev pub max_request_size : ℕ
max_request_size = 1048576

-- The last `n` bytes of a number, the most significant first.
abbrev pub big_endian : ℕ → ℕ → Bytes
big_endian zero i = []
big_endian (suc n) i = big_endian n (i / 256) ++ ((i % 256) ∷ [])

-- `binary.BigEndian.Uint64`
abbrev pub from_big_endian : Bytes → ℕ
from_big_endian b = foldl (λ acc x. acc * 256 + x) 0 b

unfoldable pub encode_big_endian_len : ℕ → Bytes
encode_big_endian_len i = big_endian 8 (i % 2 ^ 64)

unfoldable pub encode_byte_slice : Bytes → Bytes
unfolding encode_big_endian_len
encode_byte_slice bz = encode_big_endian_len (length bz) ++ bz

-- A `*bufio.Reader`, or another reader, on which a buffer of its own is made for one message and
-- thrown away with what it has read: at most so many bytes behind the message.
pub data Reader : Type 0 where
  buffered : Reader
  bare : ℕ → Reader

-- What is left of the bytes behind a message of length `len`. For a length of 0 nothing is read.
abbrev pub left : Reader → ℕ → Bytes → Bytes
left buffered len rest = rest
left (bare extra) zero rest = rest
left (bare extra) (suc len) rest = drop extra rest

module _ {M : Type 0} (c : Codec M) where
  -- What is written to the stream; writing does not fail.
  unfoldable pub write_proto_message : M → Result Bytes
  write_proto_message msg = do b ← c.marshal msg; ok (encode_byte_slice b)

  -- The stream is the bytes that are still to come; `chunk` is how many of them the one `Read` for
  -- the length gives, of the 8 that it asks for. What it does not give stays zero.
  unfoldable pub read_proto_message : Reader → ℕ → Bytes → Result (M × Bytes)
  read_proto_message reader chunk [] = err (library 0)
  read_proto_message reader chunk (x ∷ more) = do
    let stream = x ∷ more
    let got = take chunk (take 8 stream)
    let len = from_big_endian (copy_to 8 got)
    let rest = drop (length got) stream
    guard (not (ltb max_request_size len)) short_buffer
    guard (not (ltb (length rest) len)) (library 1)
    msg ← c.unmarshal (take len rest)
    ok (msg, left reader len (drop len rest))
