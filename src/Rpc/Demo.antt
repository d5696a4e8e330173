-- ===== src/Rpc/Demo.antt =====
-- client/rpc/client/main.go: a program that drives a client over TCP.
pub mod Exchange
pub mod Outcome
use loopix_messaging.Prelude.{
  ℕ, zero, suc, ◌+◌, ◌%◌, ◌^◌, List, [], ◌∷◌, ◌++◌, some, Bytes, bytes, Result, ok, err, panic,
  ◌>>=◌, ◌>>◌, index, length, library, must,
}
use loopix_messaging.Messages.{Codec, ClientConfig}
use loopix_messaging.Rpc.{bare, big_endian, write_proto_message, read_proto_message}
use loopix_messaging.Rpc.Requests.{
  Request, send, fetch, details, flush, Response, fetched, own_details, Moment, Served, Setting,
}
use loopix_messaging.Rpc.Tcp.{
  Ending, running, closed, crashed, Writer, handle_requests, handle_responses,
}

-- A connection to the TCP server, with the server at its other end: what was written to it and the
-- server has not read, what the server has written and was not read, and the server's state.
pub record Link : Type 0 where
  pub outgoing : Bytes
  pub incoming : Bytes
  pub writer : Writer
  pub served : Served
  pub round : ℕ

-- The server waits at the end of what was written; otherwise the connection is closed.
abbrev pub still_open : Ending → Result (Unit {0})
still_open running = ok tt
still_open (closed (library zero)) = ok tt
still_open (closed e) = err e
still_open crashed = err (library 2)

-- The type assertions on the value of a response.
abbrev pub details_of : Response → Result ClientConfig
details_of (own_details d) = ok d
details_of _ = panic

abbrev pub messages_of : Response → Result (List Bytes)
messages_of (fetched messages) = ok messages
messages_of _ = panic

-- The program's own copy of the writing of messages.
unfoldable pub encode_big_endian_len : ℕ → Bytes
encode_big_endian_len i = big_endian 8 (i % 2 ^ 64)

unfoldable pub encode_byte_slice : Bytes → Bytes
unfolding encode_big_endian_len
encode_byte_slice bz = encode_big_endian_len (length bz) ++ bz

unfoldable pub write_own_proto_message : Codec Request → Request → Result Bytes
unfolding encode_byte_slice
write_own_proto_message c msg = do b ← c.marshal msg; ok (encode_byte_slice b)

-- What is written to a connection, or a panic.
abbrev pub write_frame : Result Bytes → Link → Result Link
write_frame frame l = do b ← must frame; ok (record l { outgoing = l.outgoing ++ b })

module _ (g : Setting) (requests : Codec Request) (responses : Codec Response)
    (moments : ℕ → Moment) (spill : Bytes → ℕ) (swallows : ℕ → ℕ) where
  -- What the server does with all that was written, while the program waits for a response.
  unfoldable pub serve : Link → Result Link
  serve l =
      let session =
        handle_requests g requests moments (λ i. 8) (suc (length l.outgoing)) l.round l.outgoing
          l.served in
      do
        still_open session.ending
        w ← handle_responses responses (λ b. ok tt) spill session.responses l.writer
        ok (record {
          outgoing = [];
          incoming = l.incoming ++ w.written;
          writer = record { written = []; pending = w.pending };
          served = session.served;
          round = l.round + length session.responses;
        })

  -- The connection is not a `*bufio.Reader`, so the buffer that `ReadProtoMessage` makes for the
  -- response is thrown away with what it has taken of the bytes behind it, `swallows` of them.
  unfoldable pub read_response : Link → Result (Response × Link)
  read_response l = do
    l' ← must (serve l)
    (res, rest) ← must (read_proto_message responses (bare (swallows l'.round)) 8 l'.incoming)
    ok (res, record l' { incoming = rest })

  -- A request, a request to flush, and the reading of one response.
  abbrev pub ask : Result Bytes → Link → Result (Response × Link)
  ask frame l = do
    l1 ← write_frame frame l
    l2 ← write_frame (write_proto_message requests flush) l1
    read_response l2

  unfoldable pub get_own_details : Link → Result (ClientConfig × Link)
  get_own_details l = do
    (res, l') ← ask (write_proto_message requests details) l
    d ← details_of res
    ok (d, l')

  unfoldable pub send_message : Bytes → ClientConfig → Link → Result Link
  send_message msg recipient l = do
    let request = send (some (record { message = some msg; recipient = some recipient }))
    (res, l') ← ask (write_proto_message requests request) l
    ok l'

  unfoldable pub fetch_messages : Link → Result (List Bytes × Link)
  fetch_messages l = do
    (res, l') ← ask (write_own_proto_message requests fetch) l
    messages ← messages_of res
    ok (messages, l')

  -- `main` on what `net.Dial` gives: the messages that it prints, and the first of them.
  unfoldable pub main : Result Link → Result (List Bytes × Bytes)
  main dial = do
    l ← must dial
    (my_details, l1) ← get_own_details l
    l2 ← send_message (bytes "foomp") my_details l1
    (messages, l3) ← fetch_messages l2
    first ← index messages 0
    ok (messages, first)
