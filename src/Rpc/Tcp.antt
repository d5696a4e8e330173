-- ===== src/Rpc/Tcp.antt =====
-- client/rpc/tcpsocket/tcpsocket_server.go: requests on a TCP connection, each behind its length.
pub mod Connections
pub mod Serving
pub mod Answers
use loopix_messaging.Prelude.{
  ℕ, zero, suc, ◌+◌, ◌%◌, ◌^◌, List, [], ◌∷◌, ◌++◌, Option, none, some, Bytes, Error, Result, ok,
  err, panic, ◌>>=◌, ◌>>◌, take, drop, Bool, false, if◌then◌else◌, connection_does_not_exist, true,
}
use loopix_messaging.Prelude.Maps.{Map, nat_key, lookup, insert, remove}
use loopix_messaging.Messages.{Codec}
use loopix_messaging.Client.{NetClient, shutdown}
use loopix_messaging.Rpc.{buffered, read_proto_message, write_proto_message}
use loopix_messaging.Rpc.Requests.{
  Request, send, fetch, clients, details, flush, unset, Response, flushed, Moment, Served, Setting,
  invalid_request, handle_send_message, handle_fetch_messages, handle_get_clients,
  handle_own_details, handle_flush,
}

-- How the goroutine that reads requests stands: it goes on, it has sent an error to `closeConn`,
-- or it has panicked.
pub data Ending : Type 0 where
  running : Ending
  closed : Error → Ending
  crashed : Ending

-- What the reading of requests leaves: the responses in the order of the channel.
pub record Session : Type 0 where
  pub responses : List Response
  pub served : Served
  pub ending : Ending

module _ (g : Setting) where
  unfoldable pub handle_request : Moment → Request → Served → Option Response × Served
  unfolding handle_send_message handle_fetch_messages handle_get_clients
  handle_request env (send request) s = handle_send_message g env request s
  handle_request env fetch s = let (response, s') = handle_fetch_messages g s in (some response, s')
  handle_request env clients s =
      let (response, s') = handle_get_clients g env s in (some response, s')
  handle_request env details s = (some (handle_own_details g s), s)
  handle_request env flush s = (some (handle_flush g), s)
  handle_request env unset s = (some invalid_request, s)

  module _ (c : Codec Request) (moments : ℕ → Moment) (chunks : ℕ → ℕ) where
    -- The loop from round `i` on, over the bytes that the connection still gives, for at most as
    -- many rounds as the fuel. `chunks i` is how much the `Read` of round `i` gives for the length.
    unfoldable pub handle_requests : ℕ → ℕ → Bytes → Served → Session
    handle_requests zero i stream s = record { responses = []; served = s; ending = running }
    handle_requests (suc fuel) i stream s = elim (read_proto_message c buffered (chunks i) stream) [
      | ok (req, rest) ↦
          let (response, s') = handle_request (moments i) req s in
          elim response [
            | none ↦ record { responses = []; served = s'; ending = crashed }
            | some answer ↦
                let session = handle_requests fuel (suc i) rest s' in
                record session { responses = answer ∷ session.responses }
          ]
      | err e ↦ record { responses = []; served = s; ending = closed e }
      | panic ↦ record { responses = []; served = s; ending = crashed }
    ]

-- A `bufio.Writer` on a connection: what it has written, and what it holds.
pub record Writer : Type 0 where
  pub written : Bytes
  pub pending : Bytes

-- `spill` says how many of the bytes that it holds it writes by itself, which it does when its
-- buffer is full.
unfoldable pub write : (Bytes → ℕ) → Bytes → Writer → Writer
write spill b w =
    let held = w.pending ++ b in
    record { written = w.written ++ take (spill held) held; pending = drop (spill held) held }

unfoldable pub flush_writer : Writer → Writer
flush_writer w = record { written = w.written ++ w.pending; pending = [] }

unfoldable pub after_response : Response → Writer → Writer
unfolding flush_writer
after_response flushed w = flush_writer w
after_response _ w = w

-- What goes to the connection, where there is something; `conn` is what writing to it gives.
abbrev pub put : (Bytes → Result (Unit {0})) → Bytes → Result (Unit {0})
put conn [] = ok tt
put conn (x ∷ b) = conn (x ∷ b)

-- The call of `Flush` after a response.
abbrev pub flush_after : (Bytes → Result (Unit {0})) → Response → Writer → Result (Unit {0})
flush_after conn flushed w = put conn w.pending
flush_after conn _ w = ok tt

module _ (c : Codec Response) (conn : Bytes → Result (Unit {0})) (spill : Bytes → ℕ) where
  -- The loop over the responses of the channel; the first error of a write ends it.
  unfoldable pub handle_responses : List Response → Writer → Result Writer
  handle_responses [] w = ok w
  handle_responses (resp ∷ rest) w = do
    b ← write_proto_message c resp
    put conn (take (spill (w.pending ++ b)) (w.pending ++ b))
    flush_after conn resp (write spill b w)
    handle_responses rest (after_response resp (write spill b w))

-- The counter is of type `int`, of 64 bits; it is shown as its bit pattern.
pub record SocketServer (Conn : Type 0) : Type 0 where
  pub conns : Map ℕ Conn
  pub next_conn_id : ℕ
  pub client : NetClient
  -- whether `haltOnce` was used
  pub halted : Bool

-- What `Accept` gives: a connection, an error after which the loop goes on, or an error of the
-- network that is not temporary.
pub data Accepted (Conn : Type 0) : Type 0 where
  accepted : Conn → Accepted Conn
  temporary critical : Accepted Conn

module _ {Conn : Type 0} where
  unfoldable pub new_socket_server : NetClient → SocketServer Conn
  new_socket_server c = record { conns = []; next_conn_id = 0; client = c; halted = false }

  unfoldable pub add_conn : Conn → SocketServer Conn → ℕ × SocketServer Conn
  add_conn conn s = (
    s.next_conn_id,
    record s {
      next_conn_id = (s.next_conn_id + 1) % 2 ^ 64;
      conns = insert s.next_conn_id conn s.conns;
    },
  )

  -- `close` is what the connection's `Close` gives; the connection is forgotten even where that is
  -- an error.
  unfoldable pub rm_conn :
      (Conn → Result (Unit {0})) → ℕ → SocketServer Conn → Result (Unit {0}) × SocketServer Conn
  rm_conn close conn_id s = elim (lookup conn_id s.conns) [
    | none ↦ (err connection_does_not_exist, s)
    | some conn ↦ (close conn, record s { conns = remove conn_id s.conns })
  ]

  unfoldable pub halt : SocketServer Conn → SocketServer Conn
  halt s = record s { conns = []; client = shutdown s.client; halted = true }

  unfoldable pub shutdown_server : SocketServer Conn → SocketServer Conn
  unfolding halt
  shutdown_server s = if s.halted then s else halt s

  -- The loop over what `Accept` gives, with the ids handed out.
  unfoldable pub accept_connections :
      List (Accepted Conn) → SocketServer Conn → List ℕ × SocketServer Conn
  unfolding add_conn
  accept_connections [] s = ([], s)
  accept_connections (accepted conn ∷ rest) s =
      let (conn_id, s') = add_conn conn s in
      let (ids, t) = accept_connections rest s' in (conn_id ∷ ids, t)
  accept_connections (temporary ∷ rest) s = accept_connections rest s
  accept_connections (critical ∷ rest) s = ([], s)
