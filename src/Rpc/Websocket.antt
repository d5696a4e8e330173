-- ===== src/Rpc/Websocket.antt =====
-- client/rpc/websocket/websocket_server.go: requests on a websocket; and client/rpc/server.go,
-- which picks a server.
pub mod Agreement
pub mod Lifecycle
use loopix_messaging.Prelude.{
  ℕ, suc, List, [], ◌∷◌, Bool, true, false, not, ◌&&◌, ◌==◌, Option, none, some, Bytes, bytes,
  Error, Result, ok, err, panic, ◌>>=◌, deref, library, unknown_server_type, invalid_request_type,
  if◌then◌else◌, equal, ltb, length,
}
use loopix_messaging.Messages.{Codec}
use loopix_messaging.Rpc.Requests.{
  Request, send, fetch, clients, details, flush, unset, Response, Moment, Served, Setting,
  invalid_request, handle_send_message, handle_fetch_messages, handle_get_clients,
  handle_own_details,
}
use loopix_messaging.Rpc.Tcp.{Ending, running, closed, crashed}

abbrev pub text_message : ℕ
text_message = 1

abbrev pub binary_message : ℕ
binary_message = 2

abbrev pub max_message_size : ℕ
max_message_size = 2048

-- What `ReadMessage` gives of what comes, under the limit that `SetReadLimit` has set: a longer
-- message is an error.
unfoldable pub read_message : ℕ → Result (ℕ × Bytes) → Result (ℕ × Bytes)
read_message limit (ok (typ, message)) =
    if ltb limit (length message) then err (library 4) else ok (typ, message)
read_message limit (err e) = err e
read_message limit panic = panic

-- What a connection leaves: the replies that were written, in their order.
pub record Session : Type 0 where
  pub replies : List (ℕ × Bytes)
  pub served : Served
  pub ending : Ending

-- The kinds of listener that there are.
pub data SocketListener : Type 0 where
  tcp websocket : SocketListener

unfoldable pub new_socket_listener : Bytes → Result SocketListener
new_socket_listener typ =
    if equal typ (bytes "tcp")
    then ok tcp
    else if equal typ (bytes "grpc")
    then panic
    else if equal typ (bytes "websocket")
    then ok websocket
    else err unknown_server_type

-- What `net/http` and `net` tell of a request: its address taken apart, and whether an address is a
-- loopback one.
unfoldable pub check_origin : (Bytes → Result (Bytes × Bytes)) → (Bytes → Bool) → Bytes → Bool
check_origin split_host_port is_loopback remote_addr = elim (split_host_port remote_addr) [
  | ok (ip, port) ↦ is_loopback ip
  | _ ↦ false
]

-- The status of the answer to a request for a page.
unfoldable pub serve_home : Bytes → Bytes → ℕ
serve_home path method =
    if not (equal path (bytes "/"))
    then 404
    else if not (equal method (bytes "GET"))
    then 405
    else 200

module _ (g : Setting) where
  unfoldable pub handle_request : Moment → Request → Served → Option Response × Served
  unfolding handle_send_message handle_fetch_messages handle_get_clients
  handle_request env (send request) s = handle_send_message g env request s
  handle_request env fetch s = let (response, s') = handle_fetch_messages g s in (some response, s')
  handle_request env clients s =
      let (response, s') = handle_get_clients g env s in (some response, s')
  handle_request env details s = (some (handle_own_details g s), s)
  handle_request env _ s = (some invalid_request, s)

  -- The protobuf codecs, and those of their JSON form.
  module _ (requests json_requests : Codec Request)
      (responses json_responses : Codec Response) where
    -- Where there is an error, the type of the message is not used.
    unfoldable pub handle_binary_mix_request : Moment → Bytes → Served → Result (ℕ × Bytes) × Served
    unfolding handle_request
    handle_binary_mix_request env msg s = elim (requests.unmarshal msg) [
      | ok req ↦
          let (res, s') = handle_request env req s in
          (do r ← deref res; b ← responses.marshal r; ok (binary_message, b), s')
      | err e ↦ (err e, s)
      | panic ↦ (panic, s)
    ]

    unfoldable pub handle_text_mix_request : Moment → Bytes → Served → Result (ℕ × Bytes) × Served
    unfolding handle_request
    handle_text_mix_request env msg s = elim (json_requests.unmarshal msg) [
      | ok req ↦
          let (res, s') = handle_request env req s in
          (do r ← deref res; b ← json_responses.marshal r; ok (text_message, b), s')
      | err e ↦ (err e, s)
      | panic ↦ (panic, s)
    ]

    unfoldable pub handle_mix_request : Moment → ℕ → Bytes → Served → Result (ℕ × Bytes) × Served
    unfolding handle_binary_mix_request handle_text_mix_request
    handle_mix_request env req_typ req s =
        if req_typ == binary_message
        then handle_binary_mix_request env req s
        else if req_typ == text_message
        then handle_text_mix_request env req s
        else (err invalid_request_type, s)

    -- The loop of `serveMixClient` from round `i` on, under a limit on the messages that are read:
    -- `comes` is what comes on the connection in turn, and `writes i` what `WriteMessage` gives.
    module _ (limit : ℕ) (moments : ℕ → Moment) (writes : ℕ → Result (Unit {0})) where
      unfoldable pub serve_mix_client : ℕ → List (Result (ℕ × Bytes)) → Served → Session
      unfolding handle_mix_request read_message
      serve_mix_client i [] s = record { replies = []; served = s; ending = running }
      serve_mix_client i (come ∷ comes) s = elim (read_message limit come) [
        | err e ↦ record { replies = []; served = s; ending = closed e }
        | panic ↦ record { replies = []; served = s; ending = crashed }
        | ok (req_typ, req) ↦
            let (res, s') = handle_mix_request (moments i) req_typ req s in
            let session = serve_mix_client (suc i) comes s' in
            elim res [
              | ok reply ↦ elim (writes i) [
                | ok written ↦ record session { replies = reply ∷ session.replies }
                | err e ↦ record { replies = []; served = s'; ending = closed e }
                | panic ↦ record { replies = []; served = s'; ending = crashed }
              ]
              | err e ↦ record { replies = []; served = s'; ending = closed e }
              | panic ↦ record { replies = []; served = s'; ending = crashed }
            ]
      ]
