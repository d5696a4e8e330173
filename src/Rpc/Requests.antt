-- ===== src/Rpc/Requests.antt =====
-- client/rpc/types and client/rpc/requesthandler/requesthandler.go: requests to a client, and their
-- responses.
use loopix_messaging.Prelude.{
  ℕ, List, [], ◌∷◌, ◌++◌, Option, none, some, Bytes, bytes, Error, Result, ok, err, panic,
}
use loopix_messaging.Messages.{ClientConfig}
use loopix_messaging.Helpers.{Random}
use loopix_messaging.Topology.{Encoding, TopologyData}
use loopix_messaging.Sphinx.Library.{Library}
use loopix_messaging.Wire.{Wire}
use loopix_messaging.Client.{
  NetClient, get_received_messages, get_all_possible_recipients, send_message,
}

-- A field that is not set is nil, a byte slice included.
pub record SendRequest : Type 0 where
  pub message : Option Bytes
  pub recipient : Option ClientConfig

-- The `oneof` of a request. `unset` is a request of no kind, or of one that is not known.
pub data Request : Type 0 where
  send : Option SendRequest → Request
  fetch clients details flush unset : Request

-- A request as protobuf reads it back: an empty byte slice is not on the wire, and so it comes back
-- as nil.
abbrev pub non_empty : Option Bytes → Option Bytes
non_empty (some []) = none
non_empty message = message

abbrev pub received : Request → Request
received (send (some request)) =
    send (some (record request { message = non_empty request.message }))
received req = req

pub data Response : Type 0 where
  exception : Bytes → Response
  sent : Response
  fetched : List Bytes → Response
  recipients : List ClientConfig → Response
  own_details : ClientConfig → Response
  flushed : Response

-- What the outside gives while a request is handled: the clock, the directory server's answer,
-- random draws, and the random bytes of a packet.
pub record Moment : Type 0 where
  pub now : ℕ
  pub topology : Result TopologyData
  pub random : Random
  pub read : Result Bytes

-- A client that serves requests, with the packets that were handed to its outgoing queue.
pub record Served : Type 0 where
  pub client : NetClient
  pub queued : List Bytes

abbrev pub invalid_request : Response
invalid_request = exception (bytes "Invalid server request")

-- What a client depends on; `text` is what `Error` gives for an error.
pub record Setting : Type 0 where
  pub encoding : Encoding
  pub library : Library
  pub wire : Wire
  pub text : Error → Bytes

module _ (g : Setting) where
  -- No response stands for a panic. Where a field is missing nothing is done, and the response is
  -- the one of success.
  unfoldable pub handle_send_message :
      Moment → Option SendRequest → Served → Option Response × Served
  handle_send_message env none s = (some sent, s)
  handle_send_message env (some request) s = elim request.message [
    | none ↦ (some sent, s)
    | some message ↦ elim request.recipient [
      | none ↦ (some sent, s)
      | some recipient ↦
          let (packet, c) =
            send_message g.library g.wire env.random g.encoding env.now env.topology env.read
              s.client message recipient in
          elim packet [
            | ok p ↦ (some sent, record { client = c; queued = s.queued ++ (p ∷ []) })
            | err e ↦ (some (exception (g.text e)), record s { client = c })
            | panic ↦ (none, record s { client = c })
          ]
    ]
  ]

  unfoldable pub handle_fetch_messages : Served → Response × Served
  handle_fetch_messages s =
      let (messages, c) = get_received_messages s.client in
      (fetched messages, record s { client = c })

  unfoldable pub handle_get_clients : Moment → Served → Response × Served
  handle_get_clients env s =
      let (found, c) = get_all_possible_recipients g.encoding env.now env.topology s.client in
      (recipients found, record s { client = c })

  abbrev pub handle_own_details : Served → Response
  handle_own_details s = own_details s.client.config

  abbrev pub handle_flush : Response
  handle_flush = flushed
