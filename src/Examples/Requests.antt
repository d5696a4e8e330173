-- ===== src/Examples/Requests.antt =====
-- The theorems on requests to a client, for one that has one message.
use loopix_messaging.Prelude.{
  ℕ, ◌≡◌, ◌≢◌, refl, List, [], ◌∷◌, ◌++◌, none, some, All, Bytes, bytes, ok, err, arith, library,
  length, inl, inr, map, ◌==◌, Bool-cases,
}
use loopix_messaging.Prelude.Maps.{lookup, nat_key}
use loopix_messaging.Messages.{Codec}
use loopix_messaging.Rpc.Framing.{write_all}
use loopix_messaging.Rpc.Requests.{
  Request, received, send, fetch, details, flush, Response, exception, sent, fetched, recipients,
  own_details, flushed, Moment, Served, Setting,
}
use loopix_messaging.Rpc.Tcp
use loopix_messaging.Rpc.Tcp.{
  SocketServer, new_socket_server, add_conn, rm_conn, running, handle_requests, handle_responses,
  Writer,
}
use loopix_messaging.Rpc.Tcp.Connections.{Reach, start, accept, drop_conn, rm_conn-add_conn}
use loopix_messaging.Rpc.Tcp.Serving.{answer_all, handle_requests-ends, handle_requests-write_all}
use loopix_messaging.Rpc.Tcp.Answers.{handle_responses-flushed}
use loopix_messaging.Rpc.Websocket.{
  max_message_size, serve_mix_client, text_message, binary_message,
}
use loopix_messaging.Rpc.Websocket.Agreement.{AreForms, HasForms, serve_mix_client-answer_all}
use loopix_messaging.Examples.Codecs.{pack, client_config_fields}
use loopix_messaging.Examples.Forms.{
  demo_requests, demo_requests-ReadsBack, demo_responses, other_form,
}
use loopix_messaging.Examples.Toy.{toy_library, toy_wire, toy_encoding, toy_random}
use loopix_messaging.Examples.Parties.{bob, bob_config}

abbrev pub setting : Setting
setting = record {
  encoding = toy_encoding;
  library = toy_library;
  wire = toy_wire;
  text = λ e. bytes "error";
}

abbrev pub moments : ℕ → Moment
moments i = record { now = i; topology = err (library 0); random = toy_random; read = ok [] }

abbrev pub served : Served
served = record { client = bob; queued = [] }

abbrev response_bytes : Response → Bytes
response_bytes (exception text) = 1 ∷ text
response_bytes sent = 2 ∷ []
response_bytes (fetched messages) = 3 ∷ pack messages
response_bytes (recipients found) = 4 ∷ length found ∷ []
response_bytes (own_details d) = 5 ∷ d.id
response_bytes flushed = 6 ∷ []

abbrev toy_response : ℕ → Codec Response
toy_response first = record {
  marshal = λ r. ok (first ∷ response_bytes r);
  unmarshal = λ b. err (library 0);
}

handle_requests-ends_example :
    (handle_requests setting demo_requests moments (λ j. 8) 4 0 (1 ∷ 2 ∷ 3 ∷ []) served).ending
    ≢ running
handle_requests-ends_example =
    handle_requests-ends setting demo_requests moments (λ j. 8) 4 0 (1 ∷ 2 ∷ 3 ∷ []) served
      (λ j. omega arith) (omega arith)

-- The first message to send is empty.
abbrev requests : List Request
requests =
    send (some (record { message = some []; recipient = some bob_config }))
    ∷ send (some (record { message = some (bytes "hi"); recipient = some bob_config }))
    ∷ fetch
    ∷ flush
    ∷ []

handle_requests-write_all_example :
    (stream : Bytes) × (write_all demo_requests requests ≡ ok stream)
    × (handle_requests setting demo_requests moments (λ j. 8) 5 0 stream served
        ≡ answer_all setting moments 0 (map received requests) served)
handle_requests-write_all_example =
    handle_requests-write_all setting demo_requests moments (λ j. 8) demo_requests-ReadsBack 5 0
      requests served (λ j. omega arith)
      (
        (_, refl, omega arith),
        ((_, refl, omega arith), ((_, refl, omega arith), ((_, refl, omega arith), tt))),
      )
      (omega arith)

abbrev writer : Writer
writer = record { written = 1 ∷ []; pending = 2 ∷ [] }

handle_responses-flushed_example :
    (frames : Bytes) × (write_all (toy_response 7) (sent ∷ flushed ∷ []) ≡ ok frames)
    × (handle_responses (toy_response 7) (λ b. ok tt) (λ b. 3) (sent ∷ flushed ∷ []) writer
        ≡ ok (record { written = writer.written ++ (writer.pending ++ frames); pending = [] }))
handle_responses-flushed_example =
    handle_responses-flushed (toy_response 7) (λ b. ok tt) (λ b. 3) (sent ∷ []) writer (λ b. refl)
      ((7 ∷ 2 ∷ [], refl, omega arith), tt) (7 ∷ 6 ∷ [], refl, omega arith)

abbrev asked : List (ℕ × Request)
asked =
    (binary_message, send (some (record { message = none; recipient = some bob_config })))
    ∷ (text_message, details)
    ∷ (binary_message, fetch)
    ∷ []

abbrev messages : List (ℕ × Bytes)
messages =
    (binary_message, pack ((6 ∷ []) ∷ [] ∷ (1 ∷ []) ∷ client_config_fields bob_config))
    ∷ (text_message, b'{' ∷ pack ((3 ∷ []) ∷ []))
    ∷ (binary_message, pack ((1 ∷ []) ∷ []))
    ∷ []

HasForms-demo_responses :
    (r : Response)
    → ((b : Bytes) × (demo_responses.marshal r ≡ ok b))
    → HasForms setting demo_requests
        (other_form demo_requests)
        demo_responses
        (other_form demo_responses)
        r
HasForms-demo_responses r (b, made) typ = elim (Bool-cases (typ == text_message)) [
  | inl e ↦ rw (e, made) (b'{' ∷ b, refl)
  | inr e ↦ rw e (b, made)
]

asked-HasForms :
    All
      (HasForms setting demo_requests
        (other_form demo_requests)
        demo_responses
        (other_form demo_responses))
      (answer_all setting moments 0 (map (λ q. q.1) asked) served).responses
unfolding answer_all Tcp.handle_request
asked-HasForms = (
  HasForms-demo_responses _ (_, refl),
  (HasForms-demo_responses _ (_, refl), (HasForms-demo_responses _ (_, refl), tt)),
)

serve_mix_client-answer_all_example :
    let tcp = answer_all setting moments 0 (map (λ q. q.1) asked) served in
    let web =
      serve_mix_client setting demo_requests
        (other_form demo_requests)
        demo_responses
        (other_form demo_responses)
        max_message_size
        moments
        (λ j. ok tt)
        0
        (map ok messages)
        served in
    (web.served ≡ tcp.served)
    × ((answered : List (ℕ × Response)) × (map (λ q. q.1) answered ≡ tcp.responses)
        × AreForms demo_responses (other_form demo_responses) web.replies answered)
serve_mix_client-answer_all_example =
    serve_mix_client-answer_all setting demo_requests (other_form demo_requests) demo_responses
      (other_form demo_responses) moments 0 messages asked served
      (omega arith, (omega arith, (omega arith, tt))) (refl, refl, (refl, refl, (refl, refl, tt)))
      ((inl refl, λ e. cc), ((inr refl, λ e. cc), ((inl refl, λ e. cc), tt))) asked-HasForms

-- A server that has accepted two connections and forgotten the first.
abbrev server : SocketServer Bytes
server =
    (rm_conn (λ conn. ok tt) 0
      (add_conn (bytes "b") (add_conn (bytes "a") (new_socket_server bob)).1).1).1

server-Reach : Reach bob 2 server
server-Reach = drop_conn (λ conn. ok tt) 0 (accept (bytes "b") (accept (bytes "a") start))

rm_conn-add_conn_example :
    ((add_conn (bytes "c") server).0 ≡ 2)
    × (lookup 2 server.conns ≡ none)
    × ((rm_conn (λ conn. err (library 3)) 2 (add_conn (bytes "c") server).1).0 ≡ err (library 3))
    × ((id : ℕ)
        → lookup id (rm_conn (λ conn. err (library 3)) 2 (add_conn (bytes "c") server).1).1.conns
          ≡ lookup id server.conns)
rm_conn-add_conn_example =
    rm_conn-add_conn server (bytes "c") (λ conn. err (library 3)) server-Reach (omega arith)
