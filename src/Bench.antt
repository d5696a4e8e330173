-- ===== src/Bench.antt =====
-- server/provider/benchprovider.go and client/benchclient/benchclient.go: a provider and a client
-- that measure.
pub mod Done
use loopix_messaging.Prelude.{
  ℕ, zero, suc, ◌+◌, ◌%◌, ◌^◌, ◌==◌, List, [], ◌∷◌, ◌++◌, Bool, true, false, Option, none, some,
  Bytes, bytes, Error, Result, ok, err, panic, ◌>>=◌, ◌>>◌, assert, not, take, drop, length, ltb,
  equal, index, if◌then◌else◌,
}
use loopix_messaging.Flags.{last_hop, comm, packet_flag_from_bytes}
use loopix_messaging.Messages.{ClientConfig, MixConfig}
use loopix_messaging.Wire.{Wire}
use loopix_messaging.Helpers.{Random}
use loopix_messaging.Topology.{Encoding}
use loopix_messaging.Sphinx.Library.{Library}
use loopix_messaging.Node.{PacketProcessingResult, process_packet}
use loopix_messaging.Provider.{ProviderServer}
use loopix_messaging.Client.{NetClient, send_message, encode_for}
use loopix_messaging.Rpc.Requests.{Moment}

pub record TimestampedMessage : Type 0 where
  pub content : Bytes
  pub timestamp : ℕ

-- The counters are of type `int`, of 64 bits, and shown as their bit patterns.
pub record BenchProvider : Type 0 where
  pub provider : ProviderServer
  -- whether `doneCh` is closed
  pub done : Bool
  pub num_messages : ℕ
  pub received_messages : List TimestampedMessage
  pub received_messages_count : ℕ

unfoldable pub new_bench_provider : ProviderServer → ℕ → BenchProvider
new_bench_provider provider num_messages = record {
  provider = provider;
  done = false;
  num_messages = num_messages;
  received_messages = [];
  received_messages_count = 0;
}

-- The message is kept and counted; closing a channel that is closed panics.
unfoldable pub count_message : TimestampedMessage → BenchProvider → Result BenchProvider
count_message msg p =
    let count = (p.received_messages_count + 1) % 2 ^ 64 in
    let kept = record p {
      received_messages = p.received_messages ++ (msg ∷ []);
      received_messages_count = count;
    } in
    if count == p.num_messages
    then assert (not p.done) >> ok (record kept { done = true })
    else ok kept

-- `receivedPacket` on the result of the processing; `now` is what `time.Now` gives.
unfoldable pub received_result : ℕ → PacketProcessingResult → BenchProvider → Result BenchProvider
unfolding count_message
received_result now res p = elim res.error [
  | some e ↦ err e
  | none ↦ elim res.flag [
    | last_hop ↦
        if equal res.next_hop.id (bytes "BenchmarkClientRecipient")
        then assert (not (ltb (length res.packet_data) 38))
          >> count_message (record { content = drop 38 res.packet_data; timestamp = now }) p
        else panic
    | _ ↦ panic
  ]
]

unfoldable pub received_packet : Library → ℕ → Bytes → BenchProvider → Result BenchProvider
unfolding received_result
received_packet lib now packet p = do
  res ← process_packet lib p.provider.mix packet
  received_result now res p

-- `conn` is what reading the connection gives. An error of the reading is logged; any other ends
-- the process.
unfoldable pub handle_connection :
    Library → Wire → ℕ → Result Bytes → BenchProvider → Result BenchProvider
unfolding received_packet
handle_connection lib wire now conn p =
    elim (conn >>= λ content. wire.general_packet.unmarshal (take 1024 content)) [
      | ok packet ↦ elim (packet_flag_from_bytes packet.flag) [
        | comm ↦ elim (received_packet lib now packet.data_ p) [ ok p' ↦ ok p' | _ ↦ panic ]
        | _ ↦ panic
      ]
      | err e ↦ ok p
      | panic ↦ panic
    ]

-- What the summary shows: the earliest and the latest time, and the lines.
pub record Summary : Type 0 where
  pub earliest : ℕ
  pub latest : ℕ
  pub lines : List TimestampedMessage

abbrev pub widen : Summary → TimestampedMessage → Summary
widen s msg = record {
  earliest = if ltb msg.timestamp s.earliest then msg.timestamp else s.earliest;
  latest = if ltb s.latest msg.timestamp then msg.timestamp else s.latest;
  lines = s.lines ++ (msg ∷ []);
}

abbrev pub widen_all : Summary → List TimestampedMessage → Summary
widen_all s [] = s
widen_all s (msg ∷ msgs) = widen_all (widen s msg) msgs

-- `create` is what `os.Create` gives. The first message is read whether there is one or not.
unfoldable pub create_summary_doc : Result (Unit {0}) → List TimestampedMessage → Result Summary
create_summary_doc create msgs = do
  create
  first ← index msgs 0
  ok (widen_all (record { earliest = first.timestamp; latest = first.timestamp; lines = [] }) msgs)

pub record BenchClient : Type 0 where
  pub client : NetClient
  pub recipient : ClientConfig
  pub number_messages : ℕ
  pub sent_messages : List TimestampedMessage
  pub pregen : Bool
  pub pregenerated_packet : Bytes
  -- what was handed to the client's outgoing queue
  pub queued : List Bytes

abbrev pub payload_prefix : Bytes
payload_prefix = bytes "testMessage"

-- The recipient that both sides of the benchmark know.
abbrev pub bench_recipient : ClientConfig
bench_recipient = record {
  id = bytes "BenchmarkClientRecipient";
  host = bytes "localhost";
  port = bytes "9998";
  pub_key =
      21 ∷ 103 ∷ 130 ∷ 37 ∷ 105 ∷ 58 ∷ 162 ∷ 113 ∷ 91 ∷ 198 ∷ 76 ∷ 156 ∷ 194 ∷ 36 ∷ 45 ∷ 219 ∷ 121
      ∷ 158 ∷ 255 ∷ 247 ∷ 44 ∷ 159 ∷ 243 ∷ 155 ∷ 215 ∷ 90 ∷ 67 ∷ 103 ∷ 64 ∷ 242 ∷ 95 ∷ 45 ∷ [];
  provider = some (record {
    id = bytes "BenchmarkProvider";
    host = bytes "localhost";
    port = bytes "11000";
    pub_key =
        17 ∷ 170 ∷ 15 ∷ 150 ∷ 155 ∷ 75 ∷ 240 ∷ 66 ∷ 54 ∷ 100 ∷ 131 ∷ 127 ∷ 193 ∷ 10 ∷ 133 ∷ 32 ∷ 62
        ∷ 155 ∷ 9 ∷ 46 ∷ 200 ∷ 55 ∷ 60 ∷ 125 ∷ 223 ∷ 76 ∷ 170 ∷ 167 ∷ 100 ∷ 34 ∷ 176 ∷ 117 ∷ [];
    layer = 0;
  });
}

unfoldable pub new_bench_client : NetClient → ℕ → Bool → BenchClient
new_bench_client nc num_msgs pregen = record {
  client = nc;
  recipient = bench_recipient;
  number_messages = num_msgs;
  sent_messages = [];
  pregen = pregen;
  pregenerated_packet = [];
  queued = [];
}

module _ (lib : Library) (wire : Wire) (enc : Encoding) where
  unfoldable pub pregenerate_packet :
      Random → Result Bytes → Bytes → ClientConfig → BenchClient → Result BenchClient
  pregenerate_packet r read message recipient bc = do
    packet_bytes ← encode_for lib wire r read bc.client message recipient
    ok (record bc { pregenerated_packet = packet_bytes })

  -- One message: the packet, and the message as it is noted. `decimal` is the number printed.
  unfoldable pub send_one : (ℕ → Bytes) → Moment → ℕ → BenchClient → Result BenchClient
  send_one decimal env i bc =
      if bc.pregen
      then ok (record bc {
        queued = bc.queued ++ (bc.pregenerated_packet ∷ []);
        sent_messages =
            bc.sent_messages ++ (record { content = payload_prefix; timestamp = env.now } ∷ []);
      })
      else let msg = payload_prefix ++ decimal i in
        let (packet, c) =
          send_message lib wire env.random enc env.now env.topology env.read bc.client msg
            bc.recipient in
        elim packet [
          | ok p ↦ ok (record bc {
            client = c;
            queued = bc.queued ++ (p ∷ []);
            sent_messages =
                bc.sent_messages ++ (record { content = msg; timestamp = env.now } ∷ []);
          })
          | _ ↦ panic
        ]

  -- The messages from number `i` on, `n` of them. The list of those that were sent starts empty and
  -- grows; the source sets the entries of a slice that is as long as there are messages.
  unfoldable pub send_messages :
      (ℕ → Bytes) → (ℕ → Moment) → ℕ → ℕ → BenchClient → Result BenchClient
  unfolding send_one
  send_messages decimal moments zero i bc = ok bc
  send_messages decimal moments (suc n) i bc = do
    bc' ← send_one decimal (moments i) i bc
    send_messages decimal moments n (suc i) bc'

  -- `RunBench` of the client, on what `Start` gives.
  unfoldable pub run_bench :
      (ℕ → Bytes)
      → (ℕ → Moment)
      → Result NetClient
      → Random
      → Result Bytes
      → Result (Unit {0})
      → BenchClient
      → Result Summary
  unfolding pregenerate_packet send_messages create_summary_doc
  run_bench decimal moments started r read create bc = do
    c ← started
    let ready = record bc { client = c }
    bc' ←
        if bc.pregen then pregenerate_packet r read payload_prefix bc.recipient ready else ok ready
    bc'' ← send_messages decimal moments bc.number_messages 0 bc'
    create_summary_doc create bc''.sent_messages
