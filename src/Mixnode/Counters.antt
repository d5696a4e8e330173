-- ===== src/Mixnode/Counters.antt =====
-- The metrics of a mix node. Each function runs under the lock of the metrics.
use loopix_messaging.Prelude.{ℕ, ◌+◌, ◌%◌, ◌^◌, [], none, some, Bytes}
use loopix_messaging.Prelude.Maps.{Map, lookup, insert, bytes_key}

-- The counters are of type `uint`, of 64 bits.
abbrev pub uint_mod : ℕ
uint_mod = 2 ^ 64

pub record Metrics : Type 0 where
  pub b64_key : Bytes
  pub received_messages : ℕ
  pub sent_messages : Map Bytes ℕ

-- What is sent to the directory server.
pub record MixMetric : Type 0 where
  pub pub_key : Bytes
  pub sent : Map Bytes ℕ
  pub received : ℕ

unfoldable pub reset : Metrics → Metrics
reset m = record m { received_messages = 0; sent_messages = [] }

unfoldable pub increment_received : Metrics → Metrics
increment_received m = record m { received_messages = (m.received_messages + 1) % uint_mod }

unfoldable pub add_message : Bytes → Metrics → Metrics
add_message hop_address m = elim (lookup hop_address m.sent_messages) [
  | some n ↦ record m { sent_messages = insert hop_address ((n + 1) % uint_mod) m.sent_messages }
  | none ↦ record m { sent_messages = insert hop_address 1 m.sent_messages }
]

-- `sendToDirectoryServer` copies the counters, and leaves them as they are.
unfoldable pub send_to_directory_server : Metrics → MixMetric
send_to_directory_server m = record {
  pub_key = m.b64_key;
  sent = m.sent_messages;
  received = m.received_messages;
}

unfoldable pub new_metrics : Bytes → Metrics
new_metrics b64_key = record { b64_key = b64_key; received_messages = 0; sent_messages = [] }
