-- ===== src/Network.antt =====
-- The network as a server sees it: what `net.Dial` and `conn.Write` answer, and what was written.
use loopix_messaging.Prelude.{ℕ, List, [], ◌∷◌, Option, none, some, Bytes, Error}

-- `send address packet` fails with an error or not.
pub record Network : Type 0 where
  pub dial_error : Bytes → Option Error
  pub write_error : Bytes → Bytes → Option Error

-- A packet that was written to a connection, with the address.
pub record Sent : Type 0 where
  pub address : Bytes
  pub packet : Bytes

-- The size of the buffer that a server reads a connection into. One `Read` gives no more.
abbrev pub buffer_size : ℕ
buffer_size = 2048

-- `send` of the servers: the error, if any, and what reached the network.
unfoldable pub send : Network → Bytes → Bytes → Option Error × List Sent
send net packet address = elim (net.dial_error address) [
  | some e ↦ (some e, [])
  | none ↦ elim (net.write_error address packet) [
    | some e ↦ (some e, [])
    | none ↦ (none, record { address = address; packet = packet } ∷ [])
  ]
]
