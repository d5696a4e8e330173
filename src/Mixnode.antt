-- ===== src/Mixnode.antt =====
-- server/mixnode/mixServer.go: a mix node. What runs in a goroutine is a function of its own.
pub mod Counters
pub mod Handling
pub mod Totals
pub mod Lifecycle
pub mod Interleaving
use loopix_messaging.Prelude.{
  ℕ, ◌+◌, ◌%◌, ◌^◌, List, [], ◌∷◌, Bool, true, false, Option, none, some, Bytes, Error, Result, ok,
  err, panic, ◌>>=◌, take,
}
use loopix_messaging.Prelude.Maps.{Map}
use loopix_messaging.Flags.{
  SphinxFlag, relay, last_hop, invalid_sphinx, PacketTypeFlag, comm, packet_flag_from_bytes,
}
use loopix_messaging.Messages.{MixConfig, GeneralPacket}
use loopix_messaging.Config.{wrap_with_flag}
use loopix_messaging.Wire.{Wire}
use loopix_messaging.Network.{Network, Sent, send, buffer_size}
use loopix_messaging.Node.{Mix, PacketProcessingResult, process_packet}
use loopix_messaging.Sphinx.Library.{Library}
use Counters.{Metrics, increment_received, add_message}

pub record MixServer : Type 0 where
  pub mix : Mix
  pub id : Bytes
  pub host : Bytes
  pub port : Bytes
  pub layer : ℕ
  pub config : MixConfig
  pub metrics : Metrics
  -- whether `haltedCh` is closed
  pub halted : Bool

-- `halt` closes the channel; `haltOnce` runs it at most once.
unfoldable pub shutdown : MixServer → MixServer
shutdown m = record m { halted = true }

-- `receivedPacket` itself counts the packet, and leaves the rest to the goroutine.
unfoldable pub received_packet : MixServer → MixServer
received_packet m = record m { metrics = increment_received m.metrics }

module _ (wire : Wire) (net : Network) where
  unfoldable pub forward_packet : Bytes → Bytes → Result (Option Error × List Sent)
  forward_packet sphinx_packet address =
      elim (wrap_with_flag wire.general_packet comm sphinx_packet) [
        | ok packet_bytes ↦ ok (send net packet_bytes address)
        | err e ↦ ok (some e, [])
        | panic ↦ panic
      ]

  -- What the goroutine does with the result of the processing. An error of the processing or of
  -- the forwarding is logged, and nothing else.
  unfoldable pub after_processing :
      MixServer → PacketProcessingResult → Result (MixServer × List Sent)
  after_processing m res = elim res.flag [
    | relay ↦ do
      (failure, sent) ← forward_packet res.packet_data res.next_hop.address
      ok (record m { metrics = add_message res.next_hop.address m.metrics }, sent)
    | _ ↦ ok (m, [])
  ]

  -- The goroutine that `receivedPacket` starts.
  unfoldable pub process_received : Library → MixServer → Bytes → Result (MixServer × List Sent)
  unfolding after_processing
  process_received lib m packet = do res ← process_packet lib m.mix packet; after_processing m res

  -- `handleConnection` on what the connection holds: the new state, and the packet that a
  -- goroutine is to process.
  unfoldable pub handle_connection : MixServer → Result Bytes → Result (MixServer × Option Bytes)
  unfolding received_packet
  handle_connection m conn = do
    content ← conn
    packet ← wire.general_packet.unmarshal (take buffer_size content)
    elim (packet_flag_from_bytes packet.flag) [
      | comm ↦ ok (received_packet m, some packet.data_)
      | _ ↦ ok (m, none)
    ]
