-- ===== src/Provider/Connections.antt =====
-- server/provider/providerServer.go: the packets that a provider takes from its connections.
use loopix_messaging.Prelude.{
  ℕ, List, [], ◌∷◌, ◌++◌, Option, none, some, Bytes, bytes, Error, Result, ok, err, panic, ◌>>=◌,
  take, length,
}
use loopix_messaging.Flags.{
  relay, last_hop, invalid_sphinx, assign, comm, pull, packet_flag_from_bytes,
}
use loopix_messaging.Messages.{GeneralPacket}
use loopix_messaging.Config.{wrap_with_flag}
use loopix_messaging.Wire.{Wire}
use loopix_messaging.Helpers.{Random, random_string}
use loopix_messaging.Topology.{Encoding}
use loopix_messaging.Network.{Network, Sent, send, buffer_size}
use loopix_messaging.Node.{PacketProcessingResult, process_packet}
use loopix_messaging.Sphinx.Library.{Library}
use loopix_messaging.Provider.Inboxes.{Faults}
use loopix_messaging.Provider.{
  ProviderServer, store_message, handle_assign_request, handle_pull_request,
}

module _ (wire : Wire) where
  unfoldable pub create_client_response : List Bytes → Result Bytes
  create_client_response marshalled_packets =
      wire.provider_response.marshal
        (record { number_of_packets = length marshalled_packets; packets = marshalled_packets })

  unfoldable pub forward_packet : Network → Bytes → Bytes → Result (Option Error × List Sent)
  forward_packet net sphinx_packet address =
      elim (wrap_with_flag wire.general_packet comm sphinx_packet) [
        | ok packet_bytes ↦ ok (send net packet_bytes address)
        | err e ↦ ok (some e, [])
        | panic ↦ panic
      ]

  module _ (net : Network) (os : Faults) (r : Random) where
    -- What the goroutine does with the result of the processing; `draw` is the number of the first
    -- random draw for the message's name. Errors are logged, and nothing else.
    unfoldable pub after_processing :
        ℕ → ProviderServer → PacketProcessingResult → Result (ProviderServer × List Sent)
    after_processing draw p res = elim res.flag [
      | relay ↦ do
        (failure, sent) ← forward_packet net res.packet_data res.next_hop.address
        ok (p, sent)
      | last_hop ↦ do
        suffix ← random_string r draw 8
        ok (
          (store_message os res.packet_data res.next_hop.id (bytes "TMP_MESSAGE_" ++ suffix) p).1,
          [],
        )
      | invalid_sphinx ↦ ok (p, [])
    ]

    -- The goroutine that `receivedPacket` starts.
    unfoldable pub process_received :
        Library → ℕ → ProviderServer → Bytes → Result (ProviderServer × List Sent)
    unfolding after_processing
    process_received lib draw p packet = do
      res ← process_packet lib p.mix packet
      after_processing draw p res

  -- What `handleConnection` leaves behind: the state, the reply to the client, and the packet that
  -- a goroutine is to process.
  pub record Handled : Type 0 where
    pub provider : ProviderServer
    pub reply : Option Bytes
    pub spawned : Option Bytes

  -- The reply to a request that was handled: none after an error, which is logged.
  unfoldable pub reply_with : Result (List Bytes) × ProviderServer → Result Handled
  unfolding create_client_response
  reply_with (ok packets, p) = elim (create_client_response packets) [
    | ok response ↦ ok (record { provider = p; reply = some response; spawned = none })
    | err e ↦ ok (record { provider = p; reply = none; spawned = none })
    | panic ↦ panic
  ]
  reply_with (err e, p) = ok (record { provider = p; reply = none; spawned = none })
  reply_with (panic, p) = panic

  module _ (enc : Encoding) (os : Faults) (lib : Library) where
    unfoldable pub handle_packet : GeneralPacket → ProviderServer → Result Handled
    unfolding reply_with
    handle_packet packet p = elim (packet_flag_from_bytes packet.flag) [
      | assign ↦
          let (made, p') = handle_assign_request enc os wire lib packet.data_ p in
          reply_with (made >>= λ t. ok (t ∷ []), p')
      | comm ↦ ok (record { provider = p; reply = none; spawned = some packet.data_ })
      | pull ↦ reply_with (handle_pull_request enc os wire packet.data_ p)
      | _ ↦ ok (record { provider = p; reply = none; spawned = none })
    ]

    -- `conn` is what reading the connection gives. Errors end the handling.
    unfoldable pub handle_connection : Result Bytes → ProviderServer → Result Handled
    unfolding handle_packet
    handle_connection conn p =
        elim (conn >>= λ content. wire.general_packet.unmarshal (take buffer_size content)) [
          | ok packet ↦ handle_packet packet p
          | err e ↦ ok (record { provider = p; reply = none; spawned = none })
          | panic ↦ panic
        ]
