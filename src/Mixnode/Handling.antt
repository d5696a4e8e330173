-- ===== src/Mixnode/Handling.antt =====
-- What a mix node does with the packets that reach it, errors included.
use loopix_messaging.Prelude.{
  ◌≤◌, ◌≡◌, ◌≢◌, refl, [], some, none, Bytes, ok, panic, length, take_all,
}
use loopix_messaging.Flags.{comm, packet_flag_from_bytes, sphinx_flag_from_bytes}
use loopix_messaging.Messages.{Header}
use loopix_messaging.Config.{wrap_with_flag}
use loopix_messaging.Wire.{Wire, IsWire}
use loopix_messaging.Network.{Network, buffer_size}
use loopix_messaging.Node.{process_packet}
use loopix_messaging.Sphinx.Library.{Library, IsLawful}
use loopix_messaging.Sphinx.Integrity.{
  expected_mac, process_sphinx_packet-rejects, process_sphinx_packet-no_header,
}
use loopix_messaging.Mixnode.{
  MixServer, received_packet, after_processing, process_received, handle_connection,
}

module _ (wire : Wire) (law : IsWire wire) (net : Network) where
  -- A connection with a packet for communication that fits the buffer is counted once, and its
  -- content goes to a goroutine.
  pub handle_connection-spawns :
      (m : MixServer) (b conn : Bytes)
      → wrap_with_flag wire.general_packet comm b ≡ ok conn
      → length conn ≤ buffer_size
      → handle_connection wire net m (ok conn) ≡ ok (received_packet m, some b)
  unfolding handle_connection wrap_with_flag packet_flag_from_bytes
  handle_connection-spawns m b conn sent fits =
      rw
        (
          take_all buffer_size conn fits,
          law.general_packet_codec.unmarshal-marshal _ conn sent,
          handle_connection,
        )
        refl

  module _ (lib : Library) where
    -- A packet whose code is not the one that the node expects over its routing data is dropped:
    -- nothing is sent, and no counter of sent messages changes.
    pub process_received-drops :
        IsLawful lib
        → (m : MixServer) (b pld : Bytes) (hdr : Header)
        → lib.sphinx_packet.unmarshal b ≡ ok (record { hdr = some hdr; pld = pld })
        → length m.mix.prv_key.raw ≡ 32
        → length hdr.alpha ≤ 32
        → hdr.mac ≢ expected_mac lib m.mix.prv_key hdr
        → process_received wire net lib m b ≡ ok (m, [])
    unfolding process_received process_packet after_processing sphinx_flag_from_bytes
    process_received-drops lawful m b pld hdr read k32 fits other =
        rw
          (
            process_sphinx_packet-rejects lib lawful b pld hdr m.mix.prv_key read k32 fits other,
            process_received,
            process_packet,
          )
          refl

    -- One connection can end the process: with a packet for communication whose content is a
    -- Sphinx packet without a header, the goroutine that is started for it panics.
    pub handle_connection-crashes :
        (m : MixServer) (b pld conn : Bytes)
        → lib.sphinx_packet.unmarshal b ≡ ok (record { hdr = none; pld = pld })
        → wrap_with_flag wire.general_packet comm b ≡ ok conn
        → length conn ≤ buffer_size
        → (handle_connection wire net m (ok conn) ≡ ok (received_packet m, some b))
          × (process_received wire net lib (received_packet m) b ≡ panic)
    unfolding process_received process_packet received_packet
    handle_connection-crashes m b pld conn read sent fits = (
      handle_connection-spawns m b conn sent fits,
      rw
          (
            process_sphinx_packet-no_header lib b pld m.mix.prv_key read,
            process_received,
            process_packet,
          )
          refl,
    )
