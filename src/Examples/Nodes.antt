-- ===== src/Examples/Nodes.antt =====
-- The theorems on mix nodes, for one node.
use loopix_messaging.Prelude.{
  ◌≡◌, refl, [], ◌∷◌, none, some, Bytes, bytes, ok, panic, false, arith, library, length-copy_to,
  length, ap, ◌≢◌,
}
use loopix_messaging.Prelude.Maps.{bytes_key}
use loopix_messaging.Messages.{Header}
use loopix_messaging.Config.{wrap_with_flag}
use loopix_messaging.Network.{Network}
use loopix_messaging.Sphinx.Integrity.{expected_mac}
use loopix_messaging.Mixnode.{MixServer, received_packet, process_received, handle_connection}
use loopix_messaging.Mixnode.Counters.{new_metrics}
use loopix_messaging.Mixnode.Handling.{process_received-drops, handle_connection-crashes}
use loopix_messaging.Examples.Codecs.{pack}
use loopix_messaging.Examples.Toy.{
  point, toy_wire, toy_wire-IsWire, toy_library, toy_library-IsLawful,
}

-- No connection can be made.
abbrev dead_network : Network
dead_network = record { dial_error = λ _. some (library 1); write_error = λ _ _. none }

abbrev mix_node : MixServer
mix_node = record {
  mix = record { pub_key = record { raw = point 11 }; prv_key = record { raw = point 11 } };
  id = bytes "m";
  host = bytes "127.0.0.1";
  port = bytes "9000";
  layer = 1;
  config = record {
    id = bytes "m";
    host = bytes "127.0.0.1";
    port = bytes "9000";
    pub_key = point 11;
    layer = 1;
  };
  metrics = new_metrics (bytes "key");
  halted = false;
}

-- A packet with a payload and no header, and one with a header whose code is empty.
abbrev headless : Bytes
headless = 0 ∷ bytes "payload"

abbrev forged_header : Header
forged_header = record { alpha = point 5; beta = bytes "beta"; mac = [] }

abbrev forged : Bytes
forged = 1 ∷ pack (point 5 ∷ bytes "beta" ∷ [] ∷ bytes "payload" ∷ [])

forged_mac : forged_header.mac ≢ expected_mac toy_library mix_node.mix.prv_key forged_header
forged_mac h = absurd (omega (arith, ap length h, length-copy_to 32 _))

process_received-drops_example :
    process_received toy_wire dead_network toy_library mix_node forged ≡ ok (mix_node, [])
process_received-drops_example =
    process_received-drops toy_wire toy_wire-IsWire dead_network toy_library toy_library-IsLawful
      mix_node forged (bytes "payload") forged_header refl refl (omega arith) forged_mac

handle_connection-crashes_example :
    (handle_connection toy_wire dead_network mix_node (ok (pack ((0xc6 ∷ []) ∷ headless ∷ [])))
      ≡ ok (received_packet mix_node, some headless))
    × (process_received toy_wire dead_network toy_library (received_packet mix_node) headless
        ≡ panic)
unfolding wrap_with_flag
handle_connection-crashes_example =
    handle_connection-crashes toy_wire toy_wire-IsWire dead_network toy_library mix_node headless
      (bytes "payload") (pack ((0xc6 ∷ []) ∷ headless ∷ [])) refl refl (omega arith)
