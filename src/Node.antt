-- ===== src/Node.antt =====
-- node/mix.go: what a mix node and a provider share.
use loopix_messaging.Prelude.{[], Option, none, some, Bytes, Result, ok, err, panic, Error}
use loopix_messaging.Flags.{SphinxFlag, sphinx_flag_from_bytes}
use loopix_messaging.Messages.{Hop, Commands}
use loopix_messaging.Sphinx.Library.{Library}
use loopix_messaging.Sphinx.Curve.{PrivateKey, PublicKey}
use loopix_messaging.Sphinx.Processing.{process_sphinx_packet}

pub record Mix : Type 0 where
  pub pub_key : PublicKey
  pub prv_key : PrivateKey

pub record PacketProcessingResult : Type 0 where
  pub packet_data : Bytes
  pub next_hop : Hop
  pub flag : SphinxFlag
  pub error : Option Error

-- The zero values `Hop{}` and `Commands{}`.
abbrev pub no_hop : Hop
no_hop = record { id = []; address = []; pub_key = [] }

abbrev pub no_commands : Commands
no_commands = record { delay = 0; flag = [] }

-- The sleep for the delay of the commands is not shown. An error is kept in the result, beside the
-- zero values that come with it; a panic ends the process.
unfoldable pub process_packet : Library → Mix → Bytes → Result PacketProcessingResult
process_packet lib m packet = elim (process_sphinx_packet lib packet m.prv_key) [
  | ok (next_hop, commands, new_packet) ↦ ok (record {
    packet_data = new_packet;
    next_hop = next_hop;
    flag = sphinx_flag_from_bytes commands.flag;
    error = none;
  })
  | err e ↦ ok (record {
    packet_data = [];
    next_hop = no_hop;
    flag = sphinx_flag_from_bytes no_commands.flag;
    error = some e;
  })
  | panic ↦ panic
]

abbrev pub new_mix : PrivateKey → PublicKey → Mix
new_mix prv_key pub_key = record { pub_key = pub_key; prv_key = prv_key }
