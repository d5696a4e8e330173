-- ===== src/Mixnode/Lifecycle.antt =====
-- server/mixnode/mixServer.go: how a mix node is made, and what it sends to the directory server.
pub mod Reports
use loopix_messaging.Prelude.{
  ℕ, List, [], ◌∷◌, Bool, false, Option, none, some, Bytes, bytes, Result, ok, ◌>>=◌, ◌>>◌,
}
use loopix_messaging.Topology.{Encoding}
use loopix_messaging.Helpers.Directory.{
  Addresses, Directory, resolve_tcp_address, register_mix_node_presence, send_mix_metrics,
}
use loopix_messaging.Node.{new_mix}
use loopix_messaging.Sphinx.Curve.{PrivateKey, PublicKey}
use loopix_messaging.Mixnode.{MixServer}
use loopix_messaging.Mixnode.Counters.{
  MixMetric, Metrics, reset, send_to_directory_server, new_metrics,
}
use loopix_messaging.Mixnode.Totals.{Event, observe_all}

-- The address that a node presents.
abbrev pub own_address : Encoding → MixServer → Bytes
own_address enc m = enc.join_host_port m.host m.port

-- The loop of `startSendingMetrics` over what is counted before each tick; `none` is where the node
-- is halted. Each tick sends a report, in a goroutine of its own, and starts to count anew.
unfoldable pub start_sending_metrics :
    List (Option (List Event)) → Metrics → List MixMetric × Metrics
start_sending_metrics [] m = ([], m)
start_sending_metrics (none ∷ ticks) m = ([], m)
start_sending_metrics (some events ∷ ticks) m =
    let counted = observe_all events m in
    let (reports, m') = start_sending_metrics ticks (reset counted) in
    (send_to_directory_server counted ∷ reports, m')

module _ (net : Addresses) (d : Directory) (enc : Encoding) where
  -- What the goroutine of `sendToDirectoryServer` does with a report.
  abbrev pub send_report : MixServer → MixMetric → Result (Unit {0})
  send_report m report =
      send_mix_metrics net d report.sent report.pub_key report.received (own_address enc m ∷ [])

  -- A tick of `startSendingPresence`, whose error is logged.
  abbrev pub send_presence : MixServer → Result (Unit {0})
  send_presence m =
      register_mix_node_presence net d m.mix.pub_key.raw m.layer (own_address enc m ∷ [])

  -- The node as it is put together; its config has no layer.
  abbrev pub node_of : Bytes → Bytes → Bytes → PrivateKey → PublicKey → ℕ → MixServer
  node_of id host port prv_key pub_key layer = record {
    mix = new_mix prv_key pub_key;
    id = id;
    host = host;
    port = port;
    layer = layer;
    config = record { id = id; host = host; port = port; pub_key = pub_key.raw; layer = 0 };
    metrics = new_metrics (enc.encode pub_key.raw);
    halted = false;
  }

  -- `log` is what making the logger gives, and `listen` what `net.Listen` does with the address.
  unfoldable pub new_mix_server :
      Result (Unit {0})
      → (Bytes → Result (Unit {0}))
      → Bytes
      → Bytes
      → Bytes
      → PrivateKey
      → PublicKey
      → ℕ
      → Result MixServer
  new_mix_server log listen id host port prv_key pub_key layer = do
    log
    let m = node_of id host port prv_key pub_key layer
    register_mix_node_presence net d pub_key.raw layer (own_address enc m ∷ [])
    listen (own_address enc m)
    ok m
