-- ===== src/Cmd/Bench.antt =====
-- cmd/bench-nym-mixnet-provider/run.go and cmd/bench-nym-mixnet-client/run.go: the programs that
-- measure.
use loopix_messaging.Prelude.{
  ℕ, List, [], ◌∷◌, Bool, true, some, Bytes, bytes, Result, ok, ◌>>=◌, ◌>>◌, guard, must, deref,
  not, length, replicate, ◌==◌, equal, usage_error, no_topology, if◌then◌else◌,
}
use loopix_messaging.Topology.{Encoding, TopologyData, MixProviderPresence, get_network_topology}
use loopix_messaging.Helpers.Directory.{Addresses, Directory}
use loopix_messaging.Sphinx.Curve.{bytes_to_private_key, bytes_to_public_key}
use loopix_messaging.Provider.Inboxes.{FileSystem}
use loopix_messaging.Provider.Lifecycle.{new_provider_server}
use loopix_messaging.Client.Config as Settings
use loopix_messaging.Client.Config.{Platform, Config}
use loopix_messaging.Client.Start.{new_test_client}
use loopix_messaging.Bench.{BenchProvider, BenchClient, new_bench_provider, new_bench_client}
use loopix_messaging.Cmd.Client.{default_local_topology_endpoint}

abbrev pub bench_private_bytes : Bytes
bench_private_bytes =
    191 ∷ 43 ∷ 90 ∷ 175 ∷ 50 ∷ 224 ∷ 156 ∷ 22 ∷ 204 ∷ 173 ∷ 87 ∷ 255 ∷ 64 ∷ 152 ∷ 17 ∷ 30 ∷ 48 ∷ 162
    ∷ 36 ∷ 95 ∷ 57 ∷ 34 ∷ 187 ∷ 183 ∷ 203 ∷ 215 ∷ 25 ∷ 172 ∷ 55 ∷ 199 ∷ 211 ∷ 59 ∷ []

abbrev pub bench_public_bytes : Bytes
bench_public_bytes =
    17 ∷ 170 ∷ 15 ∷ 150 ∷ 155 ∷ 75 ∷ 240 ∷ 66 ∷ 54 ∷ 100 ∷ 131 ∷ 127 ∷ 193 ∷ 10 ∷ 133 ∷ 32 ∷ 62
    ∷ 155 ∷ 9 ∷ 46 ∷ 200 ∷ 55 ∷ 60 ∷ 125 ∷ 223 ∷ 76 ∷ 170 ∷ 167 ∷ 100 ∷ 34 ∷ 176 ∷ 117 ∷ []

-- The id of the provider that measures: its key in base64.
abbrev pub benchmark_provider_id : Bytes
benchmark_provider_id = bytes "EaoPlptL8EI2ZIN_wQqFID6bCS7INzx930yqp2QisHU="

-- `cmdRun` of the provider up to its run; `remove_all` is what emptying its inbox gives.
unfoldable pub run_bench_provider :
    Addresses
    → Directory
    → Encoding
    → Result (Unit {0})
    → Result (Unit {0})
    → (Bytes → Result (Unit {0}))
    → FileSystem
    → Bytes
    → ℕ
    → List Bytes
    → Result BenchProvider
run_bench_provider net d enc remove_all log listen inboxes port num_messages params = do
  guard (length params == 0) usage_error
  remove_all
  priv_p ← bytes_to_private_key bench_private_bytes
  pub_p ← bytes_to_public_key bench_public_bytes
  base ← must (
      new_provider_server net d enc log listen inboxes (bytes "BenchmarkProvider")
        (bytes "localhost") port priv_p pub_p)
  ok (new_bench_provider base num_messages)

-- The first provider other than the one that measures; the id stays empty where there is none.
unfoldable pub choose_ingress : Bytes → List MixProviderPresence → Bytes
choose_ingress current [] = current
choose_ingress current (node ∷ nodes) =
    if not (equal node.pub_key benchmark_provider_id)
    then node.pub_key
    else choose_ingress current nodes

-- The configuration of the client that measures, but for its provider.
unfoldable pub bench_config : Settings.Client → Settings.Logging → Settings.Debug → Config
bench_config c l d = record {
  client = some (record c { directory_server_topology_endpoint = default_local_topology_endpoint });
  logging = some (record l { disable = true });
  debug = some (record d {
    loop_cover_traffic_rate = 0;
    fetch_message_rate = 0;
    message_sending_rate = 4711630319722168320;
    rate_compliant_cover_messages_disabled = true;
  });
}

-- `cmdRun` of the client up to its run: its configuration, and the client.
unfoldable pub run_bench_client :
    Platform Config
    → Encoding
    → Result (Unit {0})
    → (Bytes → Result Bytes)
    → (Bytes → Result TopologyData)
    → ℕ
    → Bool
    → List Bytes
    → Result (Config × BenchClient)
unfolding choose_ingress bench_config
run_bench_client os enc log get unmarshal num_messages pre_generate params = do
  guard (length params == 0) usage_error
  priv_c ← bytes_to_private_key (replicate 32 0)
  pub_c ← bytes_to_public_key (replicate 32 0)
  default_cfg ← must (Settings.default_config os (bytes "BenchmarkClient"))
  c ← deref default_cfg.client
  l ← deref default_cfg.logging
  d ← deref default_cfg.debug
  topology ← get_network_topology get unmarshal default_local_topology_endpoint
  guard (not (length topology.mix_provider_nodes == 0)) no_topology
  let c' = record c { provider_id = choose_ingress c.provider_id topology.mix_provider_nodes }
  client ← must (new_test_client enc log priv_c pub_c)
  ok (bench_config c' l d, new_bench_client client num_messages pre_generate)
