-- ===== src/Examples/Traffic.antt =====
-- The theorems on a client's start and traffic, for one client.
use loopix_messaging.Prelude.{
  ◌<◌, ◌≡◌, refl, List, [], ◌∷◌, ◌++◌, false, some, Bytes, bytes, ok, err, arith, library, length,
  equal,
}
use loopix_messaging.Messages.{MixConfig}
use loopix_messaging.Topology.{
  TopologyData, MixProviderPresence, provider_presence_to_config, get_client_pki, clients_of,
  registered_client_to_config, get_mixes_pki,
}
use loopix_messaging.Client.{
  NetClient, get_provider, send_register_message_to_provider, update_network_view, register_token,
  send,
}
use loopix_messaging.ClientCore.{update_network}
use loopix_messaging.Config.{wrap_with_flag, unmarshal_provider_response}
use loopix_messaging.Client.Config.{Debug, default_rate}
use loopix_messaging.Client.Traffic.{Round, select, control_out_queue, all_arrivals}
use loopix_messaging.Client.Traffic.Queue.{reals, answered_reals, contents, control_out_queue_fifo}
use loopix_messaging.Client.Traffic.Rate.{
  HasEnded, HasSent, chosen, control_out_queue-sends, control_out_queue-nonpositive,
  control_out_queue-HasSent,
}
use loopix_messaging.Client.Start.{Starting, start}
use loopix_messaging.Client.Start.Started.{IsPresented, start-provider}
use loopix_messaging.Examples.Codecs.{pack}
use loopix_messaging.Examples.Toy.{toy_library, toy_wire, toy_encoding, toy_random, point}
use loopix_messaging.Examples.Parties.{bob, provider_config}

-- A provider that does not answer, and one that does, while two packets wait.
abbrev round : Round
round = record {
  client = bob;
  arrivals = bytes "late" ∷ [];
  halts = false;
  prefers_halt = false;
  exchange = λ packet host port. err (library 1);
  read = ok [];
  draw = 0;
}

abbrev answered_round : Round
answered_round = record round {
  exchange = λ packet host port. ok (pack ((1 ∷ []) ∷ pack ((0xa9 ∷ []) ∷ [] ∷ []) ∷ []));
}

abbrev debug : Debug
debug = record {
  loop_cover_traffic_rate = default_rate;
  fetch_message_rate = default_rate;
  message_sending_rate = default_rate;
  rate_compliant_cover_messages_disabled = false;
}

abbrev waiting : List Bytes
waiting = bytes "first" ∷ bytes "second" ∷ []

control_out_queue_fifo_example :
    contents (
      control_out_queue toy_library toy_wire toy_random debug (round ∷ answered_round ∷ []) waiting)
    ≡ waiting ++ all_arrivals (round ∷ answered_round ∷ [])
control_out_queue_fifo_example =
    control_out_queue_fifo toy_library toy_wire toy_random debug (round ∷ answered_round ∷ [])
      waiting

control_out_queue-sends_example :
    let calls =
      (control_out_queue toy_library toy_wire toy_random debug
        (answered_round ∷ answered_round ∷ [])
        (waiting ++ [])).calls in
    ((later : List Bytes) × (answered_reals calls ≡ waiting ++ later))
    × ((later : List Bytes) × (reals calls ≡ waiting ++ later))
unfolding send
control_out_queue-sends_example =
    control_out_queue-sends toy_library toy_wire toy_random debug
      (answered_round ∷ answered_round ∷ []) waiting [] refl
      ((refl, λ p. refl), ((refl, λ p. refl), tt)) (omega arith)

abbrev stopped : Debug
stopped = record debug { message_sending_rate = 0 }

control_out_queue-nonpositive_example :
    let run =
      control_out_queue toy_library toy_wire toy_random stopped (round ∷ round ∷ []) waiting in
    HasEnded 1 run × (reals run.calls ≡ chosen (select round (waiting ++ round.arrivals)))
control_out_queue-nonpositive_example =
    control_out_queue-nonpositive toy_library toy_wire toy_random stopped round (round ∷ []) waiting
      refl

control_out_queue-HasSent_example :
    HasSent 2 (control_out_queue toy_library toy_wire toy_random debug (round ∷ round ∷ []) waiting)
control_out_queue-HasSent_example =
    control_out_queue-HasSent toy_library toy_wire toy_random debug (round ∷ round ∷ []) waiting
      refl

abbrev presence : MixProviderPresence
presence = record {
  pub_key = point 21;
  host = bytes "127.0.0.1:9997";
  registered_clients = record { pub_key = point 2 } ∷ [];
}

abbrev topology : TopologyData
topology = record { mix_nodes = []; mix_provider_nodes = presence ∷ [] }

-- The first attempt to register fails, and so the second one counts.
abbrev starting : Starting
starting = record {
  now = 1;
  first = ok topology;
  attempts =
      (λ packet host port. err (library 1))
      ∷ (λ packet host port. ok (pack ((1 ∷ []) ∷ pack ((0xa9 ∷ []) ∷ bytes "token" ∷ []) ∷ [])))
      ∷ [];
  polls = (2, ok (record topology { mix_provider_nodes = [] })) ∷ (3, ok topology) ∷ [];
}

abbrev provider_of_topology : MixConfig
provider_of_topology = record provider_config { id = bytes "127.0.0.1:9997" }

abbrev started : NetClient
started = record bob {
  core = record bob.core {
    provider = provider_of_topology;
    network = record {
      last_updated = 3;
      mixes = [];
      clients =
          record {
            id = point 2;
            host = bytes "0.0.0.0";
            port = bytes "42";
            pub_key = point 2;
            provider = some provider_of_topology;
          }
          ∷ [];
    };
  };
  config = record bob.config { provider = some provider_of_topology };
}

start-provider_example :
    IsPresented toy_encoding (point 21) starting started × (0 < length started.core.network.clients)
unfolding start get_provider equal provider_presence_to_config send_register_message_to_provider
    wrap_with_flag unmarshal_provider_response update_network_view update_network get_client_pki
    clients_of registered_client_to_config register_token get_mixes_pki
start-provider_example = start-provider toy_encoding toy_wire (point 21) starting bob started refl
