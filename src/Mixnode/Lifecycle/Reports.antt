-- ===== src/Mixnode/Lifecycle/Reports.antt =====
-- What the reports of a mix node count, tick by tick (server/mixnode/mixServer.go).
use loopix_messaging.Prelude.{◌<◌, ◌≡◌, List, [], ◌∷◌, map, some, All, Bytes}
use loopix_messaging.Mixnode.Counters.{Metrics, MixMetric, uint_mod, reset, new_metrics}
use loopix_messaging.Mixnode.Totals.{
  Event, observe_all, received_in, sent_in, count_in, send_to_directory_server-counts,
}
use loopix_messaging.Mixnode.Lifecycle.{start_sending_metrics}

-- Each report has what was received and what was sent to the address before its tick, and since the
-- tick before.
abbrev AreCounts : Bytes → List (List Event) → List MixMetric → Type 0
AreCounts address [] [] = Unit
AreCounts address (events ∷ ticks) (report ∷ reports) =
    (report.received ≡ received_in events)
    × (count_in address report.sent ≡ sent_in address events)
    × AreCounts address ticks reports
AreCounts address [] (report ∷ reports) = ⊥
AreCounts address (events ∷ ticks) [] = ⊥

reset-AreCounts :
    (address : Bytes) (ticks : List (List Event)) (m : Metrics)
    → All (λ events. (received_in events < uint_mod) × (sent_in address events < uint_mod)) ticks
    → AreCounts address ticks (start_sending_metrics (map some ticks) (reset m)).0
unfolding start_sending_metrics
reset-AreCounts address [] m few = tt
reset-AreCounts address (events ∷ ticks) m ((received, sent), few) =
    let (all, each) = send_to_directory_server-counts address events m received sent in
    (all, each, reset-AreCounts address ticks (observe_all events (reset m)) few)

-- Where the node counts fewer than 2 ^ 64 packets received and fewer sent to an address between any
-- two ticks, and nothing is counted between a report and the reset after it, each report has
-- exactly what was counted since the one before.
start_sending_metrics-AreCounts :
    (address key : Bytes) (ticks : List (List Event))
    → All (λ events. (received_in events < uint_mod) × (sent_in address events < uint_mod)) ticks
    → AreCounts address ticks (start_sending_metrics (map some ticks) (new_metrics key)).0
unfolding new_metrics reset
start_sending_metrics-AreCounts address key ticks few =
    reset-AreCounts address ticks (new_metrics key) few
