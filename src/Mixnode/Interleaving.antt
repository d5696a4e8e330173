-- ===== src/Mixnode/Interleaving.antt =====
-- The metrics of a mix node under its goroutines (server/mixnode/mixServer.go): those that handle
-- packets count under the lock at any time, and the one of `startSendingMetrics` takes the lock
-- once to report and once more to reset.
use loopix_messaging.Prelude.{
  ℕ, ◌+◌, ◌≤◌, ◌<◌, ◌≡◌, refl, ◌∙◌, List, [], ◌∷◌, Bool, true, false, Bytes, equal, arith,
  if◌then◌else◌, Bool-cases, inl, inr,
}
use loopix_messaging.Prelude.Maps.{lookup}
use loopix_messaging.Mixnode.Counters.{
  Metrics, MixMetric, uint_mod, reset, send_to_directory_server, new_metrics, increment_received,
}
use loopix_messaging.Mixnode.Totals.{
  Event, received, sent, observe, received_in, sent_in, count_in, add_message-received,
  count_in-add_message,
}

-- The metrics with the goroutine that reports: whether it has reported and not yet reset, and the
-- reports, the last one first. `happened` and `late` are what was counted so far, and what of that
-- between a report and the reset after it.
pub record Metering : Type 0 where
  pub metrics : Metrics
  pub reporting : Bool
  pub reports : List MixMetric
  pub happened : List Event
  pub late : List Event

abbrev pub fresh : Bytes → Metering
fresh key = record {
  metrics = new_metrics key;
  reporting = false;
  reports = [];
  happened = [];
  late = [];
}

abbrev pub count_event : Event → Metering → Metering
count_event e n = record n {
  metrics = observe e n.metrics;
  happened = e ∷ n.happened;
  late = if n.reporting then e ∷ n.late else n.late;
}

abbrev pub report : Metering → Metering
report n = record n { reports = send_to_directory_server n.metrics ∷ n.reports; reporting = true }

abbrev pub clear : Metering → Metering
clear n = record n { metrics = reset n.metrics; reporting = false }

pub data Step : Metering → Metering → Type 0 where
  counts : (n : Metering) (e : Event) → Step n (count_event e n)
  reported : (n : Metering) → n.reporting ≡ false → Step n (report n)
  cleared : (n : Metering) → n.reporting ≡ true → Step n (clear n)

pub data Reach (start : Metering) : Metering → Type 0 where
  here : Reach start start
  next : {n n' : Metering} → Reach start n → Step n n' → Reach start n'

-- A number that the metrics count: how much an event adds, what the metrics show, and what a report
-- shows.
record Tally (one : Event → ℕ) (total : List Event → ℕ) (now : Metrics → ℕ) (shown : MixMetric → ℕ)
    : Type 0 where
  total_none : total [] ≡ 0
  total_cons : (e : Event) (events : List Event) → total (e ∷ events) ≡ one e + total events
  now_observe :
      (e : Event) (m : Metrics) → now m + one e < uint_mod → now (observe e m) ≡ now m + one e
  now_new : (key : Bytes) → now (new_metrics key) ≡ 0
  now_reset : (m : Metrics) → now (reset m) ≡ 0
  shown_now : (m : Metrics) → shown (send_to_directory_server m) ≡ now m

-- What the reports have together.
abbrev pub sum_of : (MixMetric → ℕ) → List MixMetric → ℕ
sum_of shown [] = 0
sum_of shown (r ∷ reports) = shown r + sum_of shown reports

module _ (one : Event → ℕ) (total : List Event → ℕ) (now : Metrics → ℕ) (shown : MixMetric → ℕ)
    (tally : Tally one total now shown) where
  -- All that was counted is in the reports, or came late, or waits for the next report.
  record IsKept (n : Metering) : Type 0 where
    kept :
        total n.happened
        ≡ sum_of shown n.reports + total n.late + (if n.reporting then 0 else now n.metrics)
    small : now n.metrics ≤ total n.happened

  Step-IsKept : {n n' : Metering} → Step n n' → total n'.happened < uint_mod → IsKept n → IsKept n'
  Step-IsKept (counts n e) few v =
      let more = tally.total_cons e n.happened in
      let seen = tally.now_observe e n.metrics (omega (arith, v.small)) in
      elim (Bool-cases n.reporting) [
        | inl b ↦ record {
          kept = rw b (omega (arith, more, rw b at v.kept, tally.total_cons e n.late));
          small = omega (arith, v.small, more, seen);
        }
        | inr b ↦ record {
          kept = rw b (omega (arith, more, rw b at v.kept, seen));
          small = omega (arith, v.small, more, seen);
        }
      ]
  Step-IsKept (reported n b) few v = record {
    kept = omega (arith, rw b at v.kept, tally.shown_now n.metrics);
    small = v.small;
  }
  Step-IsKept (cleared n b) few v = record {
    kept = omega (arith, rw b at v.kept, tally.now_reset n.metrics);
    small = omega (arith, tally.now_reset n.metrics);
  }

  Step-grows : {n n' : Metering} → Step n n' → total n.happened ≤ total n'.happened
  Step-grows (counts n e) = omega (arith, tally.total_cons e n.happened)
  Step-grows (reported n b) = omega arith
  Step-grows (cleared n b) = omega arith

  Reach-IsKept :
      (key : Bytes) {n : Metering} → Reach (fresh key) n → total n.happened < uint_mod → IsKept n
  Reach-IsKept key here few = record {
    kept = omega (arith, tally.total_none, tally.now_new key);
    small = omega (arith, tally.now_new key);
  }
  Reach-IsKept key (next r st) few =
      Step-IsKept st few (Reach-IsKept key r (omega (arith, Step-grows st)))

abbrev one_received : Event → ℕ
one_received received = 1
one_received (sent a) = 0

abbrev one_sent : Bytes → Event → ℕ
one_sent address received = 0
one_sent address (sent a) = if equal a address then 1 else 0

received-Tally : Tally one_received received_in (λ m. m.received_messages) (λ r. r.received)
unfolding observe increment_received new_metrics reset send_to_directory_server
received-Tally = record {
  total_none = refl;
  total_cons = cons;
  now_observe = step;
  now_new = λ key. refl;
  now_reset = λ m. refl;
  shown_now = λ m. refl;
}
  where
    cons :
        (e : Event) (events : List Event)
        → received_in (e ∷ events) ≡ one_received e + received_in events
    cons received events = refl
    cons (sent a) events = omega arith

    step :
        (e : Event) (m : Metrics)
        → m.received_messages + one_received e < uint_mod
        → (observe e m).received_messages ≡ m.received_messages + one_received e
    step received m few = omega arith
    step (sent a) m few = add_message-received a m ∙ omega arith

sent-Tally :
    (address : Bytes)
    → Tally
        (one_sent address)
        (sent_in address)
        (λ m. count_in address m.sent_messages)
        (λ r. count_in address r.sent)
unfolding observe increment_received new_metrics reset send_to_directory_server lookup
sent-Tally address = record {
  total_none = refl;
  total_cons = cons;
  now_observe = step;
  now_new = λ key. refl;
  now_reset = λ m. refl;
  shown_now = λ m. refl;
}
  where
    cons :
        (e : Event) (events : List Event)
        → sent_in address (e ∷ events) ≡ one_sent address e + sent_in address events
    cons received events = omega arith
    cons (sent a) events = elim (Bool-cases (equal a address)) [
      | inl same ↦ rw (sent_in, same) refl
      | inr other ↦ rw (sent_in, other) (omega arith)
    ]

    step :
        (e : Event) (m : Metrics)
        → count_in address m.sent_messages + one_sent address e < uint_mod
        → count_in address (observe e m).sent_messages
          ≡ count_in address m.sent_messages + one_sent address e
    step received m few = omega arith
    step (sent a) m few = elim (Bool-cases (equal a address)) [
      | inl same ↦
          let room = rw same at few in
          rw same (omega (arith, rw same at (count_in-add_message address a m), room))
      | inr other ↦ rw other (omega (arith, rw other at (count_in-add_message address a m)))
    ]

-- In every interleaving of the goroutines of a new mix node, while fewer than 2 ^ 64 packets were
-- received, and fewer sent to an address: those that were received are those in the reports so
-- far, those counted between a report and the reset after it, which are in no report, and, unless
-- a report is waiting for its reset, those in the metrics; and so for those sent to the address.
pub Reach-kept :
    (key address : Bytes) {n : Metering}
    → Reach (fresh key) n
    → received_in n.happened < uint_mod
    → sent_in address n.happened < uint_mod
    → (received_in n.happened
        ≡ sum_of (λ r. r.received) n.reports
          + received_in n.late
          + (if n.reporting then 0 else n.metrics.received_messages))
      × (sent_in address n.happened
          ≡ sum_of (λ r. count_in address r.sent) n.reports
            + sent_in address n.late
            + (if n.reporting then 0 else count_in address n.metrics.sent_messages))
Reach-kept key address r few fewer = (
  (Reach-IsKept one_received received_in (λ m. m.received_messages) (λ r. r.received) received-Tally
      key r few).kept,
  (Reach-IsKept (one_sent address) (sent_in address) (λ m. count_in address m.sent_messages)
      (λ r. count_in address r.sent) (sent-Tally address) key r fewer).kept,
)
