-- ===== src/Mixnode/Totals.antt =====
-- What the metrics of a mix node count.
use loopix_messaging.Prelude.{
  ℕ, ◌+◌, ◌%◌, ◌≡◌, ◌<◌, refl, ap, List, [], ◌∷◌, Option, some, none, Bytes, equal, if◌then◌else◌,
  arith, ◌∙◌, equal_sound, Option-cases, Bool-cases, inl, inr,
}
use loopix_messaging.Prelude.Maps.{Map, lookup, insert, bytes_key, lookup-insert}
use loopix_messaging.Mixnode.Counters.{
  Metrics, uint_mod, reset, increment_received, add_message, send_to_directory_server,
}

-- The number of messages counted for an address.
abbrev pub count_in : Bytes → Map Bytes ℕ → ℕ
count_in address sent = elim (lookup address sent) [ none ↦ 0 | some n ↦ n ]

-- What a mix node counts: a packet that it received, and one that it sent to an address.
pub data Event : Type 0 where
  received : Event
  sent : Bytes → Event

unfoldable pub observe : Event → Metrics → Metrics
observe received m = increment_received m
observe (sent address) m = add_message address m

abbrev pub observe_all : List Event → Metrics → Metrics
observe_all [] m = m
observe_all (e ∷ events) m = observe_all events (observe e m)

-- How many packets were received.
abbrev pub received_in : List Event → ℕ
received_in [] = 0
received_in (received ∷ events) = 1 + received_in events
received_in (sent _ ∷ events) = received_in events

-- How many packets were sent to an address.
abbrev pub sent_in : Bytes → List Event → ℕ
sent_in address [] = 0
sent_in address (received ∷ events) = sent_in address events
sent_in address (sent a ∷ events) =
    let rest = sent_in address events in if equal a address then 1 + rest else rest

count_in-insert :
    (address a : Bytes) (v : ℕ) (counts : Map Bytes ℕ)
    → count_in address (insert a v counts)
      ≡ (if equal a address then v else count_in address counts)
count_in-insert address a v counts =
    rw (count_in, lookup-insert a address v counts)
      (elim (Bool-cases (equal a address)) [ inl e ↦ rw e refl | inr e ↦ rw e refl ])

pub count_in-add_message :
    (address a : Bytes) (m : Metrics)
    → count_in address (add_message a m).sent_messages ≡ (
        if equal a address
        then (count_in address m.sent_messages + 1) % uint_mod
        else count_in address m.sent_messages)
unfolding add_message
count_in-add_message address a m = elim (Option-cases (lookup a m.sent_messages)) [
  | inl e ↦ rw (e, add_message) (count_in-insert address a 1 m.sent_messages ∙ bump none 1 e refl)
  | inr (n, e) ↦
      rw (e, add_message)
        (count_in-insert address a ((n + 1) % uint_mod) m.sent_messages
          ∙ bump (some n) ((n + 1) % uint_mod) e refl)
]
  where
    bump :
        (found : Option ℕ) (v : ℕ)
        → lookup a m.sent_messages ≡ found
        → v ≡ ((elim found as (λ _. ℕ) [ none ↦ 0 | some n ↦ n ]) + 1) % uint_mod
        → (if equal a address then v else count_in address m.sent_messages) ≡ (
            if equal a address
            then (count_in address m.sent_messages + 1) % uint_mod
            else count_in address m.sent_messages)
    bump found v e h = elim (Bool-cases (equal a address)) [
      | inl same ↦ rw (same, h, count_in, rw (equal_sound a address same) at e) refl
      | inr other ↦ rw other refl
    ]

pub add_message-received :
    (a : Bytes) (m : Metrics) → (add_message a m).received_messages ≡ m.received_messages
unfolding add_message
add_message-received a m = elim (Option-cases (lookup a m.sent_messages)) [
  | inl e ↦ rw (e, add_message) refl
  | inr (n, e) ↦ rw (e, add_message) refl
]

observe_all-received :
    (events : List Event) (m : Metrics)
    → m.received_messages + received_in events < uint_mod
    → (observe_all events m).received_messages ≡ m.received_messages + received_in events
unfolding observe increment_received
observe_all-received [] m h = omega arith
observe_all-received (received ∷ events) m h =
    omega (arith, observe_all-received events (observe received m) (omega arith))
observe_all-received (sent a ∷ events) m h =
    let same = add_message-received a m in
    observe_all-received events (add_message a m) (rw same h)
    ∙ ap (λ n. n + received_in events) same

observe_all-count_in :
    (address : Bytes) (events : List Event) (m : Metrics)
    → count_in address m.sent_messages + sent_in address events < uint_mod
    → count_in address (observe_all events m).sent_messages
      ≡ count_in address m.sent_messages + sent_in address events
unfolding observe increment_received
observe_all-count_in address [] m h = omega arith
observe_all-count_in address (received ∷ events) m h =
    observe_all-count_in address events (observe received m) h
observe_all-count_in address (sent a ∷ events) m h =
    let added = count_in-add_message address a m in
    let next = observe_all-count_in address events (add_message a m) in
    elim (Bool-cases (equal a address)) [
      | inl same ↦
          let bumped = rw same at added in
          let room = rw (same, sent_in) at h in
          rw (same, sent_in) (next (omega (arith, bumped, room)) ∙ omega (arith, bumped, room))
      | inr other ↦
          let kept = rw other at added in
          let room = rw (other, sent_in) at h in
          rw (other, sent_in) (next (omega (arith, kept, room)) ∙ omega (arith, kept))
    ]

-- Over fewer than 2 ^ 64 events after a reset, the report to the directory server has the number
-- of packets received, and for each address the number of packets sent to it.
pub send_to_directory_server-counts :
    (address : Bytes) (events : List Event) (m : Metrics)
    → received_in events < uint_mod
    → sent_in address events < uint_mod
    → ((send_to_directory_server (observe_all events (reset m))).received ≡ received_in events)
      × (count_in address (send_to_directory_server (observe_all events (reset m))).sent
          ≡ sent_in address events)
unfolding send_to_directory_server reset lookup
send_to_directory_server-counts address events m few fewer = (
  observe_all-received events (reset m) (omega arith) ∙ omega arith,
  observe_all-count_in address events (reset m) (omega arith) ∙ omega arith,
)
