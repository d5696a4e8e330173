-- ===== src/Bench/Done.antt =====
-- When the bench provider is done (server/provider/benchprovider.go).
use loopix_messaging.Prelude.{
  ℕ, ◌+◌, ◌%◌, ◌^◌, ◌==◌, ◌≤◌, ◌<◌, ◌≡◌, refl, sym, ap, ◌∙◌, List, [], ◌∷◌, ◌++◌, Bool, true, false,
  not, Bytes, Result, ok, err, panic, ◌>>=◌, assert, length, ltb, arith, if◌then◌else◌,
  length-append, Bool-cases, inl, inr, Option, none, some, Error, ◌↔◌, drop, bind_inverse,
  ok_injective, Result-cases, take,
}
use loopix_messaging.Flags.{
  SphinxFlag, relay, last_hop, invalid_sphinx, PacketTypeFlag, comm, packet_flag_from_bytes,
}
use loopix_messaging.Wire.{Wire}
use loopix_messaging.Sphinx.Library.{Library}
use loopix_messaging.Node.{PacketProcessingResult, process_packet}
use loopix_messaging.Provider.{ProviderServer}
use loopix_messaging.Bench.{
  TimestampedMessage, BenchProvider, new_bench_provider, count_message, received_result,
  received_packet, handle_connection,
}

-- The count is the number of the messages that are kept, and the channel is closed once there are
-- as many as expected.
abbrev pub IsCounted : BenchProvider → Type 0
IsCounted p =
    (p.received_messages_count ≡ length p.received_messages)
    × (p.done ≡ not (ltb (length p.received_messages) p.num_messages))

IsCounted-count_message :
    (msg : TimestampedMessage) (p : BenchProvider)
    → 0 < p.num_messages
    → length p.received_messages + 1 < 2 ^ 64
    → IsCounted p
    → (p' : BenchProvider) × (count_message msg p ≡ ok p')
      × IsCounted p'
      × (p'.num_messages ≡ p.num_messages)
      × (p'.received_messages ≡ p.received_messages ++ (msg ∷ []))
unfolding count_message
IsCounted-count_message msg p some_expected few (counted, closed) =
    let longer = length-append p.received_messages (msg ∷ []) in
    elim (Bool-cases ((p.received_messages_count + 1) % 2 ^ 64 == p.num_messages)) [
      | inl last ↦
          let not_yet : p.done ≡ false = ground (arith, closed, counted, few, last) in
          (
            record p {
              received_messages = p.received_messages ++ (msg ∷ []);
              received_messages_count = (p.received_messages_count + 1) % 2 ^ 64;
              done = true;
            },
            rw (last, not_yet) refl,
            (omega (arith, longer), ground (arith, longer, last, counted)),
            refl,
            refl,
          )
      | inr more ↦ (
        record p {
          received_messages = p.received_messages ++ (msg ∷ []);
          received_messages_count = (p.received_messages_count + 1) % 2 ^ 64;
        },
        rw more refl,
        (omega (arith, longer), ground (arith, longer, more, counted, closed)),
        refl,
        refl,
      )
    ]

-- What a step of the bench provider keeps: the expected number, and the messages.
abbrev pub IsNext : BenchProvider → BenchProvider → Type 0
IsNext p p' =
    IsCounted p'
    × (p'.num_messages ≡ p.num_messages)
    × (length p'.received_messages ≤ length p.received_messages + 1)

-- The tests of the handling: where there is a result, each of them has passed.
no_error :
    {A : Type 0} (error : Option Error) (r : Result A) (a : A)
    → (elim error as (λ x. Result A) [ some e ↦ err e | none ↦ r ]) ≡ ok a
    → r ≡ ok a
no_error none r a h = h
no_error (some e) r a h = cc

at_last_hop :
    {A : Type 0} (flag : SphinxFlag) (r : Result A) (a : A)
    → (elim flag as (λ x. Result A) [ last_hop ↦ r | _ ↦ panic ]) ≡ ok a
    → r ≡ ok a
at_last_hop last_hop r a h = h
at_last_hop relay r a h = cc
at_last_hop invalid_sphinx r a h = cc

at_comm :
    {A : Type 0} (flag : PacketTypeFlag) (r : Result A) (a : A)
    → (elim flag as (λ x. Result A) [ comm ↦ r | _ ↦ panic ]) ≡ ok a
    → r ≡ ok a
at_comm comm r a h = h
at_comm _ r a h = cc

no_panic :
    {A : Type 0} (passed : Bool) (r : Result A) (a : A)
    → (if passed then r else panic) ≡ ok a
    → r ≡ ok a
no_panic true r a h = h
no_panic false r a h = cc

longer :
    {A : Type 0} (xs : List A) (x : A) (ys : List A)
    → ys ≡ xs ++ (x ∷ [])
    → length ys ≤ length xs + 1
longer xs x ys e = omega (arith, ap length e, length-append xs (x ∷ []))

received_result-IsNext :
    (now : ℕ) (res : PacketProcessingResult) (p p' : BenchProvider)
    → 0 < p.num_messages
    → length p.received_messages + 1 < 2 ^ 64
    → IsCounted p
    → received_result now res p ≡ ok p'
    → IsNext p p'
unfolding received_result
received_result-IsNext now res p p' some_expected few h made =
    let msg : TimestampedMessage = record { content = drop 38 res.packet_data; timestamp = now } in
    let kept = no_panic _ _ p' (at_last_hop res.flag _ p' (no_error res.error _ p' made)) in
    let (long_enough, passed, counted) =
      bind_inverse (assert (not (ltb (length res.packet_data) 38))) (λ _. count_message msg p) p'
        kept in
    let (next, same, invariant, expected, messages) =
      IsCounted-count_message msg p some_expected few h in
    rw (← ok_injective next p' (sym same ∙ counted))
      (invariant, expected, longer p.received_messages msg next.received_messages messages)

handle_connection-IsNext :
    (lib : Library) (wire : Wire) (now : ℕ) (conn : Result Bytes) (p p' : BenchProvider)
    → 0 < p.num_messages
    → length p.received_messages + 1 < 2 ^ 64
    → IsCounted p
    → handle_connection lib wire now conn p ≡ ok p'
    → IsNext p p'
unfolding handle_connection received_packet
handle_connection-IsNext lib wire now conn p p' some_expected few h made =
    elim (Result-cases (conn >>= λ content. wire.general_packet.unmarshal (take 1024 content))) [
      | inl (packet, e) ↦
          let received =
            at_comm (packet_flag_from_bytes packet.flag) _ p' (rw (handle_connection, e) at made) in
          elim (Result-cases (received_packet lib now packet.data_ p)) [
            | inl (q, f) ↦
                let (res, _, kept) =
                  bind_inverse (process_packet lib p.provider.mix packet.data_) _ q f in
                rw (← ok_injective _ _ (rw f at received))
                  (received_result-IsNext now res p q some_expected few h kept)
            | inr (inl (x, f)) ↦ cc (rw f at received)
            | inr (inr f) ↦ cc (rw f at received)
          ]
      | inr (inl (x, e)) ↦
          rw (← ok_injective _ _ (rw (handle_connection, e) at made)) (h, refl, omega arith)
      | inr (inr e) ↦ cc (rw (handle_connection, e) at made)
    ]

-- The connections one after the other, each with the time at which it is handled.
abbrev pub handle_all :
    Library → Wire → List (ℕ × Result Bytes) → BenchProvider → Result BenchProvider
handle_all lib wire [] p = ok p
handle_all lib wire ((now, conn) ∷ conns) p = do
  p' ← handle_connection lib wire now conn p
  handle_all lib wire conns p'

handle_all-IsCounted :
    (lib : Library) (wire : Wire) (conns : List (ℕ × Result Bytes)) (p p' : BenchProvider)
    → 0 < p.num_messages
    → length p.received_messages + length conns < 2 ^ 64
    → IsCounted p
    → handle_all lib wire conns p ≡ ok p'
    → IsCounted p' × (p'.num_messages ≡ p.num_messages)
handle_all-IsCounted lib wire [] p p' some_expected few h made =
    rw (← ok_injective _ _ made) (h, refl)
handle_all-IsCounted lib wire ((now, conn) ∷ conns) p p' some_expected few h made =
    let (q, f, rest) = bind_inverse (handle_connection lib wire now conn p) _ p' made in
    let (counted, expected, few') =
      handle_connection-IsNext lib wire now conn p q some_expected (omega (arith, few)) h f in
    let (counted', expected') =
      handle_all-IsCounted lib wire conns q p' (omega (arith, expected)) (omega (arith, few, few'))
        counted rest in
    (counted', expected' ∙ expected)

-- A bench provider that expects some messages and has handled fewer than 2^64 connections, one
-- after the other and without a panic, has counted the messages that it keeps, and it is done
-- exactly when it keeps at least as many as it expects.
pub handle_all-done :
    (lib : Library) (wire : Wire) (conns : List (ℕ × Result Bytes)) (provider : ProviderServer)
    (num_messages : ℕ) (p : BenchProvider)
    → 0 < num_messages
    → length conns < 2 ^ 64
    → handle_all lib wire conns (new_bench_provider provider num_messages) ≡ ok p
    → (p.received_messages_count ≡ length p.received_messages)
      × ((p.done ≡ true) ↔ (num_messages ≤ length p.received_messages))
unfolding new_bench_provider
handle_all-done lib wire conns provider num_messages p some_expected few made =
    let ((counted, closed), expected) =
      handle_all-IsCounted lib wire conns (new_bench_provider provider num_messages) p some_expected
        (omega arith) (refl, ground arith) made in
    (counted, ground (arith, closed, expected))
