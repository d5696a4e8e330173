-- ===== src/Examples/Programs.antt =====
-- The theorems on the programs of cmd, on a websocket server and on the metrics of a mix node.
use loopix_messaging.Prelude.{
  ◌+◌, ◌≡◌, refl, [], ◌∷◌, false, bytes, ok, err, arith, library, equal, if◌then◌else◌,
  ok_injective,
}
use loopix_messaging.Prelude.Maps.{lookup, insert}
use loopix_messaging.Helpers.Pem.{to_pem_file, from_pem_file}
use loopix_messaging.Sphinx.Curve.{
  PrivateKey, PublicKey, generate_key_pair, marshal_private_key, marshal_public_key,
}
use loopix_messaging.Cmd.{Files}
use loopix_messaging.Cmd.Provider.{own_keys, load_keys, save_keys}
use loopix_messaging.Cmd.Provider.Keys.{own_keys-persist}
use loopix_messaging.Mixnode.Totals.{received, sent, received_in, sent_in, count_in}
use loopix_messaging.Mixnode.Interleaving.{
  Metering, here, next, counts, reported, cleared, fresh, sum_of, Reach-kept, count_event, report,
  clear,
}
use loopix_messaging.Rpc.Websocket.Lifecycle.{
  new_socket_server, shutdown_server, wait_returns, starts, shuts, make_all, shut_down,
  shutdown_server-panics,
}
use loopix_messaging.Examples.Toy.{toy_library, toy_library-IsLawful, point}
use loopix_messaging.Examples.Machines.{toy_pem, toy_pem-IsPem}
use loopix_messaging.Examples.Parties.{bob}

-- A provider's first run, with no files and the key 7 drawn.
abbrev keys : PrivateKey × PublicKey
keys = (record { raw = point 7 }, record { raw = point 7 })

abbrev first_files : Files
first_files =
    (
      bytes "privateKey.key",
      toy_pem.encode_to_memory (bytes "SPHINX CURVE25519 PRIVATE KEY") (point 7),
    )
    ∷ (
      bytes "publicKey.key",
      toy_pem.encode_to_memory (bytes "SPHINX CURVE25519 PUBLIC KEY") (point 7),
    )
    ∷ []

own_keys-persist_example :
    own_keys toy_pem toy_library (λ path. err (library 1)) (ok (point 9)) first_files
    ≡ ok (keys, first_files)
unfolding own_keys load_keys save_keys lookup insert equal generate_key_pair to_pem_file
    from_pem_file marshal_private_key marshal_public_key
own_keys-persist_example =
    own_keys-persist toy_pem toy_pem-IsPem toy_library (λ path. ok tt) (λ path. err (library 1))
      (ok (point 7)) (ok (point 9)) [] first_files keys toy_library-IsLawful
      (λ b drawn. rw (← ok_injective (point 7) b drawn) refl) refl

-- A packet is sent between a report and its reset, and two are received in all.
abbrev metering : Metering
metering =
    count_event received
      (clear (count_event (sent (bytes "a")) (report (count_event received (fresh (bytes "key"))))))

Reach-kept_example :
    (received_in metering.happened
      ≡ sum_of (λ r. r.received) metering.reports
        + received_in metering.late
        + (if metering.reporting then 0 else metering.metrics.received_messages))
    × (sent_in (bytes "a") metering.happened
        ≡ sum_of (λ r. count_in (bytes "a") r.sent) metering.reports
          + sent_in (bytes "a") metering.late
          + (if metering.reporting then 0 else count_in (bytes "a") metering.metrics.sent_messages))
unfolding equal
Reach-kept_example =
    Reach-kept (bytes "key") (bytes "a")
      (next
        (next
          (next (next (next here (counts _ received)) (reported _ refl))
            (counts _ (sent (bytes "a"))))
          (cleared _ refl))
        (counts _ received))
      (omega arith) (omega arith)

shutdown_server-panics_example :
    let s = make_all (starts (ok bob) ∷ shuts ∷ []) (new_socket_server (bytes ":9001") bob) in
    (wait_returns s ≡ false)
    × ((shutdown_server s).0 ≡ ok tt)
    × ((shutdown_server s).1.srv ≡ shut_down)
    × (wait_returns (shutdown_server s).1 ≡ false)
shutdown_server-panics_example =
    shutdown_server-panics (bytes ":9001") bob (starts (ok bob) ∷ shuts ∷ [])
