-- ===== src/Provider/Lifecycle.antt =====
-- server/provider/providerServer.go: how a provider is made, and what it sends to the directory
-- server.
use loopix_messaging.Prelude.{[], ◌∷◌, false, Bytes, bytes, Result, ok, ◌>>=◌, ◌>>◌}
use loopix_messaging.Topology.{Encoding}
use loopix_messaging.Helpers.Directory.{Addresses, Directory, register_mix_provider_presence}
use loopix_messaging.Node.{new_mix}
use loopix_messaging.Sphinx.Curve.{PrivateKey, PublicKey}
use loopix_messaging.Provider.{ProviderServer, convert_records_to_model_data}
use loopix_messaging.Provider.Inboxes.{FileSystem}

-- The provider as it is put together, over the inboxes that are there.
abbrev pub provider_of :
    FileSystem → Bytes → Bytes → Bytes → PrivateKey → PublicKey → ProviderServer
provider_of files id host port prv_key pub_key = record {
  mix = new_mix prv_key pub_key;
  id = id;
  host = host;
  port = port;
  assigned_clients = [];
  config = record { id = id; host = host; port = port; pub_key = pub_key.raw; layer = 0 };
  files = files;
  halted = false;
}

module _ (net : Addresses) (d : Directory) (enc : Encoding) where
  -- A tick of `startSendingPresence`, whose error is logged.
  unfoldable pub send_presence : ProviderServer → Result (Unit {0})
  unfolding convert_records_to_model_data
  send_presence p =
      register_mix_provider_presence net d p.mix.pub_key.raw (convert_records_to_model_data enc p)
        (enc.join_host_port p.host p.port ∷ [])

  -- `log` is what making the logger gives, and `listen` what `net.Listen` does with the address.
  unfoldable pub new_provider_server :
      Result (Unit {0})
      → (Bytes → Result (Unit {0}))
      → FileSystem
      → Bytes
      → Bytes
      → Bytes
      → PrivateKey
      → PublicKey
      → Result ProviderServer
  unfolding send_presence
  new_provider_server log listen files id host port prv_key pub_key = do
    log
    let p = provider_of files id host port prv_key pub_key
    send_presence p
    listen (enc.join_host_port host port)
    ok p

-- The provider of the tests, on the key pair that is generated.
unfoldable pub create_test_provider :
    Result (Unit {0}) → FileSystem → Result (PrivateKey × PublicKey) → Result ProviderServer
create_test_provider log files pair = do
  (priv, pub_key) ← pair
  log
  ok (provider_of files [] (bytes "localhost") (bytes "9999") priv pub_key)
