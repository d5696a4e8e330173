-- ===== src/Cmd/Provider.antt =====
-- cmd/nym-mixnet-provider/run.go and cmd/nym-mixnode/run.go: a provider and a mix node as programs.
pub mod Keys
use loopix_messaging.Prelude.{
  ℕ, List, [], ◌==◌, Option, none, some, Bytes, bytes, Error, Result, ok, err, panic, ◌>>=◌, ◌>>◌,
  guard, must, length, replicate, ltb, library, usage_error, if◌then◌else◌,
}
use loopix_messaging.Prelude.Maps.{lookup, bytes_key}
use loopix_messaging.Topology.{Encoding}
use loopix_messaging.Helpers.Directory.{Addresses, Directory, Addr, get_local_ip}
use loopix_messaging.Helpers.Pem.{Pem, private_key_pem_type, public_key_pem_type}
use loopix_messaging.Sphinx.Curve.{
  PrivateKey, PublicKey, unmarshal_private_key, unmarshal_public_key, generate_key_pair,
}
use loopix_messaging.Sphinx.Library.{Library}
use loopix_messaging.Provider.{ProviderServer}
use loopix_messaging.Provider.Inboxes.{FileSystem}
use loopix_messaging.Provider.Lifecycle.{new_provider_server}
use loopix_messaging.Mixnode.{MixServer}
use loopix_messaging.Mixnode.Lifecycle.{new_mix_server}
use loopix_messaging.Cmd.{Files, save_pair, load_pem}

abbrev pub default_private_key_file : Bytes
default_private_key_file = bytes "privateKey.key"

abbrev pub default_public_key_file : Bytes
default_public_key_file = bytes "publicKey.key"

-- `new(PrivateKey)`
abbrev pub zero_private_key : PrivateKey
zero_private_key = record { raw = replicate 32 0 }

abbrev pub zero_public_key : PublicKey
zero_public_key = record { raw = replicate 32 0 }

-- `os.Stat`, whose error on a file that is not there is handed back.
abbrev pub stat : Files → Bytes → Result (Unit {0})
stat files path = elim (lookup path files) [ none ↦ err (library 3) | some b ↦ ok tt ]

-- A host that is too short for an address is replaced by the machine's own.
unfoldable pub host_or : Bytes → Bytes → Bytes
host_or ip host = if ltb (length host) 7 then ip else host

module _ (pem : Pem) where
  unfoldable pub load_keys : Files → Result (PrivateKey × PublicKey)
  load_keys files = do
    stat files default_private_key_file
    stat files default_public_key_file
    prv_key ←
        load_pem pem unmarshal_private_key files default_private_key_file private_key_pem_type
          zero_private_key
    pub_key ←
        load_pem pem unmarshal_public_key files default_public_key_file public_key_pem_type
          zero_public_key
    ok (prv_key, pub_key)

  unfoldable pub save_keys :
      (Bytes → Result (Unit {0})) → PrivateKey → PublicKey → Files → Result Files
  save_keys write priv_p pub_p files =
      save_pair pem write default_private_key_file default_public_key_file priv_p pub_p files

  -- A new pair of keys, which is saved.
  abbrev pub make_keys :
      Library
      → (Bytes → Result (Unit {0}))
      → Result Bytes
      → Files
      → Result ((PrivateKey × PublicKey) × Files)
  make_keys lib write random files = do
    (priv_p, pub_p) ← generate_key_pair lib random
    files' ← save_keys write priv_p pub_p files
    ok ((priv_p, pub_p), files')

  -- The keys of a provider: those of its files, or else a new pair, which is saved.
  unfoldable pub own_keys :
      Library
      → (Bytes → Result (Unit {0}))
      → Result Bytes
      → Files
      → Result ((PrivateKey × PublicKey) × Files)
  own_keys lib write random files = elim (load_keys files) [
    | ok keys ↦ ok (keys, files)
    | err e ↦ make_keys lib write random files
    | panic ↦ panic
  ]

-- The flags of a command, and what is left of its arguments.
pub record RunOptions : Type 0 where
  pub id : Bytes
  pub host : Bytes
  pub port : Bytes
  pub params : List Bytes

module _ (net : Addresses) (d : Directory) (enc : Encoding) (lib : Library) where
  -- `cmdRun` of the provider up to its start, on what making the logger, listening, the interfaces
  -- of the machine and the random source give.
  unfoldable pub run_provider :
      Pem
      → (Bytes → Result (Unit {0}))
      → Result (Unit {0})
      → (Bytes → Result (Unit {0}))
      → Result (List (Result (List Addr)))
      → Result Bytes
      → FileSystem
      → RunOptions
      → Files
      → Result (ProviderServer × Files)
  run_provider pem write log listen interfaces random inboxes opts files = do
    guard (length opts.params == 0) usage_error
    ip ← must (get_local_ip interfaces)
    ((priv_p, pub_p), files') ← own_keys pem lib write random files
    server ← must (
        new_provider_server net d enc log listen inboxes opts.id (host_or ip opts.host) opts.port
          priv_p pub_p)
    ok (server, files')

  -- `cmdRun` of the mix node. It gives the two keys each other's name; their order is right.
  unfoldable pub run_mixnode :
      Result (Unit {0})
      → (Bytes → Result (Unit {0}))
      → Result (List (Result (List Addr)))
      → Result Bytes
      → ℕ
      → RunOptions
      → Result MixServer
  run_mixnode log listen interfaces random layer opts = do
    guard (length opts.params == 0) usage_error
    ip ← must (get_local_ip interfaces)
    (pub_m, priv_m) ← must (generate_key_pair lib random)
    must (
        new_mix_server net d enc log listen opts.id (host_or ip opts.host) opts.port pub_m priv_m
          layer)
