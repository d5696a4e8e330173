-- ===== src/Examples/Machines.antt =====
-- The theorems on configurations, the directory server and benchmarks, on one machine.
use loopix_messaging.Prelude.{
  panic, Option, invalid_pem_type, copy_to, drop, take, replicate, ◌≤◌, ◌≡◌, ◌↔◌, inr, refl, List,
  [], ◌∷◌, ◌++◌, Bool, true, false, none, some, Bytes, bytes, ok, err, ◌>>=◌, arith, library,
  length, ◌==◌, equal, if◌then◌else◌,
}
use loopix_messaging.Client.Config.{
  Platform, Client, Config, load_file, validate_and_apply_defaults, private_key_file,
  public_key_file, full_mix_apps_dir, default_log_level, default_logging_config,
}
use loopix_messaging.Client.Config.Defaults.{IsPlatform, IsComplete}
use loopix_messaging.Client.Config.Loading.{only_id, load_file-IsComplete}
use loopix_messaging.Helpers.Directory.{
  Addresses, Directory, register_mix_node_presence, send_mix_metrics,
  register_mix_provider_presence, mix_presence, mix_metrics, provider_presence,
}
use loopix_messaging.Helpers.Directory.Endpoints.{error_text, directory-unsplit}
use loopix_messaging.Helpers.Pem.{
  Pem, present, to_pem_file, from_pem_file, private_key_pem_type, public_key_pem_type,
}
use loopix_messaging.Helpers.Pem.Keys.{IsPem, from_pem_file-to_pem_file}
use loopix_messaging.Flags.{packet_flag_from_bytes, sphinx_flag_from_bytes}
use loopix_messaging.Node.{process_packet}
use loopix_messaging.Sphinx.Crypto.{xor_key_stream, kdf, compute_mac, aes_ctr}
use loopix_messaging.Sphinx.Curve.{
  bytes_to_field_element, private_key_to_field_element, marshal_private_key, unmarshal_private_key,
  marshal_public_key, unmarshal_public_key,
}
use loopix_messaging.Sphinx.Packing.{compute_blinding_factor}
use loopix_messaging.Sphinx.Processing.{
  process_sphinx_packet, process_sphinx_header, process_sphinx_payload, read_beta,
}
use loopix_messaging.Examples.Codecs.{pack, unpack, unpack-pack}
use loopix_messaging.Bench.{BenchProvider, new_bench_provider, handle_connection}
use loopix_messaging.Bench.Done.{handle_all-done}
use loopix_messaging.Examples.Toy.{toy_library, toy_wire, point}
use loopix_messaging.Examples.Parties.{provider}

-- Paths that are absolute where they start with a slash, and joined with one.
abbrev starts_with_slash : Bytes → Bool
starts_with_slash [] = false
starts_with_slash (x ∷ p) = x == 47

abbrev join_paths : List Bytes → Bytes
join_paths [] = []
join_paths (p ∷ []) = p
join_paths (p ∷ q ∷ ps) = p ++ (47 ∷ join_paths (q ∷ ps))

abbrev file : Config
file = record { client = some (only_id (bytes "bob")); logging = none; debug = none }

abbrev pub unix : Platform Config
unix = record {
  is_abs = starts_with_slash;
  join = join_paths;
  expand_env = λ p. bytes "/root" ++ drop 5 p;
  parse_level = λ level. if equal level default_log_level then ok tt else err (library 1);
  decode = λ b. ok file;
  clean = λ p. p;
}

pub unix-IsPlatform : IsPlatform unix
unfolding equal
unix-IsPlatform = record {
  is_abs_empty = refl;
  is_abs_home = refl;
  is_abs-join = absolute;
  join_nonempty = nonempty;
  parse_level_default = refl;
}
  where
    absolute :
        (p : Bytes) (ps : List Bytes)
        → starts_with_slash p ≡ true
        → starts_with_slash (join_paths (p ∷ ps)) ≡ true
    absolute [] ps h = cc
    absolute (x ∷ p) [] h = h
    absolute (x ∷ p) (q ∷ ps) h = h

    nonempty :
        (p : Bytes) (ps : List Bytes)
        → (length p == 0) ≡ false
        → (length (join_paths (p ∷ ps)) == 0) ≡ false
    nonempty [] ps h = cc
    nonempty (x ∷ p) [] h = h
    nonempty (x ∷ p) (q ∷ ps) h = ground arith

abbrev loaded : Config
loaded = record {
  client = some (record {
    home_directory = bytes "/root/.nym/clients";
    id = bytes "bob";
    directory_server_topology_endpoint =
        bytes "https://directory.nymtech.net/api/presence/topology";
    mix_apps_directory = bytes "mixapps";
    private_key = bytes "config/private_key.pem";
    public_key = bytes "config/public_key.pem";
    provider_id = [];
  });
  logging =
      some (record { disable = false; file = bytes "/tmp/nym_bob.log"; level = bytes "info" });
  debug = some (record {
    loop_cover_traffic_rate = 4621819117588971520;
    fetch_message_rate = 4621819117588971520;
    message_sending_rate = 4621819117588971520;
    rate_compliant_cover_messages_disabled = false;
  });
}

load_file-IsComplete_example :
    IsComplete unix loaded
    × (validate_and_apply_defaults unix loaded ≡ ok loaded)
    × ((c : Client)
        → loaded.client ≡ some c
        → (starts_with_slash (private_key_file unix c) ≡ true)
          × (starts_with_slash (public_key_file unix c) ≡ true)
          × (starts_with_slash (full_mix_apps_dir unix c) ≡ true))
unfolding load_file equal default_logging_config
load_file-IsComplete_example =
    load_file-IsComplete unix unix-IsPlatform (λ f. ok []) (bytes "config.toml") loaded refl

-- Nothing splits.
abbrev addresses : Addresses
addresses = record {
  split_host_port = λ host. inr (error_text host (bytes "missing port in address"));
  is_loopback = λ host. true;
  resolve_tcp_addr = λ address. ok address;
}

abbrev directory : Directory
directory = record { marshal = λ values. ok []; encode = λ key. key; post = λ url body. ok tt }

directory-unsplit_example :
    (register_mix_node_presence addresses directory [] 1 (bytes "localhost" ∷ []) ≡ (
      directory.marshal (mix_presence [] 1 (some (bytes "localhost")))
      >>= directory.post (bytes "https://directory.nymtech.net/api/presence/mixnodes")))
    × (send_mix_metrics addresses directory [] [] 5 (bytes "localhost" ∷ []) ≡ (
        directory.marshal (mix_metrics [] [] 5)
        >>= directory.post (bytes "https://directory.nymtech.net/api/metrics/mixes")))
    × (register_mix_provider_presence addresses directory [] [] (bytes "localhost" ∷ []) ≡ (
        directory.marshal (provider_presence [] [] (some (bytes "localhost")))
        >>= directory.post (bytes "https://directory.nymtech.net/api/presence/mixproviders")))
directory-unsplit_example =
    directory-unsplit addresses directory [] (bytes "localhost") (bytes "missing port in address") 1
      5 [] [] refl

-- A packet for the recipient of the benchmark, encrypted for the provider's key and the element 5.
abbrev bench_beta : Bytes
bench_beta =
    24 ∷ 27 ∷ 95 ∷ 123 ∷ 113 ∷ 123 ∷ 73 ∷ 79 ∷ 64 ∷ 80 ∷ 72 ∷ 97 ∷ 75 ∷ 77 ∷ 78 ∷ 70 ∷ 95 ∷ 120 ∷ 74
    ∷ 73 ∷ 68 ∷ 94 ∷ 90 ∷ 87 ∷ 93 ∷ 70 ∷ 52 ∷ 53 ∷ 54 ∷ 54 ∷ 201 ∷ 57 ∷ 58 ∷ 59 ∷ []

abbrev bench_packet : Bytes
bench_packet =
    1
    ∷ pack (
        point 5
        ∷ bench_beta
        ∷ ((26 ∷ replicate 15 0) ++ take 16 bench_beta)
        ∷ (110 ∷ 126 ∷ 111 ∷ 105 ∷ 83 ∷ 122 ∷ 83 ∷ 82 ∷ 67 ∷ 68 ∷ 65 ∷ [])
        ∷ [])

abbrev finished : BenchProvider
finished = record {
  provider = provider;
  done = true;
  num_messages = 1;
  received_messages = record { content = bytes "testMessage"; timestamp = 6 } ∷ [];
  received_messages_count = 1;
}

handle_all-done_example :
    (finished.received_messages_count ≡ length finished.received_messages)
    × ((finished.done ≡ true) ↔ (1 ≤ length finished.received_messages))
unfolding new_bench_provider handle_connection process_packet process_sphinx_packet xor_key_stream
    equal packet_flag_from_bytes process_sphinx_header bytes_to_field_element
    private_key_to_field_element kdf copy_to compute_mac compute_blinding_factor aes_ctr read_beta
    process_sphinx_payload sphinx_flag_from_bytes
handle_all-done_example =
    handle_all-done toy_library toy_wire
      ((5, err (library 0)) ∷ (6, ok (pack ((0xc6 ∷ []) ∷ bench_packet ∷ []))) ∷ []) provider 1
      finished (omega arith) (omega arith) refl

-- A file whose first line is the type, in bytes that are one higher, and whose second is the block.
abbrev block_of : List Bytes → Option (Bytes × Bytes) × Bytes
block_of (t ∷ b ∷ []) = (some (t, b), [])
block_of _ = (none, [])

abbrev pub toy_pem : Pem
toy_pem = record {
  encode_to_memory = λ t b. pack (t ∷ b ∷ []);
  decode = λ file. block_of (unpack file);
}

pub toy_pem-IsPem : IsPem toy_pem
toy_pem-IsPem = record {
  decode-encode_to_memory = λ t b. rw (unpack-pack (t ∷ b ∷ [])) refl;
  decode_empty = refl;
}

abbrev old_key : Bytes
old_key = replicate 32 0

from_pem_file-to_pem_file_example :
    (file : Bytes) × (pub_file : Bytes) × (to_pem_file toy_pem marshal_private_key
        (λ b. ok tt)
        private_key_pem_type
        (record { raw = point 7 })
      ≡ ok file)
    × (to_pem_file toy_pem marshal_public_key
          (λ b. ok tt)
          public_key_pem_type
          (record { raw = point 8 })
        ≡ ok pub_file)
    × (from_pem_file toy_pem unmarshal_private_key
          (present file)
          private_key_pem_type
          (record { raw = old_key })
        ≡ ok (record { raw = point 7 }))
    × (from_pem_file toy_pem unmarshal_public_key
          (present pub_file)
          public_key_pem_type
          (record { raw = old_key })
        ≡ ok (record { raw = point 8 }))
    × (from_pem_file toy_pem unmarshal_private_key
          (present pub_file)
          private_key_pem_type
          (record { raw = old_key })
        ≡ err invalid_pem_type)
    × (from_pem_file toy_pem unmarshal_private_key
          (present [])
          private_key_pem_type
          (record { raw = old_key })
        ≡ panic)
from_pem_file-to_pem_file_example =
    from_pem_file-to_pem_file toy_pem toy_pem-IsPem (record { raw = point 7 })
      (record { raw = old_key }) (record { raw = point 8 }) (record { raw = old_key }) (λ b. ok tt)
      refl refl (λ b. refl)
