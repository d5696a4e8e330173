-- ===== src/Examples/Parties.antt =====
-- A client and its provider, with an inbox that holds a message and a cover message.
use loopix_messaging.Prelude.{
  true, equal, arith, ◌≡◌, refl, List, [], ◌∷◌, ◌++◌, some, Bytes, bytes, replicate, false,
}
use loopix_messaging.Messages.{MixConfig, ClientConfig}
use loopix_messaging.Prelude.Maps.{lookup, bytes_key}
use loopix_messaging.Provider.{ProviderServer, ClientRecord, inbox_path, authenticate_user}
use loopix_messaging.Provider.Inboxes.{Directory, Faults, name_lt}
use loopix_messaging.Provider.Names.{IsSorted}
use loopix_messaging.Provider.Mail.{IsQuiet, AllSorted}
use loopix_messaging.Client.{NetClient, loop_load}
use loopix_messaging.Examples.Codecs.{pack}
use loopix_messaging.Examples.Toy.{point, toy_encoding}

abbrev pub provider_config : MixConfig
provider_config = record {
  id = bytes "P";
  host = bytes "127.0.0.1";
  port = bytes "9997";
  pub_key = point 21;
  layer = 1000000;
}

abbrev pub bob_config : ClientConfig
bob_config = record {
  id = point 2;
  host = bytes "127.0.0.1";
  port = bytes "9998";
  pub_key = point 2;
  provider = some provider_config;
}

abbrev pub bob : NetClient
bob = record {
  core = record {
    pub_key = record { raw = point 2 };
    prv_key = record { raw = point 2 };
    provider = provider_config;
    network = record { last_updated = 0; mixes = []; clients = [] };
  };
  config = bob_config;
  token = bytes "token";
  received_messages = bytes "old" ∷ [];
  halted = false;
}

-- A message and a cover message, with 38 bytes before each.
abbrev stored : List Bytes
stored = (replicate 38 0 ++ bytes "Hello") ∷ (replicate 38 0 ++ loop_load) ∷ []

abbrev packed : Bytes → Bytes
packed content = pack ((0xc6 ∷ []) ∷ content ∷ [])

abbrev pub wrapped_stored : List Bytes
wrapped_stored =
    packed (replicate 38 0 ++ bytes "Hello") ∷ packed (replicate 38 0 ++ loop_load) ∷ []

abbrev pub pull_bytes : Bytes
pull_bytes = pack (bytes "token" ∷ point 2 ∷ [])

abbrev pub quiet_system : Faults
quiet_system = record {
  stat_fails = λ _. false;
  mkdir_fails = λ _. false;
  read_dir_fails = λ _. false;
  read_file_fails = λ _. false;
  remove_fails = λ _. false;
  create_fails = λ _. false;
  write_fails = λ _. false;
}

pub quiet_system-IsQuiet : IsQuiet quiet_system
quiet_system-IsQuiet = record {
  stat = λ _. refl;
  mkdir = λ _. refl;
  list = λ _. refl;
  read = λ _. refl;
  unlink = λ _. refl;
  create = λ _. refl;
  write = λ _. refl;
}

-- An inbox with a message and a cover message.
abbrev pub inbox : Directory
inbox =
    (bytes "TMP_MESSAGE_a.txt", replicate 38 0 ++ bytes "Hello")
    ∷ (bytes "TMP_MESSAGE_b.txt", replicate 38 0 ++ loop_load)
    ∷ []

abbrev bob_record : ClientRecord
bob_record = record {
  id = point 2;
  host = bytes "127.0.0.1";
  port = bytes "9998";
  pub_key = point 2;
  auth_token = bytes "token";
}

abbrev pub provider : ProviderServer
provider = record {
  mix = record { pub_key = record { raw = point 21 }; prv_key = record { raw = point 21 } };
  id = bytes "P";
  host = bytes "127.0.0.1";
  port = bytes "9997";
  assigned_clients = (point 2, bob_record) ∷ [];
  config = provider_config;
  files = (inbox_path (point 2), inbox) ∷ [];
  halted = false;
}

pub inbox-IsSorted : IsSorted inbox
unfolding name_lt
inbox-IsSorted = ((refl, tt), (tt, tt))

one_inbox : (path : Bytes) (d : Directory) → lookup path provider.files ≡ some d → d ≡ inbox
unfolding lookup
one_inbox path d h = ground arith

pub provider-AllSorted : AllSorted provider
provider-AllSorted path d h = rw (one_inbox path d h) inbox-IsSorted

pub bob_inbox : lookup (inbox_path (point 2)) provider.files ≡ some inbox
unfolding lookup equal
bob_inbox = refl

pub bob_known : authenticate_user toy_encoding (point 2) (bytes "token") provider ≡ true
unfolding authenticate_user lookup equal
bob_known = refl
