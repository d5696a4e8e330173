-- ===== src/Examples/Mail.antt =====
-- The theorems on mail, for a client and its provider.
use loopix_messaging.Prelude.{
  true, equal, if◌then◌else◌, arith, ◌≡◌, refl, List, [], ◌∷◌, ◌++◌, some, Bytes, bytes, ok, All,
  replicate, false,
}
use loopix_messaging.Messages.{PullRequest}
use loopix_messaging.Config.{wrap_with_flag}
use loopix_messaging.Topology.{MixProviderPresence, get_client_pki}
use loopix_messaging.Topology.Clients.{IsReachable, get_client_pki-IsReachable}
use loopix_messaging.Prelude.Maps.{lookup, remove, bytes_key}
use loopix_messaging.Provider.{
  ProviderServer, Signal, inbox_path, record_of, store_message, fetch_messages, authenticate_user,
  register_new_client, handle_pull_request, fetch_files,
}
use loopix_messaging.Provider.Inboxes.{Directory, Faults, dir_exists, read_dir, write_file}
use loopix_messaging.Provider.Mail.{
  Wraps, AllSorted, contents, store_message-stores, fetch_messages-all,
}
use loopix_messaging.Provider.Access.{
  HasInbox, handle_pull_request-authentic, register_new_client-accepts,
}
use loopix_messaging.Provider.Connections.{Handled, handle_connection}
use loopix_messaging.Client.{register_token, send_register_message_to_provider}
use loopix_messaging.Client.Registering.{send_register_message_to_provider-registers}
use loopix_messaging.Prelude.{err}
use loopix_messaging.Provider.{file_path}
use loopix_messaging.Provider.Inboxes.{io_error}
use loopix_messaging.Provider.Losses.{fetch_messages-loses}
use loopix_messaging.Client.Arrival.{get_messages_from_provider-arrives}
use loopix_messaging.Client.Pulling.{ask, get_messages_from_provider-pulls}
use loopix_messaging.Client.{get_messages_from_provider, loop_load}
use loopix_messaging.Client.Fetching.{kept}
use loopix_messaging.Examples.Codecs.{pack}
use loopix_messaging.Examples.Toy.{
  toy_library, toy_library-IsLawful, toy_library-IsProtobuf, point, toy_wire, toy_wire-IsWire,
  toy_encoding,
}
use loopix_messaging.Examples.Parties.{
  bob_config, bob, wrapped_stored, pull_bytes, quiet_system, quiet_system-IsQuiet, inbox, provider,
  inbox-IsSorted, provider-AllSorted, bob_inbox, bob_known,
}

abbrev presences : List MixProviderPresence
presences =
    record {
      pub_key = point 21;
      host = bytes "127.0.0.1:9997";
      registered_clients = record { pub_key = point 2 } ∷ [];
    }
    ∷ []

get_client_pki-IsReachable_example :
    All (IsReachable toy_encoding) (get_client_pki toy_encoding presences)
get_client_pki-IsReachable_example = get_client_pki-IsReachable toy_encoding presences

store_message-stores_example :
    (p' : ProviderServer) × (store_message quiet_system
        (bytes "third")
        (point 2)
        (bytes "TMP_MESSAGE_c")
        provider
      ≡ (ok tt, p'))
    × (p' ≡ record provider { files = p'.files })
    × AllSorted p'
    × ((path : Bytes)
        → lookup path p'.files ≡ (
            if equal (inbox_path (point 2)) path
            then some (write_file (bytes "TMP_MESSAGE_c.txt") (bytes "third") inbox)
            else lookup path provider.files))
store_message-stores_example =
    store_message-stores quiet_system quiet_system-IsQuiet (bytes "third") (point 2)
      (bytes "TMP_MESSAGE_c") provider inbox provider-AllSorted bob_inbox

fetch_messages-all_example :
    (signal : Signal) × (wrapped : List Bytes) × (p' : ProviderServer) × (fetch_messages
        quiet_system toy_wire
        (point 2)
        provider
      ≡ (ok (signal, wrapped), p'))
    × Wraps toy_wire (contents inbox) wrapped
    × (lookup (inbox_path (point 2)) p'.files ≡ some [])
    × AllSorted p'
fetch_messages-all_example =
    fetch_messages-all quiet_system quiet_system-IsQuiet toy_wire toy_wire-IsWire (point 2) provider
      inbox provider-AllSorted bob_inbox

abbrev pull_packet : Bytes
pull_packet = pack ((0xff ∷ []) ∷ pull_bytes ∷ [])

get_messages_from_provider-pulls_example :
    (handled : Handled toy_wire) × (handle_connection toy_wire toy_encoding quiet_system toy_library
        (ok pull_packet)
        provider
      ≡ ok handled)
    × (lookup (inbox_path (point 2)) handled.provider.files ≡ some [])
    × (get_messages_from_provider toy_wire
          (ask toy_encoding quiet_system toy_wire toy_library provider)
          bob
        ≡ ok (record bob { received_messages = bob.received_messages ++ kept (contents inbox) }))
unfolding wrap_with_flag
get_messages_from_provider-pulls_example =
    get_messages_from_provider-pulls toy_encoding quiet_system toy_wire toy_library
      quiet_system-IsQuiet toy_wire-IsWire bob provider inbox pull_bytes pull_packet bob_known
      provider-AllSorted bob_inbox refl refl (omega arith)

abbrev no_bytes : Bytes
no_bytes = []

answered :
    (handle_pull_request toy_encoding quiet_system toy_wire pull_bytes provider).0
    ≡ ok wrapped_stored
unfolding handle_pull_request authenticate_user lookup equal fetch_messages fetch_files dir_exists
    read_dir remove wrap_with_flag
answered = refl

handle_pull_request-authentic_example :
    (request : PullRequest) × (toy_wire.pull_request.unmarshal pull_bytes ≡ ok request)
    × ((record_of request.client_public_key provider).auth_token ≡ request.token)
    × ((record_of request.client_public_key provider).pub_key ≡ request.client_public_key)
unfolding handle_pull_request
handle_pull_request-authentic_example =
    handle_pull_request-authentic toy_encoding quiet_system toy_wire pull_bytes provider
      wrapped_stored answered

abbrev bob_bytes : Bytes
bob_bytes = pack (
    point 2
    ∷ bytes "127.0.0.1"
    ∷ bytes "9998"
    ∷ point 2
    ∷ bytes "P"
    ∷ bytes "127.0.0.1"
    ∷ bytes "9997"
    ∷ point 21
    ∷ (1000000 ∷ [])
    ∷ [])

register_new_client-accepts_example :
    (client_token : Bytes) × (p' : ProviderServer) × (register_new_client toy_encoding quiet_system
        toy_wire toy_library bob_bytes provider
      ≡ (ok client_token, p'))
    × (authenticate_user toy_encoding (point 2) client_token p' ≡ true)
    × AllSorted p'
    × HasInbox toy_encoding quiet_system quiet_system-IsQuiet toy_wire toy_library
        (inbox_path (point 2))
        provider
        p'
register_new_client-accepts_example =
    register_new_client-accepts toy_encoding quiet_system quiet_system-IsQuiet toy_wire toy_library
      bob_bytes bob_config provider provider-AllSorted refl

abbrev empty_provider : ProviderServer
empty_provider = record provider { files = (inbox_path (point 2), []) ∷ [] }

empty_provider-AllSorted : AllSorted empty_provider
unfolding lookup
empty_provider-AllSorted path d h = rw (only_empty path d h) tt
  where
    only_empty : (path : Bytes) (d : Directory) → lookup path empty_provider.files ≡ some d → d ≡ []
    only_empty path d h = ground arith

bob_empty : lookup (inbox_path (point 2)) empty_provider.files ≡ some []
unfolding lookup equal
bob_empty = refl

bob_still_known : authenticate_user toy_encoding (point 2) (bytes "token") empty_provider ≡ true
unfolding authenticate_user lookup equal
bob_still_known = refl

not_cover : equal (bytes "Hello") loop_load ≡ false
unfolding equal
not_cover = refl

-- What a route leaves of a short message.
abbrev hello_final : Bytes
hello_final = 10 ∷ 34 ∷ 10 ∷ 32 ∷ (point 9 ++ (18 ∷ 5 ∷ bytes "Hello"))

get_messages_from_provider-arrives_example :
    (p' : ProviderServer) × (store_message quiet_system hello_final
        (point 2)
        (bytes "TMP_MESSAGE_c")
        empty_provider
      ≡ (ok tt, p'))
    × (get_messages_from_provider toy_wire
          (ask toy_encoding quiet_system toy_wire toy_library p')
          bob
        ≡ ok (record bob { received_messages = bob.received_messages ++ (bytes "Hello" ∷ []) }))
unfolding wrap_with_flag equal
get_messages_from_provider-arrives_example =
    get_messages_from_provider-arrives toy_encoding quiet_system quiet_system-IsQuiet toy_wire
      toy_wire-IsWire toy_library toy_library-IsLawful toy_library-IsProtobuf bob empty_provider
      hello_final (bytes "Hello") (bytes "TMP_MESSAGE_c") pull_bytes pull_packet
      (record { alpha = point 9; beta = []; mac = [] }, refl, refl, refl, refl, refl) (omega arith)
      (omega arith) not_cover bob_still_known empty_provider-AllSorted bob_empty refl refl
      (omega arith)

abbrev assign_packet : Bytes
assign_packet = pack ((0xa2 ∷ []) ∷ bob_bytes ∷ [])

send_register_message_to_provider-registers_example :
    (handled : Handled toy_wire) × (new_token : Bytes) × (handle_connection toy_wire toy_encoding
        quiet_system toy_library
        (ok assign_packet)
        provider
      ≡ ok handled)
    × (send_register_message_to_provider toy_wire
          (ask toy_encoding quiet_system toy_wire toy_library provider)
          bob
        ≡ ok (register_token new_token bob))
    × (authenticate_user toy_encoding (point 2) new_token handled.provider ≡ true)
    × AllSorted handled.provider
unfolding wrap_with_flag
send_register_message_to_provider-registers_example =
    send_register_message_to_provider-registers toy_encoding quiet_system toy_wire toy_library
      toy_wire-IsWire quiet_system-IsQuiet bob provider bob_bytes assign_packet provider-AllSorted
      refl refl refl (omega arith)

-- A system that cannot read the second file of the inbox.
abbrev broken_system : Faults
broken_system = record quiet_system {
  read_file_fails =
      λ path. equal path (file_path (inbox_path (point 2)) (bytes "TMP_MESSAGE_b.txt"));
}

fetch_messages-loses_example :
    (p' : ProviderServer) × (fetch_messages broken_system toy_wire (point 2) provider
      ≡ (err io_error, p'))
    × (lookup (inbox_path (point 2)) p'.files
        ≡ some ((bytes "TMP_MESSAGE_b.txt", replicate 38 0 ++ loop_load) ∷ []))
unfolding equal
fetch_messages-loses_example =
    fetch_messages-loses broken_system toy_wire toy_wire-IsWire (point 2)
      (bytes "TMP_MESSAGE_a.txt") (replicate 38 0 ++ bytes "Hello") (bytes "TMP_MESSAGE_b.txt")
      (replicate 38 0 ++ loop_load) [] provider bob_inbox inbox-IsSorted refl refl refl refl refl
