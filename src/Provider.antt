-- ===== src/Provider.antt =====
-- server/provider/providerServer.go: a provider, which relays packets and keeps inboxes.
pub mod Inboxes
pub mod Names
pub mod Mail
pub mod Access
pub mod Losses
pub mod Connections
pub mod Lifecycle
use loopix_messaging.Prelude.{
  ℕ, ◌+◌, List, [], ◌∷◌, ◌++◌, map, Bool, true, false, ◌&&◌, Option, none, some, Bytes, bytes,
  Error, Result, ok, err, panic, ◌>>=◌, take, length, equal, authentication_went_wrong,
  if◌then◌else◌,
}
use loopix_messaging.Prelude.Maps.{Map, lookup, insert, remove, bytes_key}
use loopix_messaging.Flags.{
  SphinxFlag, relay, last_hop, invalid_sphinx, PacketTypeFlag, assign, comm, token, pull,
  packet_flag_from_bytes,
}
use loopix_messaging.Messages.{
  MixConfig, ClientConfig, GeneralPacket, ProviderResponse, PullRequest,
}
use loopix_messaging.Config.{wrap_with_flag}
use loopix_messaging.Wire.{Wire}
use loopix_messaging.Helpers.{Random, random_string}
use loopix_messaging.Topology.{Encoding, RegisteredClient}
use loopix_messaging.Network.{Network, Sent, send, buffer_size}
use loopix_messaging.Node.{Mix, PacketProcessingResult, process_packet}
use loopix_messaging.Sphinx.Library.{Library}
use Inboxes.{Directory, FileSystem, Faults, io_error, write_file, dir_exists, mkdir_all, read_dir}

pub record ClientRecord : Type 0 where
  pub id : Bytes
  pub host : Bytes
  pub port : Bytes
  pub pub_key : Bytes
  pub auth_token : Bytes

pub record ProviderServer : Type 0 where
  pub mix : Mix
  pub id : Bytes
  pub host : Bytes
  pub port : Bytes
  pub assigned_clients : Map Bytes ClientRecord
  pub config : MixConfig
  -- the files under ./inboxes
  pub files : FileSystem
  -- whether `haltedCh` is closed
  pub halted : Bool

-- What a map gives for a missing key.
abbrev pub no_record : ClientRecord
no_record = record { id = []; host = []; port = []; pub_key = []; auth_token = [] }

abbrev pub record_of : Bytes → ProviderServer → ClientRecord
record_of client_id p = elim (lookup client_id p.assigned_clients) [ none ↦ no_record | some r ↦ r ]

-- `./inboxes/%s`
abbrev pub inbox_path : Bytes → Bytes
inbox_path id = bytes "./inboxes/" ++ id

unfoldable pub shutdown : ProviderServer → ProviderServer
shutdown p = record p { halted = true }

unfoldable pub convert_records_to_model_data : Encoding → ProviderServer → List RegisteredClient
convert_records_to_model_data enc p =
    map (λ e. record { pub_key = enc.encode e.1.pub_key }) p.assigned_clients

-- "NI", "EI" and "SI", which are only logged.
pub data Signal : Type 0 where
  no_inbox empty_inbox messages_sent : Signal

-- An operation that changes the provider also where it fails.
abbrev pub Action : Type 0 → Type 0
Action A = Result A × ProviderServer

-- `path/name`
abbrev pub file_path : Bytes → Bytes → Bytes
file_path path name = path ++ (bytes "/" ++ name)

module _ (os : Faults) where
  -- The inbox of the id has to be there: `os.Create` makes no directory.
  unfoldable pub store_message : Bytes → Bytes → Bytes → ProviderServer → Action (Unit {0})
  store_message message inbox_id message_id p =
      let path = inbox_path inbox_id in
      let name = message_id ++ bytes ".txt" in
      if os.create_fails (file_path path name)
      then (err io_error, p)
      else elim (lookup path p.files) [
        | none ↦ (err io_error, p)
        | some d ↦
            if os.write_fails (file_path path name)
            then (err io_error, record p { files = insert path (write_file name [] d) p.files })
            else (ok tt, record p { files = insert path (write_file name message d) p.files })
      ]

  module _ (wire : Wire) where
    -- The loop of `fetchMessages` over the files that were listed, on the directory as it is. A
    -- file that cannot be removed stays.
    unfoldable pub fetch_files : Bytes → Directory → Directory → Result (List Bytes) × Directory
    fetch_files path [] d = (ok [], d)
    fetch_files path ((name, content) ∷ rest) d =
        if os.read_file_fails (file_path path name)
        then (err io_error, d)
        else elim (wrap_with_flag wire.general_packet comm content) [
          | ok msg_bytes ↦
              let d' = if os.remove_fails (file_path path name) then d else remove name d in
              let (fetched, d'') = fetch_files path rest d' in
              (fetched >>= λ messages. ok (msg_bytes ∷ messages), d'')
          | err e ↦ (err e, d)
          | panic ↦ (panic, d)
        ]

    unfoldable pub fetch_messages : Bytes → ProviderServer → Action (Signal × List Bytes)
    fetch_messages client_id p =
        let path = inbox_path client_id in
        elim (dir_exists os p.files path) [
          | ok false ↦ (ok (no_inbox, []), p)
          | ok true ↦ elim (read_dir os p.files path) [
            | ok [] ↦ (ok (empty_inbox, []), p)
            | ok (f ∷ d) ↦
                let (fetched, d') = fetch_files path (f ∷ d) (f ∷ d) in
                (
                  fetched >>= λ messages. ok (messages_sent, messages),
                  record p { files = insert path d' p.files },
                )
            | err e ↦ (err e, p)
            | panic ↦ (panic, p)
          ]
          | err e ↦ (err e, p)
          | panic ↦ (panic, p)
        ]

module _ (enc : Encoding) where
  unfoldable pub authenticate_user : Bytes → Bytes → ProviderServer → Bool
  authenticate_user client_key client_token p =
      let r = record_of (enc.encode client_key) p in
      equal r.auth_token client_token && equal r.pub_key client_key

  module _ (os : Faults) (wire : Wire) where
    unfoldable pub handle_pull_request : Bytes → ProviderServer → Action (List Bytes)
    handle_pull_request rqs_bytes p = elim (wire.pull_request.unmarshal rqs_bytes) [
      | ok request ↦
          if authenticate_user request.client_public_key request.token p
          then (let (fetched, p') =
                fetch_messages os wire (enc.encode request.client_public_key) p in
              (fetched >>= λ m. ok m.1, p'))
          else (err authentication_went_wrong, p)
      | err e ↦ (err e, p)
      | panic ↦ (panic, p)
    ]

    module _ (lib : Library) where
      -- The token that a client with the given id gets.
      abbrev pub token_of : Bytes → Bytes
      token_of client_id = lib.sha256 (bytes "TMP_Token" ++ client_id)

      abbrev pub client_record : ClientConfig → ClientRecord
      client_record c = record {
        id = enc.encode c.pub_key;
        host = c.host;
        port = c.port;
        pub_key = c.pub_key;
        auth_token = token_of (enc.encode c.pub_key);
      }

      -- The part of `registerNewClient` after the record is stored.
      unfoldable pub make_inbox : Bytes → ProviderServer → Action (Unit {0})
      make_inbox path p = elim (dir_exists os p.files path) [
        | ok true ↦ (ok tt, p)
        | ok false ↦ elim (mkdir_all os p.files path) [
          | ok fs ↦ (ok tt, record p { files = fs })
          | err e ↦ (err e, p)
          | panic ↦ (panic, p)
        ]
        | err e ↦ (err e, p)
        | panic ↦ (panic, p)
      ]

      unfoldable pub register_new_client : Bytes → ProviderServer → Action Bytes
      unfolding make_inbox
      register_new_client client_bytes p = elim (wire.client_config.unmarshal client_bytes) [
        | ok client_conf ↦
            let client_id = enc.encode client_conf.pub_key in
            let registered = record p {
              assigned_clients = insert client_id (client_record client_conf) p.assigned_clients;
            } in
            let (made, p') = make_inbox (inbox_path client_id) registered in
            (made >>= λ _. ok (token_of client_id), p')
        | err e ↦ (err e, p)
        | panic ↦ (panic, p)
      ]

      unfoldable pub handle_assign_request : Bytes → ProviderServer → Action Bytes
      handle_assign_request packet p =
          let (made, p') = register_new_client packet p in
          (made >>= λ t. wrap_with_flag wire.general_packet token t, p')
