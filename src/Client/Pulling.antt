-- ===== src/Client/Pulling.antt =====
-- A client that pulls its messages from its provider, both sides together.
use loopix_messaging.Prelude.{
  ◌≡◌, ◌≤◌, refl, List, [], ◌++◌, some, none, true, Bytes, ok, ◌>>=◌, length, take_all,
}
use loopix_messaging.Prelude.Maps.{lookup, bytes_key}
use loopix_messaging.Flags.{pull, packet_flag_from_bytes}
use loopix_messaging.Config.{wrap_with_flag}
use loopix_messaging.Wire.{Wire, IsWire}
use loopix_messaging.Topology.{Encoding}
use loopix_messaging.Network.{buffer_size}
use loopix_messaging.Sphinx.Library.{Library}
use loopix_messaging.Provider.Inboxes.{Directory, Faults}
use loopix_messaging.Provider.{ProviderServer, inbox_path, authenticate_user, handle_pull_request}
use loopix_messaging.Provider.Mail.{IsQuiet, Wraps, AllSorted, contents, fetch_messages-all}
use loopix_messaging.Provider.Connections.{
  create_client_response, Handled, reply_with, handle_packet, handle_connection,
}
use loopix_messaging.Client.{NetClient, Exchange, get_messages_from_provider}
use loopix_messaging.Client.Fetching.{kept, get_messages-kept}

module _ (enc : Encoding) (os : Faults) (wire : Wire) (lib : Library) where
  -- What the client reads on a connection to the provider: nothing where there is no reply.
  abbrev pub ask : ProviderServer → Exchange
  ask p packet host port = do
    handled ← handle_connection wire enc os lib (ok packet) p
    elim handled.reply [ none ↦ ok [] | some answer ↦ ok answer ]

  module _ (quiet : IsQuiet os) (law : IsWire wire) where
    handle_pull_request-all :
        (c : NetClient) (p : ProviderServer) (d : Directory) (request : Bytes)
        → authenticate_user enc c.core.pub_key.raw c.token p ≡ true
        → AllSorted p
        → lookup (inbox_path (enc.encode c.core.pub_key.raw)) p.files ≡ some d
        → wire.pull_request.marshal
            (record { token = c.token; client_public_key = c.core.pub_key.raw })
          ≡ ok request
        → (wrapped : List Bytes) × (p' : ProviderServer) × (handle_pull_request enc os wire request
              p
            ≡ (ok wrapped, p'))
          × Wraps wire (contents d) wrapped
          × (lookup (inbox_path (enc.encode c.core.pub_key.raw)) p'.files ≡ some [])
          × AllSorted p'
    unfolding handle_pull_request
    handle_pull_request-all c p d request known sorted at asked =
        let (signal, wrapped, p', fetched, w, empty, sorted') =
          fetch_messages-all os quiet wire law (enc.encode c.core.pub_key.raw) p d sorted at in
        (
          wrapped,
          p',
          rw
              (
                law.pull_request_codec.unmarshal-marshal _ request asked,
                handle_pull_request,
                known,
                fetched,
              )
              refl,
          w,
          empty,
          sorted',
        )

    -- The provider answers a pull request of a client that it knows with all of the inbox.
    handle_connection-pull :
        (p p' : ProviderServer) (request packet answer : Bytes) (wrapped : List Bytes)
        → wrap_with_flag wire.general_packet pull request ≡ ok packet
        → length packet ≤ buffer_size
        → handle_pull_request enc os wire request p ≡ (ok wrapped, p')
        → create_client_response wire wrapped ≡ ok answer
        → handle_connection wire enc os lib (ok packet) p
          ≡ ok (record { provider = p'; reply = some answer; spawned = none })
    unfolding handle_connection handle_packet reply_with wrap_with_flag packet_flag_from_bytes
    handle_connection-pull p p' request packet answer wrapped sent fits handled made =
        rw
          (
            take_all buffer_size packet fits,
            law.general_packet_codec.unmarshal-marshal _ packet sent,
            handle_connection,
            handled,
            made,
            reply_with,
          )
          refl

    -- A client whose token its provider accepts, with a request that fits the provider's buffer,
    -- pulls its messages where the operating system does not fail: it keeps every message of its
    -- inbox, stripped, in the order of the names, without the cover messages, and the provider is
    -- left with an empty inbox.
    pub get_messages_from_provider-pulls :
        (c : NetClient) (p : ProviderServer) (d : Directory) (request packet : Bytes)
        → authenticate_user enc c.core.pub_key.raw c.token p ≡ true
        → AllSorted p
        → lookup (inbox_path (enc.encode c.core.pub_key.raw)) p.files ≡ some d
        → wire.pull_request.marshal
            (record { token = c.token; client_public_key = c.core.pub_key.raw })
          ≡ ok request
        → wrap_with_flag wire.general_packet pull request ≡ ok packet
        → length packet ≤ buffer_size
        → (handled : Handled wire) × (handle_connection wire enc os lib (ok packet) p ≡ ok handled)
          × (lookup (inbox_path (enc.encode c.core.pub_key.raw)) handled.provider.files ≡ some [])
          × (get_messages_from_provider wire (ask p) c
              ≡ ok (record c { received_messages = c.received_messages ++ kept (contents d) }))
    unfolding create_client_response
    get_messages_from_provider-pulls c p d request packet known sorted at asked sent fits =
        let (wrapped, p', handled, w, empty, sorted') =
          handle_pull_request-all c p d request known sorted at asked in
        let (answer, made) = law.provider_response_codec.marshal_total _ refl in
        let connected =
          handle_connection-pull p p' request packet answer wrapped sent fits handled made in
        (
          record { provider = p'; reply = some answer; spawned = none },
          connected,
          empty,
          get_messages-kept wire law (ask p) c (contents d) wrapped request packet answer asked sent
              w made (rw connected refl),
        )
