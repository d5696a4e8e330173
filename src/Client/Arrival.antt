-- ===== src/Client/Arrival.antt =====
-- A packet on its last steps: from the last provider's inbox to the recipient.
use loopix_messaging.Prelude.{
  ◌≡◌, ◌≤◌, ◌<◌, refl, ap, ◌∙◌, [], ◌∷◌, ◌++◌, some, true, false, Bytes, bytes, ok, length, equal,
  equal_refl,
}
use loopix_messaging.Prelude.Maps.{lookup, bytes_key}
use loopix_messaging.Flags.{pull}
use loopix_messaging.Config.{wrap_with_flag}
use loopix_messaging.Wire.{Wire, IsWire}
use loopix_messaging.Topology.{Encoding}
use loopix_messaging.Network.{buffer_size}
use loopix_messaging.Sphinx.Library.{Library, IsLawful}
use loopix_messaging.Sphinx.Delivery.{Delivered}
use loopix_messaging.Provider.Inboxes.{Faults, write_file}
use loopix_messaging.Provider.{ProviderServer, inbox_path, store_message, authenticate_user}
use loopix_messaging.Provider.Mail.{IsQuiet, AllSorted, contents, store_message-stores}
use loopix_messaging.Client.{NetClient, loop_load, strip_packet, get_messages_from_provider}
use loopix_messaging.Client.Stripping.{IsProtobuf, strip_packet-short}
use loopix_messaging.Client.Fetching.{kept}
use loopix_messaging.Client.Pulling.{ask, get_messages_from_provider-pulls}

module _ (enc : Encoding) (os : Faults) (quiet : IsQuiet os) (wire : Wire) (codecs : IsWire wire)
    (lib : Library) (law : IsLawful lib) (proto : IsProtobuf lib) where
  kept-write_file :
      (name final message : Bytes)
      → strip_packet final ≡ message
      → equal message loop_load ≡ false
      → kept (contents (write_file name final [])) ≡ message ∷ []
  unfolding write_file
  kept-write_file name final message stripped real = rw (kept, stripped, real) refl

  -- The recipient, known to its provider by key and token, has an empty inbox; what the route left
  -- of a message of 1 to 127 bytes is stored there, where the operating system does not fail. Then
  -- the recipient, whose request fits the provider's buffer, pulls exactly that message, unless it
  -- is the cover message.
  pub get_messages_from_provider-arrives :
      (c : NetClient) (p : ProviderServer) (final message message_id request packet : Bytes)
      → Delivered lib law final message
      → 0 < length message
      → length message < 128
      → equal message loop_load ≡ false
      → authenticate_user enc c.core.pub_key.raw c.token p ≡ true
      → AllSorted p
      → lookup (inbox_path (enc.encode c.core.pub_key.raw)) p.files ≡ some []
      → wire.pull_request.marshal
          (record { token = c.token; client_public_key = c.core.pub_key.raw })
        ≡ ok request
      → wrap_with_flag wire.general_packet pull request ≡ ok packet
      → length packet ≤ buffer_size
      → (p' : ProviderServer) × (store_message os final (enc.encode c.core.pub_key.raw) message_id p
          ≡ (ok tt, p'))
        × (get_messages_from_provider wire (ask enc os wire lib p') c
            ≡ ok (record c { received_messages = c.received_messages ++ (message ∷ []) }))
  unfolding authenticate_user
  get_messages_from_provider-arrives c p final message message_id request packet delivered
        some_bytes short real known sorted at asked sent fits =
      let id = enc.encode c.core.pub_key.raw in
      let name = message_id ++ bytes ".txt" in
      let (p', stored, same, sorted', files) =
        store_message-stores os quiet final id message_id p [] sorted at in
      let known' : authenticate_user enc c.core.pub_key.raw c.token p' ≡ true = rw same known in
      let at' : lookup (inbox_path id) p'.files ≡ some (write_file name final []) =
        files (inbox_path id) ∙ rw (equal_refl (inbox_path id)) refl in
      let (handled, answered, empty, pulled) =
        get_messages_from_provider-pulls enc os wire lib quiet codecs c p'
          (write_file name final []) request packet known' sorted' at' asked sent fits in
      (
        p',
        stored,
        pulled
            ∙ ap (λ ms. ok (record c { received_messages = c.received_messages ++ ms }))
                (kept-write_file name final message
                  (strip_packet-short lib law proto final message delivered some_bytes short) real),
      )
