-- ===== src/Client/Registering.antt =====
-- A client that registers at its provider, both sides together.
use loopix_messaging.Prelude.{
  ◌≡◌, ◌≤◌, refl, [], ◌∷◌, some, none, true, Bytes, ok, length, take_all,
}
use loopix_messaging.Flags.{assign, token, packet_flag_bytes, packet_flag_from_bytes}
use loopix_messaging.Config.{wrap_with_flag, fill_packets, unmarshal_provider_response}
use loopix_messaging.Wire.{Wire, IsWire}
use loopix_messaging.Topology.{Encoding}
use loopix_messaging.Network.{buffer_size}
use loopix_messaging.Sphinx.Library.{Library}
use loopix_messaging.Provider.Inboxes.{Faults}
use loopix_messaging.Provider.{
  ProviderServer, authenticate_user, register_new_client, handle_assign_request,
}
use loopix_messaging.Provider.Mail.{IsQuiet, AllSorted}
use loopix_messaging.Provider.Access.{register_new_client-accepts}
use loopix_messaging.Provider.Connections.{
  create_client_response, Handled, reply_with, handle_packet, handle_connection,
}
use loopix_messaging.Client.{
  NetClient, register_token, send, token_from, send_register_message_to_provider,
}
use loopix_messaging.Client.Pulling.{ask}

module _ (enc : Encoding) (os : Faults) (wire : Wire) (lib : Library) (law : IsWire wire) where
  -- The reply to a client that was registered with a token.
  handle_connection-assign :
      (p p' : ProviderServer) (conf_bytes packet new_token token_packet answer : Bytes)
      → wrap_with_flag wire.general_packet assign conf_bytes ≡ ok packet
      → length packet ≤ buffer_size
      → register_new_client enc os wire lib conf_bytes p ≡ (ok new_token, p')
      → wrap_with_flag wire.general_packet token new_token ≡ ok token_packet
      → create_client_response wire (token_packet ∷ []) ≡ ok answer
      → handle_connection wire enc os lib (ok packet) p
        ≡ ok (record { provider = p'; reply = some answer; spawned = none })
  unfolding handle_connection handle_packet handle_assign_request wrap_with_flag
      packet_flag_from_bytes
  handle_connection-assign p p' conf_bytes packet new_token token_packet answer sent fits made
        wrapped answered =
      rw
        (
          take_all buffer_size packet fits,
          law.general_packet_codec.unmarshal-marshal _ packet sent,
          handle_connection,
          made,
          wrapped,
          answered,
          reply_with,
        )
        refl

  token_from-answer :
      (new_token token_packet : Bytes)
      → wrap_with_flag wire.general_packet token new_token ≡ ok token_packet
      → token_from wire (record { number_of_packets = 1; packets = token_packet ∷ [] })
        ≡ ok new_token
  unfolding token_from unmarshal_provider_response fill_packets wrap_with_flag
  token_from-answer new_token token_packet wrapped =
      rw (law.general_packet_codec.unmarshal-marshal _ token_packet wrapped, token_from) refl

  -- A client whose configuration is marshalled and read back, with a request that fits the
  -- provider's buffer, registers, where the operating system does not fail: the provider answers
  -- with a token, the client keeps it, and the provider accepts it from then on with the client's
  -- key.
  pub send_register_message_to_provider-registers :
      IsQuiet os
      → (c : NetClient) (p : ProviderServer) (conf_bytes packet : Bytes) → AllSorted p
      → wire.client_config.marshal c.config ≡ ok conf_bytes
      → wire.client_config.unmarshal conf_bytes ≡ ok c.config
      → wrap_with_flag wire.general_packet assign conf_bytes ≡ ok packet
      → length packet ≤ buffer_size
      → (handled : Handled wire) × (new_token : Bytes) × (handle_connection wire enc os lib
            (ok packet)
            p
          ≡ ok handled)
        × (send_register_message_to_provider wire (ask enc os wire lib p) c
            ≡ ok (register_token new_token c))
        × (authenticate_user enc c.config.pub_key new_token handled.provider ≡ true)
        × AllSorted handled.provider
  unfolding send_register_message_to_provider send create_client_response wrap_with_flag
  send_register_message_to_provider-registers quiet c p conf_bytes packet sorted asked read sent
        fits =
      let (new_token, p', made, known, sorted', inbox) =
        register_new_client-accepts enc os quiet wire lib conf_bytes c.config p sorted read in
      let (token_packet, wrapped) =
        law.general_packet_codec.marshal_total
          (record { flag = packet_flag_bytes token; data_ = new_token }) refl in
      let (answer, answered) =
        law.provider_response_codec.marshal_total
          (record { number_of_packets = 1; packets = token_packet ∷ [] }) refl in
      let connected =
        handle_connection-assign p p' conf_bytes packet new_token token_packet answer sent fits made
          wrapped answered in
      (
        record { provider = p'; reply = some answer; spawned = none },
        new_token,
        connected,
        rw
            (
              asked,
              sent,
              connected,
              law.provider_response_codec.unmarshal-marshal _ answer answered,
              token_from-answer new_token token_packet wrapped,
            )
            refl,
        known,
        sorted',
      )
