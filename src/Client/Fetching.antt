-- ===== src/Client/Fetching.antt =====
-- What a client keeps of the answer to a pull request.
use loopix_messaging.Prelude.{
  ◌≡◌, refl, sym, ap, ◌∙◌, List, [], ◌∷◌, ◌++◌, map, Bytes, Result, ok, err, panic, length, equal,
  if◌then◌else◌, append_assoc, append-nil, Bool-cases, inl, inr,
}
use loopix_messaging.Flags.{comm, pull, packet_flag_bytes}
use loopix_messaging.Messages.{GeneralPacket}
use loopix_messaging.Config.{wrap_with_flag, fill_packets, unmarshal_provider_response}
use loopix_messaging.Wire.{Wire, IsWire}
use loopix_messaging.Provider.Mail.{Wraps}
use loopix_messaging.Provider.Connections.{create_client_response}
use loopix_messaging.Client.{
  NetClient, Exchange, loop_load, strip_packet, add_new_message, send, receive_packet,
  receive_packets, get_messages_from_provider,
}

-- The messages that are kept of the stored contents: stripped, and without cover messages.
abbrev pub kept : List Bytes → List Bytes
kept [] = []
kept (c ∷ cs) =
    let rest = kept cs in if equal (strip_packet c) loop_load then rest else strip_packet c ∷ rest

-- The packet that holds a stored content.
abbrev pub comm_packet : Bytes → GeneralPacket
comm_packet content = record { flag = packet_flag_bytes comm; data_ = content }

receive_packet-cases :
    (c : NetClient) (content : Bytes)
    → receive_packet c (comm_packet content) ≡ (
        if equal (strip_packet content) loop_load
        then c
        else record c { received_messages = c.received_messages ++ (strip_packet content ∷ []) })
unfolding receive_packet add_new_message
receive_packet-cases c content = refl

receive_packets-kept :
    (c : NetClient) (contents : List Bytes)
    → receive_packets c (map comm_packet contents)
      ≡ record c { received_messages = c.received_messages ++ kept contents }
unfolding receive_packets
receive_packets-kept c [] =
    ap (λ m. record c { received_messages = m }) (sym (append-nil c.received_messages))
receive_packets-kept c (x ∷ contents) =
    ap (λ c'. receive_packets c' (map comm_packet contents)) (receive_packet-cases c x)
    ∙ elim (Bool-cases (equal (strip_packet x) loop_load)) [
      | inl cover ↦ rw (cover, kept) (receive_packets-kept c contents)
      | inr real ↦
          rw (real, kept)
            (receive_packets-kept
                (record c { received_messages = c.received_messages ++ (strip_packet x ∷ []) })
                contents
              ∙ ap (λ m. record c { received_messages = m })
                  (append_assoc c.received_messages (strip_packet x ∷ []) (kept contents)))
    ]

module _ (wire : Wire) (law : IsWire wire) where
  fill_packets-Wraps :
      (contents wrapped : List Bytes)
      → Wraps wire contents wrapped
      → fill_packets wire.general_packet (length wrapped) wrapped ≡ ok (map comm_packet contents)
  unfolding fill_packets wrap_with_flag
  fill_packets-Wraps [] [] h = refl
  fill_packets-Wraps [] (b ∷ bs) h = absurd h
  fill_packets-Wraps (c ∷ cs) [] h = absurd h
  fill_packets-Wraps (c ∷ cs) (b ∷ bs) h = rw (
    law.general_packet_codec.unmarshal-marshal (comm_packet c) b h.0,
    fill_packets-Wraps cs bs h.1,
  )

  unmarshal-Wraps :
      (contents wrapped : List Bytes)
      → Wraps wire contents wrapped
      → unmarshal_provider_response wire.general_packet
          (record { number_of_packets = length wrapped; packets = wrapped })
        ≡ ok (map comm_packet contents)
  unfolding unmarshal_provider_response
  unmarshal-Wraps = fill_packets-Wraps

  keep :
      (c : NetClient) (contents wrapped : List Bytes)
      → Wraps wire contents wrapped
      → (elim (unmarshal_provider_response wire.general_packet
            (record { number_of_packets = length wrapped; packets = wrapped }))
          as (λ _. Result NetClient) [
            | ok packets ↦ ok (receive_packets c packets)
            | err e ↦ ok c
            | panic ↦ panic
          ])
        ≡ ok (record c { received_messages = c.received_messages ++ kept contents })
  keep c contents wrapped wraps =
      rw (unmarshal-Wraps contents wrapped wraps) (ap ok (receive_packets-kept c contents))

  -- When the provider answers a pull request with the stored contents, wrapped, the client keeps
  -- each of them stripped of its first bytes, in their order, and drops the cover messages.
  pub get_messages-kept :
      (exchange : Exchange) (c : NetClient) (contents wrapped : List Bytes)
      (request packet answer : Bytes)
      → wire.pull_request.marshal
          (record { token = c.token; client_public_key = c.core.pub_key.raw })
        ≡ ok request
      → wrap_with_flag wire.general_packet pull request ≡ ok packet
      → Wraps wire contents wrapped
      → create_client_response wire wrapped ≡ ok answer
      → exchange packet c.core.provider.host c.core.provider.port ≡ ok answer
      → get_messages_from_provider wire exchange c
        ≡ ok (record c { received_messages = c.received_messages ++ kept contents })
  unfolding get_messages_from_provider create_client_response send
  get_messages-kept exchange c contents wrapped request packet answer asked sent wraps made
        answered =
      rw (asked, sent, answered, law.provider_response_codec.unmarshal-marshal _ answer made)
        (keep c contents wrapped wraps)
