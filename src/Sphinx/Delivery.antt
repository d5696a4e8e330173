-- ===== src/Sphinx/Delivery.antt =====
-- A packet that `PackForwardMessage` makes, handed along its path.
use loopix_messaging.Prelude.{
  suc, ◌≤◌, ◌<◌, ◌≡◌, refl, sym, ap, ◌∙◌, inl, inr, List, [], ◌∷◌, ◌++◌, some, Bytes, ok, ◌>>=◌,
  length, arith, length-append, ==_iff, bind_assoc,
}
use loopix_messaging.Messages.{
  Float64, MixConfig, ClientConfig, Commands, Hop, Header, SphinxPacket, HeaderInitials,
}
use loopix_messaging.Config.{E2EPath}
use loopix_messaging.Sphinx.Library.{Library, IsLawful}
use loopix_messaging.Sphinx.Curve.{PrivateKey, random_element}
use loopix_messaging.Sphinx.Packing.{
  wrap_final_hop, get_shared_secrets, encapsulate_header, create_header, pack_forward_message,
}
use loopix_messaging.Sphinx.Primitives.{blinding}
use loopix_messaging.Sphinx.Secrets.{Paired, Agrees, shared_secrets_from-Agrees}
use loopix_messaging.Sphinx.Onion.{
  itinerary, Wrapped, AllValid, wrap_all-Wrapped, wrapped_content, encapsulate_content-eq,
}
use loopix_messaging.Sphinx.Routes.{
  path_nodes, commands_of, route, relay_chain, make_commands-eq, length-commands_of,
}
use loopix_messaging.Sphinx.Steps.{process_sphinx_packet-eq}

module _ (lib : Library) (law : IsLawful lib) where
  -- The last packet: the message, and a header with nothing left in it.
  abbrev pub Delivered : Bytes → Bytes → Type 0
  Delivered final message =
      (hdr : Header) × (lib.sphinx_packet.unmarshal final
        ≡ ok (record { hdr = some hdr; pld = message }))
      × (lib.sphinx_packet.marshal (record { hdr = some hdr; pld = message }) ≡ ok final)
      × (length hdr.alpha ≡ 32)
      × (hdr.beta ≡ [])
      × (hdr.mac ≡ [])

  -- A packet is made of the message, with `x` as what the random source gives; the nodes with the
  -- keys process it in turn and learn the route, and the last packet holds the message.
  abbrev pub Carries : List PrivateKey → Bytes → E2EPath → List Float64 → Bytes → Type 0
  Carries keys x path delays message =
      (packet : SphinxPacket) × (b : Bytes) × (final : Bytes) × (pack_forward_message lib (ok x)
          path delays message
        ≡ ok packet)
      × (lib.sphinx_packet.marshal packet ≡ ok b)
      × (relay_chain lib keys b ≡ ok (route path delays, final))
      × Delivered final message

  relay_chain-Delivered :
      (keys : List PrivateKey) (hs : List HeaderInitials) (es : List (Hop × Commands))
      (alpha beta mac message b : Bytes)
      → Agrees lib law keys alpha hs
      → Wrapped lib law hs es beta mac
      → length alpha ≡ 32
      → lib.sphinx_packet.marshal (record {
        hdr = some (record { alpha = alpha; beta = beta; mac = mac });
        pld = wrapped_content lib law hs message;
      })
        ≡ ok b
      → (final : Bytes) × (relay_chain lib keys b ≡ ok (es, final)) × Delivered final message
  unfolding relay_chain
  relay_chain-Delivered [] [] [] alpha beta mac message b agrees w a32 made = (
    b,
    refl,
    (
      record { alpha = alpha; beta = beta; mac = mac },
      law.sphinx_packet_codec.unmarshal-marshal _ b made,
      made,
      a32,
      w.0,
      w.1,
    ),
  )
  relay_chain-Delivered [] [] (e ∷ es) alpha beta mac message b agrees w a32 made = absurd w
  relay_chain-Delivered [] (h ∷ hs) es alpha beta mac message b agrees w a32 made = absurd agrees
  relay_chain-Delivered (p ∷ keys) [] es alpha beta mac message b agrees w a32 made = absurd agrees
  relay_chain-Delivered (p ∷ keys) (h ∷ hs) [] alpha beta mac message b agrees w a32 made = absurd w
  relay_chain-Delivered (p ∷ keys) (h ∷ hs) (e ∷ es) alpha beta mac message b agrees w a32 made =
      let (beta', mac', routing, wrapped, beta_eq, mac_eq, w') = w in
      let alpha' = lib.scalar_mult (blinding lib law (lib.scalar_mult p.raw alpha)) alpha in
      let (b', made') =
        law.sphinx_packet_codec.marshal_total
          (record {
            hdr = some (record { alpha = alpha'; beta = beta'; mac = mac' });
            pld = wrapped_content lib law hs message;
          })
          refl in
      let (final, relayed, delivered) =
        relay_chain-Delivered keys hs es alpha' beta' mac' message b' agrees.3 w'
          (law.length-scalar_mult _ alpha) made' in
      let processed =
        process_sphinx_packet-eq lib law p alpha routing beta' mac'
          (wrapped_content lib law hs message) b b' e a32 agrees.2 wrapped
          (rw (mac_eq, beta_eq, agrees.1) at made) made' in
      (final, rw (processed, relayed), delivered)

  -- On two nodes or more `encapsulateHeader` gives the wrapped entries under the first element.
  encapsulate_header-Wrapped :
      (h : HeaderInitials) (hs : List HeaderInitials) (n : MixConfig) (ns : List MixConfig)
      (cs : List Commands) (dest : ClientConfig)
      → length hs ≡ length ns
      → length cs ≡ suc (length ns)
      → 0 < length ns
      → AllValid lib law (itinerary (n ∷ ns) cs dest)
      → (beta : Bytes) × (mac : Bytes) × (encapsulate_header lib (h ∷ hs) (n ∷ ns) cs dest
          ≡ ok (record { alpha = h.alpha; beta = beta; mac = mac }))
        × Wrapped lib law (h ∷ hs) (itinerary (n ∷ ns) cs dest) beta mac
  unfolding encapsulate_header
  encapsulate_header-Wrapped h hs n ns cs dest p q more valid =
      let (s, made, same, w) =
        wrap_all-Wrapped lib law (h ∷ hs) n ns cs dest (omega arith) q valid in
      elim same [
        | inl none_left ↦ absurd (omega arith)
        | inr e ↦ (
          s.enc_routing,
          s.mac,
          sym (bind_assoc (wrap_final_hop lib (h ∷ hs) cs dest) _ _)
              ∙ ap
                  (λ r. r >>= λ s'.
                    ok (record { alpha = h.alpha; beta = s'.enc_routing; mac = s'.mac }))
                  made,
          rw e w,
        )
      ]

  pack-parts :
      (x : Bytes) (path : E2EPath) (delays : List Float64) (message : Bytes) (h : HeaderInitials)
      (hs : List HeaderInitials) (beta mac : Bytes)
      → get_shared_secrets lib (path_nodes path) (record { raw = x }) ≡ ok (h ∷ hs)
      → length (h ∷ hs) ≡ length (path_nodes path)
      → length (path_nodes path) ≤ length delays
      → encapsulate_header lib
          (h ∷ hs)
          (path_nodes path)
          (commands_of (path_nodes path) delays)
          path.recipient
        ≡ ok (record { alpha = h.alpha; beta = beta; mac = mac })
      → pack_forward_message lib (ok x) path delays message
        ≡ ok (record {
          hdr = some (record { alpha = h.alpha; beta = beta; mac = mac });
          pld = wrapped_content lib law (h ∷ hs) message;
        })
  unfolding pack_forward_message create_header random_element
  pack-parts x path delays message h hs beta mac secrets len enough made = rw (
    secrets,
    len,
    (==_iff (length (path_nodes path)) (length (path_nodes path))).1 refl,
    make_commands-eq (length (path_nodes path)) 0 (path_nodes path) delays (omega arith) enough,
    made,
    encapsulate_content-eq lib law (h ∷ hs) message,
  )

  pack-deliver :
      (keys : List PrivateKey) (hs : List HeaderInitials) (x : Bytes) (path : E2EPath)
      (delays : List Float64) (message : Bytes)
      → get_shared_secrets lib (path_nodes path) (record { raw = x }) ≡ ok hs
      → length hs ≡ length (path_nodes path)
      → Agrees lib law keys (lib.scalar_base_mult x) hs
      → length (path_nodes path) ≤ length delays
      → AllValid lib law (route path delays)
      → Carries keys x path delays message
  pack-deliver keys [] x path delays message secrets len agrees enough valid = absurd (omega arith)
  pack-deliver [] (h ∷ hs) x path delays message secrets len agrees enough valid = absurd agrees
  pack-deliver (p ∷ keys) (h ∷ hs) x path delays message secrets len agrees enough valid =
      let rest = path.mixes ++ (path.egress_provider ∷ []) in
      let more = length-append path.mixes (path.egress_provider ∷ []) in
      let cs = commands_of (path_nodes path) delays in
      let (beta, mac, header, w) =
        encapsulate_header-Wrapped h hs path.ingress_provider rest cs path.recipient (omega arith)
          (length-commands_of path.ingress_provider rest delays (omega arith)) (omega arith)
          valid in
      let packet : SphinxPacket = record {
        hdr = some (record { alpha = h.alpha; beta = beta; mac = mac });
        pld = wrapped_content lib law (h ∷ hs) message;
      } in
      let (b, marshalled) = law.sphinx_packet_codec.marshal_total packet refl in
      let (final, relayed, delivered) =
        relay_chain-Delivered (p ∷ keys) (h ∷ hs) (route path delays) h.alpha beta mac message b
          (rw (← agrees.0) at agrees) w (rw agrees.0 (law.length-scalar_base_mult x)) marshalled in
      (
        packet,
        b,
        final,
        pack-parts x path delays message h hs beta mac secrets len enough header,
        marshalled,
        relayed,
        delivered,
      )

  -- A packet made for a path whose keys are the nodes' own, with a delay for each node and valid
  -- strings, exists; when the nodes process it in turn, each learns its own next hop and commands,
  -- and what is left after the last node is the message under a header that holds nothing.
  pub relay_chain-pack :
      (keys : List PrivateKey) (x : Bytes) (path : E2EPath) (delays : List Float64)
      (message : Bytes)
      → Paired lib keys (path_nodes path)
      → length (path_nodes path) ≤ length delays
      → AllValid lib law (route path delays)
      → Carries keys x path delays message
  unfolding get_shared_secrets
  relay_chain-pack keys x path delays message paired enough valid =
      let (hs, secrets, len, agrees) =
        shared_secrets_from-Agrees lib law 0 keys (path_nodes path) (record { raw = x }) []
          paired in
      pack-deliver keys hs x path delays message secrets len agrees enough valid
