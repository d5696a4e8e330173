-- ===== src/ClientCore/Delivery.antt =====
-- `EncodeMessage`: from a view of the network to a packet that reaches its recipient.
use loopix_messaging.Prelude.{
  ℕ, suc, ◌≡◌, refl, ap, ◌∙◌, List, [], ◌∷◌, ◌++◌, map, some, true, Bytes, ok, length, arith, All,
  length-append,
}
use loopix_messaging.Prelude.Maps.{lookup, nat_key}
use loopix_messaging.Messages.{Float64, MixConfig, ClientConfig, Commands}
use loopix_messaging.Config.{E2EPath, path_len}
use loopix_messaging.Topology.{LayeredMixes}
use loopix_messaging.Helpers.{Random, IsRandom}
use loopix_messaging.Sphinx.Library.{Library, IsLawful, hop_valid}
use loopix_messaging.Sphinx.Curve.{PrivateKey}
use loopix_messaging.Sphinx.Secrets.{Paired}
use loopix_messaging.Sphinx.Onion.{node_hop, recipient_hop, itinerary, AllValid}
use loopix_messaging.Sphinx.Routes.{path_nodes, commands_of, route, relay_chain}
use loopix_messaging.Sphinx.Delivery.{Delivered, relay_chain-pack}
use loopix_messaging.ClientCore.{
  CryptoClient, path_length, path_to, build_path, create_sphinx_packet, encode_message,
}
use loopix_messaging.ClientCore.Sequence.{
  Stocked, InLayers, OneOf, get_random_mix_sequence-InLayers, generate_delay_sequence-total,
}

module _ (lib : Library) (key_of : Bytes → PrivateKey) where
  -- The node holds the private key to its public key, and its strings are valid UTF-8.
  pub record IsNode (n : MixConfig) : Type 0 where
    pub key_length : length (key_of n.pub_key).raw ≡ 32
    pub key_pair : n.pub_key ≡ lib.scalar_base_mult (key_of n.pub_key).raw
    pub strings : hop_valid lib (some (node_hop n)) ≡ true

  -- Every mix that the map lists is a node.
  abbrev pub AllNodes : LayeredMixes → Type 0
  AllNodes mixes =
      (i : ℕ) (layer : List MixConfig) (m : MixConfig)
      → lookup i mixes ≡ some layer
      → OneOf m layer
      → IsNode m

  abbrev pub keys_of : List MixConfig → List PrivateKey
  keys_of nodes = map (λ n. key_of n.pub_key) nodes

  InLayers-IsNode :
      (mixes : LayeredMixes) (i : ℕ) (ms : List MixConfig)
      → AllNodes mixes
      → InLayers mixes i ms
      → All IsNode ms
  InLayers-IsNode mixes i [] nodes h = tt
  InLayers-IsNode mixes i (m ∷ ms) nodes h =
      let (layer, e, one) = h.0 in
      (nodes i layer m e one, InLayers-IsNode mixes (suc i) ms nodes h.1)

  All-snoc :
      (ms : List MixConfig) (m : MixConfig) → All IsNode ms → IsNode m → All IsNode (ms ++ (m ∷ []))
  All-snoc [] m h k = (k, tt)
  All-snoc (x ∷ ms) m h k = (h.0, All-snoc ms m h.1 k)

  IsNode-Paired : (ns : List MixConfig) → All IsNode ns → Paired lib (keys_of ns) ns
  IsNode-Paired [] h = tt
  IsNode-Paired (n ∷ ns) h = (h.0.key_length, h.0.key_pair, IsNode-Paired ns h.1)

  module _ (law : IsLawful lib) where
    itinerary-AllValid :
        (n : MixConfig) (ns : List MixConfig) (cs : List Commands) (dest : ClientConfig)
        → All IsNode ns
        → hop_valid lib (some (recipient_hop dest)) ≡ true
        → AllValid lib law (itinerary (n ∷ ns) cs dest)
    itinerary-AllValid n [] [] dest h v = tt
    itinerary-AllValid n [] (c ∷ cs) dest h v = (v, tt)
    itinerary-AllValid n (m ∷ ns) [] dest h v = tt
    itinerary-AllValid n (m ∷ ns) (c ∷ cs) dest h v =
        (h.0.strings, itinerary-AllValid m ns cs dest h.1 v)

    length-pub_key : (n : MixConfig) → IsNode n → length n.pub_key ≡ 32
    length-pub_key n h = ap length h.key_pair ∙ law.length-scalar_base_mult (key_of n.pub_key).raw

    path_to-eq :
        (ingress egress : MixConfig) (ms : List MixConfig) (recipient : ClientConfig)
        → recipient.provider ≡ some egress
        → IsNode egress
        → path_to ingress ms recipient
          ≡ ok (record {
            ingress_provider = ingress;
            mixes = ms;
            egress_provider = egress;
            recipient = recipient;
          })
    unfolding path_to
    path_to-eq ingress egress ms recipient at exit = ground (arith, at, length-pub_key egress exit)

    module _ (r : Random) (fair : IsRandom r) where
      -- The client encodes the message, with `x` as what the random source gives, for a path from
      -- its provider over one mix of each of three layers to the recipient's provider; the nodes
      -- of the path process the packet in turn, and the last packet holds the message.
      abbrev pub Reaches : CryptoClient → ClientConfig → MixConfig → Bytes → Bytes → Type 0
      Reaches c recipient egress x message =
          (path : E2EPath) × (delays : List Float64) × (b : Bytes) × (final : Bytes) × (build_path r
              c recipient
            ≡ ok path)
          × (path.ingress_provider ≡ c.provider)
          × (path.egress_provider ≡ egress)
          × (length path.mixes ≡ 3)
          × InLayers c.network.mixes 1 path.mixes
          × (encode_message r lib (ok x) c message recipient ≡ ok b)
          × (relay_chain lib (keys_of (path_nodes path)) b ≡ ok (route path delays, final))
          × Delivered lib law final message

      -- A client with a provider, and a view of the network with a mix in each of three layers,
      -- all of them nodes, makes a packet for any recipient with a provider that is a node: the
      -- path runs from its own provider over one mix of each layer to that provider, each node on
      -- it learns its own next hop and commands, and the last holds the message.
      pub encode_message-delivers :
          (c : CryptoClient) (recipient : ClientConfig) (egress : MixConfig) (x message : Bytes)
          → Stocked c.network.mixes 1 path_length
          → AllNodes c.network.mixes
          → IsNode c.provider
          → recipient.provider ≡ some egress
          → IsNode egress
          → hop_valid lib (some (recipient_hop recipient)) ≡ true
          → Reaches c recipient egress x message
      unfolding build_path create_sphinx_packet encode_message
      encode_message-delivers c recipient egress x message stocked nodes own at exit valid =
          let (ms, drawn, len, layers) =
            get_random_mix_sequence-InLayers r fair c.network.mixes path_length (omega arith)
              stocked in
          let path : E2EPath = record {
            ingress_provider = c.provider;
            mixes = ms;
            egress_provider = egress;
            recipient = recipient;
          } in
          let (delays, timed, many) =
            generate_delay_sequence-total r fair r.five (path_len path) fair.five_positive in
          let rest = All-snoc ms egress (InLayers-IsNode c.network.mixes 1 ms nodes layers) exit in
          let tail = ms ++ (egress ∷ []) in
          let (packet, b, final, packed, marshalled, relayed, delivered) =
            relay_chain-pack lib law (keys_of (path_nodes path)) x path delays message
              (IsNode-Paired (path_nodes path) (own, rest))
              (omega (arith, length-append ms (egress ∷ [])))
              (itinerary-AllValid c.provider tail (commands_of (path_nodes path) delays) recipient
                rest valid) in
          let built = path_to-eq c.provider egress ms recipient at exit in
          (
            path,
            delays,
            b,
            final,
            rw (drawn, built),
            refl,
            refl,
            len,
            layers,
            rw (drawn, built, timed, packed, marshalled),
            relayed,
            delivered,
          )
