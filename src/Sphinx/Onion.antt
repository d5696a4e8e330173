-- ===== src/Sphinx/Onion.antt =====
-- What the loops of `encapsulateHeader` and `encapsulateContent` build: a layer for each hop.
use mathlib.Core.Path.{fun_ext}
use loopix_messaging.Prelude.{
  ℕ, zero, suc, ◌-◌, ◌≡◌, refl, sym, ap, ◌∙◌, List, [], ◌∷◌, some, true, Bytes, Result, ok, ◌>>=◌,
  index, length, arith, bind-ok, bind_assoc, All, ◌⊎◌, inl, inr,
}
use loopix_messaging.Messages.{MixConfig, ClientConfig, Commands, Hop, RoutingInfo, HeaderInitials}
use loopix_messaging.Sphinx.Library.{Library, IsLawful, hop_valid}
use loopix_messaging.Sphinx.Crypto.{kdf, aes_ctr}
use loopix_messaging.Sphinx.Packing.{
  Layers, join_address, wrap_layer, wrap_layers, wrap_final_hop, encapsulate_content_loop,
  encapsulate_content,
}
use loopix_messaging.Sphinx.Primitives.{derive, kdf-eq, encrypt, aes_ctr-eq, compute_mac-eq}

abbrev pub node_hop : MixConfig → Hop
node_hop n = record { id = n.id; address = join_address n.host n.port; pub_key = n.pub_key }

abbrev pub recipient_hop : ClientConfig → Hop
recipient_hop c = record { id = c.id; address = join_address c.host c.port; pub_key = [] }

-- What each node of the path is to learn: the next hop and its own commands.
abbrev pub itinerary : List MixConfig → List Commands → ClientConfig → List (Hop × Commands)
itinerary (n ∷ []) (c ∷ cs) dest = (recipient_hop dest, c) ∷ []
itinerary (n ∷ m ∷ ns) (c ∷ cs) dest = (node_hop m, c) ∷ itinerary (m ∷ ns) cs dest
itinerary _ _ dest = []

abbrev pub routing_of : Hop × Commands → Bytes → Bytes → RoutingInfo
routing_of (hop, command) meta mac = record {
  next_hop = some hop;
  routing_commands = some command;
  next_hop_meta_data = meta;
  mac = mac;
}

module _ (lib : Library) (law : IsLawful lib) where
  -- The routing data `beta` with its code `mac` hold the entries, one layer for each secret; the
  -- innermost layer holds empty data and an empty code.
  abbrev pub Wrapped : List HeaderInitials → List (Hop × Commands) → Bytes → Bytes → Type 0
  Wrapped [] [] beta mac = (beta ≡ []) × (mac ≡ [])
  Wrapped (h ∷ hs) (e ∷ es) beta mac =
      (beta' : Bytes) × (mac' : Bytes) × (routing : Bytes) × (lib.routing_info.marshal
          (routing_of e beta' mac')
        ≡ ok routing)
      × (beta ≡ encrypt lib law h.secret_hash routing)
      × (mac ≡ lib.hmac_sha256 (derive lib h.secret_hash) beta)
      × Wrapped hs es beta' mac'
  Wrapped _ _ beta mac = ⊥

  -- The strings of every hop can be marshalled.
  abbrev pub AllValid : List (Hop × Commands) → Type 0
  AllValid = All (λ e. hop_valid lib (some e.0) ≡ true)

  layer_total :
      (e : Hop × Commands) (meta mac : Bytes)
      → hop_valid lib (some e.0) ≡ true
      → (routing : Bytes) × (lib.routing_info.marshal (routing_of e meta mac) ≡ ok routing)
  layer_total (hop, command) meta mac v =
      law.routing_info_codec.marshal_total (routing_of (hop, command) meta mac) v

  -- All of `encapsulateHeader` but its last line.
  abbrev pub wrap_all :
      List HeaderInitials → List MixConfig → List Commands → ClientConfig → Result Layers
  wrap_all hs ns cs dest = do
    s ← wrap_final_hop lib hs cs dest
    wrap_layers lib hs ns cs (length ns - 1) s

  wrap_layer-cons :
      (h : HeaderInitials) (hs : List HeaderInitials) (n : MixConfig) (ns : List MixConfig)
      (c : Commands) (cs : List Commands) (k : ℕ) (s : Layers)
      → wrap_layer lib (h ∷ hs) (n ∷ ns) (c ∷ cs) (suc k) s ≡ wrap_layer lib hs ns cs k s
  unfolding wrap_layer
  wrap_layer-cons h hs n ns c cs k s = refl

  wrap_layers-cons :
      (h : HeaderInitials) (hs : List HeaderInitials) (n : MixConfig) (ns : List MixConfig)
      (c : Commands) (cs : List Commands) (k : ℕ) (s : Layers)
      → wrap_layers lib (h ∷ hs) (n ∷ ns) (c ∷ cs) (suc k) s
        ≡ (wrap_layers lib hs ns cs k s >>= wrap_layer lib (h ∷ hs) (n ∷ ns) (c ∷ cs) 0)
  unfolding wrap_layers
  wrap_layers-cons h hs n ns c cs zero s = bind-ok (wrap_layer lib (h ∷ hs) (n ∷ ns) (c ∷ cs) 0 s)
  wrap_layers-cons h hs n ns c cs (suc k) s = rw (wrap_layer-cons h hs n ns c cs k s) (
      ap (λ f. wrap_layer lib hs ns cs k s >>= f)
        (fun_ext (λ s'. wrap_layers-cons h hs n ns c cs k s'))
      ∙ sym (bind_assoc (wrap_layer lib hs ns cs k s) _ _))

  suc-sub-one : (k : ℕ) → suc k - 1 ≡ k
  suc-sub-one k = omega arith

  wrap_final_hop-cons :
      (h h' : HeaderInitials) (hs : List HeaderInitials) (c c' : Commands) (cs : List Commands)
      (dest : ClientConfig)
      → wrap_final_hop lib (h ∷ h' ∷ hs) (c ∷ c' ∷ cs) dest
        ≡ wrap_final_hop lib (h' ∷ hs) (c' ∷ cs) dest
  unfolding wrap_final_hop
  wrap_final_hop-cons h h' hs c c' cs dest = simp (
    suc-sub-one (suc (length cs)),
    suc-sub-one (length cs),
    suc-sub-one (suc (length hs)),
    suc-sub-one (length hs),
  )

  -- One more node in front puts one more layer around what is built for the others.
  wrap_all-cons :
      (h h' : HeaderInitials) (hs : List HeaderInitials) (n n' : MixConfig) (ns : List MixConfig)
      (c c' : Commands) (cs : List Commands) (dest : ClientConfig)
      → wrap_all (h ∷ h' ∷ hs) (n ∷ n' ∷ ns) (c ∷ c' ∷ cs) dest ≡ (
          wrap_all (h' ∷ hs) (n' ∷ ns) (c' ∷ cs) dest
          >>= wrap_layer lib (h ∷ h' ∷ hs) (n ∷ n' ∷ ns) (c ∷ c' ∷ cs) 0)
  wrap_all-cons h h' hs n n' ns c c' cs dest =
      rw
        (
          suc-sub-one (suc (length ns)),
          suc-sub-one (length ns),
          wrap_final_hop-cons h h' hs c c' cs dest,
        )
        (ap (λ f. wrap_final_hop lib (h' ∷ hs) (c' ∷ cs) dest >>= f)
            (fun_ext (λ s. wrap_layers-cons h (h' ∷ hs) n (n' ∷ ns) c (c' ∷ cs) (length ns) s))
          ∙ sym (bind_assoc (wrap_final_hop lib (h' ∷ hs) (c' ∷ cs) dest) _ _))

  -- The layer that one round of the loop adds.
  wrap_layer-Wrapped :
      (h : HeaderInitials) (hs : List HeaderInitials) (n m : MixConfig) (ns : List MixConfig)
      (c : Commands) (cs : List Commands) (es : List (Hop × Commands)) (s : Layers)
      → hop_valid lib (some (node_hop m)) ≡ true
      → Wrapped hs es s.last_routing s.mac
      → (s' : Layers) × (wrap_layer lib (h ∷ hs) (n ∷ m ∷ ns) (c ∷ cs) 0 s ≡ ok s')
        × (s'.enc_routing ≡ s'.last_routing)
        × Wrapped (h ∷ hs) ((node_hop m, c) ∷ es) s'.last_routing s'.mac
  unfolding wrap_layer
  wrap_layer-Wrapped h hs n m ns c cs es s v w =
      let (routing, made) = layer_total (node_hop m, c) s.last_routing s.mac v in
      let enc = encrypt lib law h.secret_hash routing in
      let mac = lib.hmac_sha256 (derive lib h.secret_hash) enc in
      (
        record { enc_routing = enc; last_routing = enc; mac = mac },
        rw (
          kdf-eq lib law h.secret_hash,
          made,
          aes_ctr-eq lib law h.secret_hash routing,
          compute_mac-eq lib law (derive lib h.secret_hash) enc,
        ),
        refl,
        (s.last_routing, s.mac, routing, made, refl, refl, w),
      )

  wrap_final_hop-Wrapped :
      (h : HeaderInitials) (c : Commands) (dest : ClientConfig)
      → hop_valid lib (some (recipient_hop dest)) ≡ true
      → (s : Layers) × (wrap_final_hop lib (h ∷ []) (c ∷ []) dest ≡ ok s)
        × Wrapped (h ∷ []) ((recipient_hop dest, c) ∷ []) s.last_routing s.mac
  unfolding wrap_final_hop
  wrap_final_hop-Wrapped h c dest v =
      let (routing, made) = layer_total (recipient_hop dest, c) [] [] v in
      let enc = encrypt lib law h.secret_hash routing in
      let mac = lib.hmac_sha256 (derive lib h.secret_hash) enc in
      (
        record { enc_routing = []; last_routing = enc; mac = mac },
        rw (
          made,
          kdf-eq lib law h.secret_hash,
          aes_ctr-eq lib law h.secret_hash routing,
          compute_mac-eq lib law (derive lib h.secret_hash) enc,
        ),
        ([], [], routing, made, refl, refl, (refl, refl)),
      )

  -- The loop succeeds on hops with valid strings, and leaves them wrapped.
  pub wrap_all-Wrapped :
      (hs : List HeaderInitials) (n : MixConfig) (ns : List MixConfig) (cs : List Commands)
      (dest : ClientConfig)
      → length hs ≡ suc (length ns)
      → length cs ≡ suc (length ns)
      → AllValid (itinerary (n ∷ ns) cs dest)
      → (s : Layers) × (wrap_all hs (n ∷ ns) cs dest ≡ ok s)
        × ((length ns ≡ 0) ⊎ (s.enc_routing ≡ s.last_routing))
        × Wrapped hs (itinerary (n ∷ ns) cs dest) s.last_routing s.mac
  unfolding wrap_layers
  wrap_all-Wrapped [] n ns cs dest p q v = absurd (omega arith)
  wrap_all-Wrapped (h ∷ []) n (m ∷ ns) cs dest p q v = absurd (omega arith)
  wrap_all-Wrapped (h ∷ h' ∷ hs) n [] cs dest p q v = absurd (omega arith)
  wrap_all-Wrapped (h ∷ hs) n ns [] dest p q v = absurd (omega arith)
  wrap_all-Wrapped (h ∷ []) n [] (c ∷ c' ∷ cs) dest p q v = absurd (omega arith)
  wrap_all-Wrapped (h ∷ h' ∷ hs) n (m ∷ ns) (c ∷ []) dest p q v = absurd (omega arith)
  wrap_all-Wrapped (h ∷ []) n [] (c ∷ []) dest p q v =
      let (s, made, w) = wrap_final_hop-Wrapped h c dest v.0 in (s, rw made, inl refl, w)
  wrap_all-Wrapped (h ∷ h' ∷ hs) n (m ∷ ns) (c ∷ c' ∷ cs) dest p q v =
      let (s, made, _, w) =
        wrap_all-Wrapped (h' ∷ hs) m ns (c' ∷ cs) dest (omega arith) (omega arith) v.1 in
      let (s', made', same, w') =
        wrap_layer-Wrapped h (h' ∷ hs) n m ns c (c' ∷ cs) (itinerary (m ∷ ns) (c' ∷ cs) dest) s v.0
          w in
      (s', rw (wrap_all-cons h h' hs n m ns c c' cs dest, made, made'), inr same, w')

  -- The payload of a packet for the given secrets.
  abbrev pub wrapped_content : List HeaderInitials → Bytes → Bytes
  wrapped_content [] message = message
  wrapped_content (h ∷ hs) message = encrypt lib law h.secret_hash (wrapped_content hs message)

  -- The body of the loop of `encapsulateContent`.
  abbrev encrypt_round : List HeaderInitials → ℕ → Bytes → Result Bytes
  encrypt_round hs i enc = do
    initial ← index hs i
    shared_key ← kdf lib initial.secret_hash
    aes_ctr lib shared_key enc

  content_loop-suc :
      (hs : List HeaderInitials) (k : ℕ) (enc : Bytes)
      → encapsulate_content_loop lib hs (suc k) enc
        ≡ (encrypt_round hs k enc >>= encapsulate_content_loop lib hs k)
  unfolding encapsulate_content_loop
  content_loop-suc hs k enc = sym (
      bind_assoc (index hs k) _ (encapsulate_content_loop lib hs k)
      ∙ ap (λ f. index hs k >>= f)
          (fun_ext λ i. bind_assoc (kdf lib i.secret_hash) _ (encapsulate_content_loop lib hs k)))

  content_loop-cons :
      (h : HeaderInitials) (hs : List HeaderInitials) (k : ℕ) (enc : Bytes)
      → encapsulate_content_loop lib (h ∷ hs) (suc k) enc
        ≡ (encapsulate_content_loop lib hs k enc >>= λ m. ok (encrypt lib law h.secret_hash m))
  content_loop-cons h hs zero enc =
      unfold encapsulate_content_loop in
      rw (kdf-eq lib law h.secret_hash, aes_ctr-eq lib law h.secret_hash enc)
  content_loop-cons h hs (suc k) enc =
      rw (content_loop-suc (h ∷ hs) (suc k) enc, content_loop-suc hs k enc)
        (ap (λ f. encrypt_round hs k enc >>= f) (fun_ext (λ enc'. content_loop-cons h hs k enc'))
          ∙ sym (bind_assoc (encrypt_round hs k enc) _ _))

  -- `encapsulateContent` succeeds, and puts a layer for each secret around the message.
  pub encapsulate_content-eq :
      (hs : List HeaderInitials) (message : Bytes)
      → encapsulate_content lib hs message ≡ ok (wrapped_content hs message)
  unfolding encapsulate_content encapsulate_content_loop
  encapsulate_content-eq [] message = refl
  encapsulate_content-eq (h ∷ hs) message =
      rw (content_loop-cons h hs (length hs) message, encapsulate_content-eq hs message)
