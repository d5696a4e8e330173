-- ===== src/Sphinx/Packing.antt =====
-- sphinx/sphinx.go, the sender's side: `PackForwardMessage` and what it calls.
use loopix_messaging.Prelude.{
  ℕ, zero, suc, ◌-◌, List, [], ◌∷◌, ◌++◌, some, Bytes, bytes, Result, ok, ◌>>=◌, ◌>>◌, guard, index,
  length, ◌==◌, if◌then◌else◌, invalid_public_key, wrong_number_of_secrets,
}
use loopix_messaging.Flags.{last_hop, relay, sphinx_flag_bytes}
use loopix_messaging.Messages.{
  Float64, MixConfig, ClientConfig, Header, SphinxPacket, Commands, HeaderInitials,
}
use loopix_messaging.Config.{E2EPath}
use loopix_messaging.Sphinx.Library.{Library}
use loopix_messaging.Sphinx.Crypto.{aes_ctr, kdf, compute_mac, xor_key_stream}
use loopix_messaging.Sphinx.Curve.{
  FieldElement, field_element_size, bytes_to_field_element, bytes_to_public_key,
  public_key_to_field_element, random_element, expo, expo_group_base,
}

-- `host + ":" + port`
abbrev pub join_address : Bytes → Bytes → Bytes
join_address host port = host ++ (bytes ":" ++ port)

-- What the loop of `encapsulateHeader` carries. Of `routingCommands` only the last is read.
pub record Layers : Type 0 where
  pub enc_routing : Bytes
  pub last_routing : Bytes
  pub mac : Bytes

module _ (lib : Library) where
  unfoldable pub compute_shared_secret_hash : Bytes → Bytes → Result Bytes
  compute_shared_secret_hash key iv = do
    block ← lib.new_cipher key
    ok (xor_key_stream (block.key_stream iv) 0 (bytes "0000000000000000"))

  unfoldable pub compute_blinding_factor : Bytes → Result FieldElement
  unfolding compute_shared_secret_hash
  compute_blinding_factor key = do
    blinder ← compute_shared_secret_hash key (bytes "initialvector000")
    bytes_to_field_element blinder

  -- The loop of `getSharedSecrets` from node `i` on.
  unfoldable pub shared_secrets_from :
      ℕ → List MixConfig → List FieldElement → Result (List HeaderInitials)
  shared_secrets_from i [] blind_factors = ok []
  shared_secrets_from i (n ∷ nodes) blind_factors = do
    alpha ← expo_group_base lib blind_factors
    guard (length n.pub_key == field_element_size) (invalid_public_key i)
    pub_key ← bytes_to_public_key n.pub_key
    base ← public_key_to_field_element pub_key
    s ← expo lib base blind_factors
    aes_s ← kdf lib s.raw
    blinder ← compute_blinding_factor aes_s
    rest ← shared_secrets_from (suc i) nodes (blind_factors ++ (blinder ∷ []))
    ok (
        record { alpha = alpha.raw; secret = s.raw; blinder = blinder.raw; secret_hash = aes_s }
        ∷ rest)

  unfoldable pub get_shared_secrets : List MixConfig → FieldElement → Result (List HeaderInitials)
  get_shared_secrets nodes initial_val = shared_secrets_from 0 nodes (initial_val ∷ [])

  -- The body of the loop of `encapsulateHeader`. It derives the key for the code anew from the
  -- same hash as the key for the encryption, so that call fails only if the first one does.
  unfoldable pub wrap_layer :
      List HeaderInitials → List MixConfig → List Commands → ℕ → Layers → Result Layers
  wrap_layer initials nodes commands i s = do
    next_node ← index nodes (suc i)
    command ← index commands i
    initial ← index initials i
    enc_key ← kdf lib initial.secret_hash
    routing_bytes ← lib.routing_info.marshal (record {
      next_hop = some (record {
        id = next_node.id;
        address = join_address next_node.host next_node.port;
        pub_key = next_node.pub_key;
      });
      routing_commands = some command;
      next_hop_meta_data = s.last_routing;
      mac = s.mac;
    })
    enc_routing ← aes_ctr lib enc_key routing_bytes
    mac_key ← kdf lib initial.secret_hash
    mac ← compute_mac lib mac_key enc_routing
    ok (record { enc_routing = enc_routing; last_routing = enc_routing; mac = mac })

  -- `for i := n - 1; i >= 0; i--`
  unfoldable pub wrap_layers :
      List HeaderInitials → List MixConfig → List Commands → ℕ → Layers → Result Layers
  wrap_layers initials nodes commands zero s = ok s
  wrap_layers initials nodes commands (suc i) s = do
    s' ← wrap_layer initials nodes commands i s
    wrap_layers initials nodes commands i s'

  -- The part of `encapsulateHeader` before its loop.
  unfoldable pub wrap_final_hop : List HeaderInitials → List Commands → ClientConfig → Result Layers
  wrap_final_hop initials commands destination = do
    command ← index commands (length commands - 1)
    final_hop_bytes ← lib.routing_info.marshal (record {
      next_hop = some (record {
        id = destination.id;
        address = join_address destination.host destination.port;
        pub_key = [];
      });
      routing_commands = some command;
      next_hop_meta_data = [];
      mac = [];
    })
    initial ← index initials (length initials - 1)
    kdf_res ← kdf lib initial.secret_hash
    enc_final_hop ← aes_ctr lib kdf_res final_hop_bytes
    mac ← compute_mac lib kdf_res enc_final_hop
    ok (record { enc_routing = []; last_routing = enc_final_hop; mac = mac })

  unfoldable pub encapsulate_header :
      List HeaderInitials → List MixConfig → List Commands → ClientConfig → Result Header
  encapsulate_header initials nodes commands destination = do
    s ← wrap_final_hop initials commands destination
    s' ← wrap_layers initials nodes commands (length nodes - 1) s
    first ← index initials 0
    ok (record { alpha = first.alpha; beta = s'.enc_routing; mac = s'.mac })

  -- `for i := n - 1; i >= 0; i--`
  unfoldable pub encapsulate_content_loop : List HeaderInitials → ℕ → Bytes → Result Bytes
  encapsulate_content_loop initials zero enc = ok enc
  encapsulate_content_loop initials (suc i) enc = do
    initial ← index initials i
    shared_key ← kdf lib initial.secret_hash
    enc' ← aes_ctr lib shared_key enc
    encapsulate_content_loop initials i enc'

  unfoldable pub encapsulate_content : List HeaderInitials → Bytes → Result Bytes
  encapsulate_content initials message = encapsulate_content_loop initials (length initials) message

-- The loop of `createHeader` over its `n` nodes, from node `i` on.
unfoldable pub make_commands : ℕ → ℕ → List MixConfig → List Float64 → Result (List Commands)
make_commands n i [] delays = ok []
make_commands n i (node ∷ nodes) delays = do
  delay ← index delays i
  rest ← make_commands n (suc i) nodes delays
  ok (
      record { delay = delay; flag = sphinx_flag_bytes (if i == n - 1 then last_hop else relay) }
      ∷ rest)

module _ (lib : Library) where
  -- `read` is what the random source gives.
  unfoldable pub create_header :
      Result Bytes
      → List MixConfig
      → List Float64
      → ClientConfig
      → Result (List HeaderInitials × Header)
  create_header read nodes delays dest = do
    x ← random_element read
    initials ← get_shared_secrets lib nodes x
    guard (length initials == length nodes) wrong_number_of_secrets
    commands ← make_commands (length nodes) 0 nodes delays
    header ← encapsulate_header lib initials nodes commands dest
    ok (initials, header)

  unfoldable pub pack_forward_message :
      Result Bytes → E2EPath → List Float64 → Bytes → Result SphinxPacket
  pack_forward_message read path delays message = do
    (initials, header) ←
        create_header read (path.ingress_provider ∷ (path.mixes ++ (path.egress_provider ∷ [])))
          delays path.recipient
    payload ← encapsulate_content lib initials message
    ok (record { hdr = some header; pld = payload })
