-- ===== src/Examples/Codecs.antt =====
-- Codecs that keep their law: a message as the list of its fields.
use loopix_messaging.Prelude.{
  ok_injective, ℕ, zero, suc, ◌≡◌, refl, ap, ◌∙◌, List, [], ◌∷◌, Option, none, some, Bool, Bytes,
  Result, ok, err, library,
}
use loopix_messaging.Messages.{
  MixConfig, ClientConfig, GeneralPacket, ProviderResponse, PullRequest, Hop, Commands, RoutingInfo,
  Codec, IsCodec, no_strings,
}

-- A field ends with 0, and its bytes are written one higher.
abbrev pub put_field : Bytes → Bytes → Bytes
put_field [] rest = 0 ∷ rest
put_field (x ∷ xs) rest = suc x ∷ put_field xs rest

abbrev pub pack : List Bytes → Bytes
pack [] = []
pack (f ∷ fs) = put_field f (pack fs)

abbrev on_first : ℕ → List Bytes → List Bytes
on_first x [] = (x ∷ []) ∷ []
on_first x (f ∷ fs) = (x ∷ f) ∷ fs

abbrev pub unpack : Bytes → List Bytes
unpack [] = []
unpack (zero ∷ r) = [] ∷ unpack r
unpack (suc x ∷ r) = on_first x (unpack r)

unpack-put_field : (f rest : Bytes) → unpack (put_field f rest) ≡ f ∷ unpack rest
unpack-put_field [] rest = refl
unpack-put_field (x ∷ xs) rest = ap (on_first x) (unpack-put_field xs rest)

pub unpack-pack : (fs : List Bytes) → unpack (pack fs) ≡ fs
unpack-pack [] = refl
unpack-pack (f ∷ fs) = unpack-put_field f (pack fs) ∙ ap (◌∷◌ f) (unpack-pack fs)

-- A message type by its fields.
module _ {M : Type 0} (fields : M → List Bytes) (read : List Bytes → Option M) where
  abbrev of_option : Option M → Result M
  of_option none = err (library 0)
  of_option (some m) = ok m

  abbrev pub fields_codec : Codec M
  fields_codec = record {
    marshal = λ m. ok (pack (fields m));
    unmarshal = λ b. of_option (read (unpack b));
  }

  pub fields_codec-IsCodec :
      {valid : M → Bool} → ((m : M) → read (fields m) ≡ some m) → IsCodec valid fields_codec
  fields_codec-IsCodec back = record {
    marshal_total = λ m v. (pack (fields m), refl);
    unmarshal-marshal = λ m b h. go m b h;
  }
    where
      go :
          (m : M) (b : Bytes)
          → ◌≡◌ {A = Result Bytes} (ok (pack (fields m))) (ok b)
          → of_option (read (unpack b)) ≡ ok m
      go m b h = rw (← ok_injective _ _ h, unpack-pack (fields m), back m)

abbrev general_packet_fields : GeneralPacket → List Bytes
general_packet_fields p = p.flag ∷ p.data_ ∷ []

abbrev read_general_packet : List Bytes → Option GeneralPacket
read_general_packet (f ∷ d ∷ []) = some (record { flag = f; data_ = d })
read_general_packet _ = none

abbrev pub toy_general_packet : Codec GeneralPacket
toy_general_packet = fields_codec general_packet_fields read_general_packet

pub toy_general_packet-IsCodec : IsCodec no_strings toy_general_packet
toy_general_packet-IsCodec =
    fields_codec-IsCodec general_packet_fields read_general_packet (λ m. refl)

abbrev provider_response_fields : ProviderResponse → List Bytes
provider_response_fields p = (p.number_of_packets ∷ []) ∷ p.packets

abbrev read_provider_response : List Bytes → Option ProviderResponse
read_provider_response ((n ∷ []) ∷ ps) = some (record { number_of_packets = n; packets = ps })
read_provider_response _ = none

abbrev pub toy_provider_response : Codec ProviderResponse
toy_provider_response = fields_codec provider_response_fields read_provider_response

pub toy_provider_response-IsCodec : IsCodec no_strings toy_provider_response
toy_provider_response-IsCodec =
    fields_codec-IsCodec provider_response_fields read_provider_response (λ m. refl)

abbrev pull_request_fields : PullRequest → List Bytes
pull_request_fields p = p.token ∷ p.client_public_key ∷ []

abbrev read_pull_request : List Bytes → Option PullRequest
read_pull_request (t ∷ k ∷ []) = some (record { token = t; client_public_key = k })
read_pull_request _ = none

abbrev pub toy_pull_request : Codec PullRequest
toy_pull_request = fields_codec pull_request_fields read_pull_request

pub toy_pull_request-IsCodec : IsCodec no_strings toy_pull_request
toy_pull_request-IsCodec = fields_codec-IsCodec pull_request_fields read_pull_request (λ m. refl)

abbrev pub client_config_fields : ClientConfig → List Bytes
client_config_fields c = elim c.provider [
  | none ↦ c.id ∷ c.host ∷ c.port ∷ c.pub_key ∷ []
  | some p ↦
      c.id ∷ c.host ∷ c.port ∷ c.pub_key ∷ p.id ∷ p.host ∷ p.port ∷ p.pub_key ∷ (p.layer ∷ []) ∷ []
]

abbrev pub read_client_config : List Bytes → Option ClientConfig
read_client_config (i ∷ h ∷ p ∷ k ∷ []) =
    some (record { id = i; host = h; port = p; pub_key = k; provider = none })
read_client_config (i ∷ h ∷ p ∷ k ∷ i' ∷ h' ∷ p' ∷ k' ∷ (l ∷ []) ∷ []) = some (record {
  id = i;
  host = h;
  port = p;
  pub_key = k;
  provider = some (record { id = i'; host = h'; port = p'; pub_key = k'; layer = l });
})
read_client_config _ = none

abbrev pub toy_client_config : Codec ClientConfig
toy_client_config = fields_codec client_config_fields read_client_config

pub read_client_config-fields :
    (c : ClientConfig) → read_client_config (client_config_fields c) ≡ some c
read_client_config-fields c = back c.id c.host c.port c.pub_key c.provider
  where
    back :
        (i h p k : Bytes) (q : Option MixConfig)
        → let c : ClientConfig = record { id = i; host = h; port = p; pub_key = k; provider = q } in
          read_client_config (client_config_fields c) ≡ some c
    back i h p k none = refl
    back i h p k (some q) = refl

pub toy_client_config-IsCodec : IsCodec no_strings toy_client_config
toy_client_config-IsCodec =
    fields_codec-IsCodec client_config_fields read_client_config read_client_config-fields

abbrev commands_fields : Option Commands → List Bytes → List Bytes
commands_fields none rest = [] ∷ rest
commands_fields (some c) rest = (c.delay ∷ c.flag) ∷ rest

abbrev hop_fields : Option Hop → List Bytes → List Bytes
hop_fields none rest = [] ∷ rest
hop_fields (some h) rest = (1 ∷ []) ∷ h.id ∷ h.address ∷ h.pub_key ∷ rest

abbrev routing_info_fields : RoutingInfo → List Bytes
routing_info_fields r =
    hop_fields r.next_hop (commands_fields r.routing_commands (r.next_hop_meta_data ∷ r.mac ∷ []))

abbrev read_commands : Bytes → Option Commands
read_commands [] = none
read_commands (d ∷ f) = some (record { delay = d; flag = f })

abbrev read_routing_info : List Bytes → Option RoutingInfo
read_routing_info ([] ∷ c ∷ d ∷ m ∷ []) = some (record {
  next_hop = none;
  routing_commands = read_commands c;
  next_hop_meta_data = d;
  mac = m;
})
read_routing_info (x ∷ i ∷ a ∷ k ∷ c ∷ d ∷ m ∷ []) = some (record {
  next_hop = some (record { id = i; address = a; pub_key = k });
  routing_commands = read_commands c;
  next_hop_meta_data = d;
  mac = m;
})
read_routing_info _ = none

abbrev pub toy_routing_info : Codec RoutingInfo
toy_routing_info = fields_codec routing_info_fields read_routing_info

pub toy_routing_info-IsCodec : {valid : RoutingInfo → Bool} → IsCodec valid toy_routing_info
toy_routing_info-IsCodec =
    fields_codec-IsCodec routing_info_fields read_routing_info
      (λ r. back r.next_hop r.routing_commands r.next_hop_meta_data r.mac)
  where
    back :
        (h : Option Hop) (c : Option Commands) (d m : Bytes)
        → let r : RoutingInfo = record {
          next_hop = h;
          routing_commands = c;
          next_hop_meta_data = d;
          mac = m;
        } in
          read_routing_info (routing_info_fields r) ≡ some r
    back none none d m = refl
    back none (some c) d m = refl
    back (some h) none d m = refl
    back (some h) (some c) d m = refl
