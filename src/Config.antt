-- ===== src/Config.antt =====
-- config/config.go: constructors, the end-to-end path, and the packets that the parties exchange.
use loopix_messaging.Prelude.{
  ℕ, zero, suc, ◌+◌, List, [], ◌∷◌, some, Bytes, Result, ok, panic, ◌>>=◌, length, replicate,
}
use loopix_messaging.Flags.{PacketTypeFlag, packet_flag_bytes}
use loopix_messaging.Messages.{MixConfig, ClientConfig, GeneralPacket, ProviderResponse, Codec}

abbrev pub provider_layer : ℕ
provider_layer = 1000000

abbrev pub new_mix_config : Bytes → Bytes → Bytes → Bytes → ℕ → MixConfig
new_mix_config mix_id host port pub_key layer = record {
  id = mix_id;
  host = host;
  port = port;
  pub_key = pub_key;
  layer = layer;
}

abbrev pub new_client_config : Bytes → Bytes → Bytes → Bytes → MixConfig → ClientConfig
new_client_config client_id host port pub_key provider_info = record {
  id = client_id;
  host = host;
  port = port;
  pub_key = pub_key;
  provider = some provider_info;
}

unfoldable pub wrap_with_flag : Codec GeneralPacket → PacketTypeFlag → Bytes → Result Bytes
wrap_with_flag c flag content =
    c.marshal (record { flag = packet_flag_bytes flag; data_ = content })

pub record E2EPath : Type 0 where
  pub ingress_provider : MixConfig
  pub mixes : List MixConfig
  pub egress_provider : MixConfig
  pub recipient : ClientConfig

abbrev pub path_len : E2EPath → ℕ
path_len p = 3 + length p.mixes

abbrev pub empty_packet : GeneralPacket
empty_packet = record { flag = []; data_ = [] }

-- The loop writes `packets[i]`, and panics past the `slots` that were made.
unfoldable pub fill_packets : Codec GeneralPacket → ℕ → List Bytes → Result (List GeneralPacket)
fill_packets c slots [] = ok (replicate slots empty_packet)
fill_packets c zero (b ∷ bs) = panic
fill_packets c (suc slots) (b ∷ bs) = do
  p ← c.unmarshal b
  rest ← fill_packets c slots bs
  ok (p ∷ rest)

unfoldable pub unmarshal_provider_response :
    Codec GeneralPacket → ProviderResponse → Result (List GeneralPacket)
unfolding fill_packets
unmarshal_provider_response c resp = fill_packets c resp.number_of_packets resp.packets
