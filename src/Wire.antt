-- ===== src/Wire.antt =====
-- The messages of config/structs.proto that the parties marshal.
use loopix_messaging.Messages.{
  ClientConfig, GeneralPacket, ProviderResponse, PullRequest, Codec, IsCodec, no_strings,
}

pub record Wire : Type 0 where
  pub general_packet : Codec GeneralPacket
  pub provider_response : Codec ProviderResponse
  pub pull_request : Codec PullRequest
  pub client_config : Codec ClientConfig

-- A client configuration has strings; those that are not valid UTF-8 need not marshal.
pub record IsWire (w : Wire) : Type 0 where
  pub general_packet_codec : IsCodec no_strings w.general_packet
  pub provider_response_codec : IsCodec no_strings w.provider_response
  pub pull_request_codec : IsCodec no_strings w.pull_request
