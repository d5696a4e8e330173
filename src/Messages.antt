-- ===== src/Messages.antt =====
-- The messages of config/structs.proto and sphinx/sphinx_structs.proto, as the structs of their
-- generated files, and what the program relies on of `proto.Marshal` and `proto.Unmarshal`.
use loopix_messaging.Prelude.{ℕ, ◌≡◌, Bool, true, List, Option, Bytes, Result, ok}

-- The bit pattern of a `float64`. The program only carries such values.
abbrev pub Float64 : Type 0
Float64 = ℕ

pub record MixConfig : Type 0 where
  pub id : Bytes
  pub host : Bytes
  pub port : Bytes
  pub pub_key : Bytes
  pub layer : ℕ

pub record ClientConfig : Type 0 where
  pub id : Bytes
  pub host : Bytes
  pub port : Bytes
  pub pub_key : Bytes
  pub provider : Option MixConfig

pub record GeneralPacket : Type 0 where
  pub flag : Bytes
  pub data_ : Bytes

pub record ProviderResponse : Type 0 where
  pub number_of_packets : ℕ
  pub packets : List Bytes

pub record PullRequest : Type 0 where
  pub token : Bytes
  pub client_public_key : Bytes

pub record Header : Type 0 where
  pub alpha : Bytes
  pub beta : Bytes
  pub mac : Bytes

pub record SphinxPacket : Type 0 where
  pub hdr : Option Header
  pub pld : Bytes

pub record Hop : Type 0 where
  pub id : Bytes
  pub address : Bytes
  pub pub_key : Bytes

pub record Commands : Type 0 where
  pub delay : Float64
  pub flag : Bytes

pub record RoutingInfo : Type 0 where
  pub next_hop : Option Hop
  pub routing_commands : Option Commands
  pub next_hop_meta_data : Bytes
  pub mac : Bytes

pub record HeaderInitials : Type 0 where
  pub alpha : Bytes
  pub secret : Bytes
  pub blinder : Bytes
  pub secret_hash : Bytes

-- `proto.Marshal` and `proto.Unmarshal` at one message type.
pub record Codec (M : Type 0) : Type 0 where
  pub marshal : M → Result Bytes
  pub unmarshal : Bytes → Result M

-- Marshalling succeeds on a message whose strings are valid UTF-8 (`strings_valid`), and what was
-- marshalled is read back.
pub record IsCodec {M : Type 0} (strings_valid : M → Bool) (c : Codec M) : Type 0 where
  pub marshal_total : (m : M) → strings_valid m ≡ true → (b : Bytes) × (c.marshal m ≡ ok b)
  pub unmarshal-marshal : (m : M) (b : Bytes) → c.marshal m ≡ ok b → c.unmarshal b ≡ ok m

-- What was marshalled is read back as `as_read` says.
abbrev pub ReadsBack : {M : Type 0} → (M → M) → Codec M → Type 0
ReadsBack {M} as_read c = (m : M) (b : Bytes) → c.marshal m ≡ ok b → c.unmarshal b ≡ ok (as_read m)

-- A message with no string field.
abbrev pub no_strings : {M : Type 0} → M → Bool
no_strings m = true
