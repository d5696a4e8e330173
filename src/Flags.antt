-- ===== src/Flags.antt =====
-- flags/flags.go: the flag of a Sphinx packet and the flag of a general packet.
use loopix_messaging.Prelude.{ℕ, ◌≡◌, ◌≢◌, ◌↔◌, [], ◌∷◌, Bytes, ◌==◌, if◌then◌else◌, arith}

pub data SphinxFlag : Type 0 where
  last_hop relay invalid_sphinx : SphinxFlag

pub data PacketTypeFlag : Type 0 where
  assign comm token pull invalid_packet : PacketTypeFlag

abbrev pub sphinx_flag_byte : SphinxFlag → ℕ
sphinx_flag_byte last_hop = 0xf0
sphinx_flag_byte relay = 0xf1
sphinx_flag_byte invalid_sphinx = 0

abbrev pub sphinx_flag_bytes : SphinxFlag → Bytes
sphinx_flag_bytes f = sphinx_flag_byte f ∷ []

unfoldable pub sphinx_flag_from_byte : ℕ → SphinxFlag
sphinx_flag_from_byte b =
    if b == 0xf0 then last_hop else if b == 0xf1 then relay else invalid_sphinx

unfoldable pub sphinx_flag_from_bytes : Bytes → SphinxFlag
unfolding sphinx_flag_from_byte
sphinx_flag_from_bytes (b ∷ []) = sphinx_flag_from_byte b
sphinx_flag_from_bytes _ = invalid_sphinx

abbrev pub packet_flag_byte : PacketTypeFlag → ℕ
packet_flag_byte assign = 0xa2
packet_flag_byte comm = 0xc6
packet_flag_byte token = 0xa9
packet_flag_byte pull = 0xff
packet_flag_byte invalid_packet = 0

abbrev pub packet_flag_bytes : PacketTypeFlag → Bytes
packet_flag_bytes f = packet_flag_byte f ∷ []

unfoldable pub packet_flag_from_byte : ℕ → PacketTypeFlag
packet_flag_from_byte b =
    if b == 0xa2
    then assign
    else if b == 0xc6
    then comm
    else if b == 0xa9
    then token
    else if b == 0xff
    then pull
    else invalid_packet

unfoldable pub packet_flag_from_bytes : Bytes → PacketTypeFlag
unfolding packet_flag_from_byte
packet_flag_from_bytes (b ∷ []) = packet_flag_from_byte b
packet_flag_from_bytes _ = invalid_packet

sphinx_flag_unique :
    (b : Bytes) (f : SphinxFlag)
    → f ≢ invalid_sphinx
    → ((sphinx_flag_from_bytes b ≡ f → b ≡ sphinx_flag_bytes f)
        × (b ≡ sphinx_flag_bytes f → sphinx_flag_from_bytes b ≡ f))
unfolding sphinx_flag_from_bytes
sphinx_flag_unique [] f v = (λ h. ground arith, λ h. ground arith)
sphinx_flag_unique (x ∷ []) f v = (λ h. ground arith, λ h. ground arith)
sphinx_flag_unique (x ∷ y ∷ b) f v = (λ h. ground arith, λ h. ground arith)

packet_flag_unique :
    (b : Bytes) (f : PacketTypeFlag)
    → f ≢ invalid_packet
    → ((packet_flag_from_bytes b ≡ f → b ≡ packet_flag_bytes f)
        × (b ≡ packet_flag_bytes f → packet_flag_from_bytes b ≡ f))
unfolding packet_flag_from_bytes
packet_flag_unique [] f v = (λ h. ground arith, λ h. ground arith)
packet_flag_unique (x ∷ []) f v = (λ h. ground arith, λ h. ground arith)
packet_flag_unique (x ∷ y ∷ b) f v = (λ h. ground arith, λ h. ground arith)

-- A byte slice reads as a given valid flag, of a packet or of Sphinx, exactly when it is the slice
-- that the flag is written as, so no two flags of a kind share a slice.
pub flag_unique :
    (b : Bytes) (f : SphinxFlag) (g : PacketTypeFlag)
    → f ≢ invalid_sphinx
    → g ≢ invalid_packet
    → ((sphinx_flag_from_bytes b ≡ f) ↔ (b ≡ sphinx_flag_bytes f))
      × ((packet_flag_from_bytes b ≡ g) ↔ (b ≡ packet_flag_bytes g))
flag_unique b f g v w = (sphinx_flag_unique b f v, packet_flag_unique b g w)
