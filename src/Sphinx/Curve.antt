-- ===== src/Sphinx/Curve.antt =====
-- sphinx/crypto_curve25519.go: field elements and keys, arrays of 32 bytes.
use loopix_messaging.Prelude.{
  ℕ, List, [], ◌∷◌, foldl, Bool, Bytes, Result, ok, err, panic, invalid_key_data, ◌>>=◌, length,
  ltb, ◌==◌, if◌then◌else◌, equal, copy_to,
}
use loopix_messaging.Sphinx.Library.{Library}

abbrev pub field_element_size : ℕ
field_element_size = 32

pub record FieldElement : Type 0 where
  pub raw : Bytes

pub record PrivateKey : Type 0 where
  pub raw : Bytes

pub record PublicKey : Type 0 where
  pub raw : Bytes

unfoldable pub bytes_to_field_element : Bytes → Result FieldElement
bytes_to_field_element b =
    if ltb field_element_size (length b)
    then panic
    else ok (record { raw = copy_to field_element_size b })

unfoldable pub bytes_to_private_key : Bytes → Result PrivateKey
bytes_to_private_key b =
    if ltb field_element_size (length b)
    then panic
    else ok (record { raw = copy_to field_element_size b })

unfoldable pub bytes_to_public_key : Bytes → Result PublicKey
bytes_to_public_key b =
    if ltb field_element_size (length b)
    then panic
    else ok (record { raw = copy_to field_element_size b })

unfoldable pub private_key_to_field_element : PrivateKey → Result FieldElement
private_key_to_field_element pk = bytes_to_field_element pk.raw

unfoldable pub public_key_to_field_element : PublicKey → Result FieldElement
public_key_to_field_element pk = bytes_to_field_element pk.raw

-- MarshalBinary and UnmarshalBinary of the two kinds of keys.
unfoldable pub marshal_private_key : PrivateKey → Result Bytes
marshal_private_key pk = ok pk.raw

unfoldable pub unmarshal_private_key : Bytes → Result PrivateKey
unmarshal_private_key b =
    if length b == field_element_size
    then ok (record { raw = copy_to field_element_size b })
    else err invalid_key_data

unfoldable pub marshal_public_key : PublicKey → Result Bytes
marshal_public_key pk = ok pk.raw

unfoldable pub unmarshal_public_key : Bytes → Result PublicKey
unmarshal_public_key b =
    if length b == field_element_size
    then ok (record { raw = copy_to field_element_size b })
    else err invalid_key_data

-- `read` is what `io.ReadFull(rand.Reader, …)` gives for 32 bytes.
unfoldable pub random_element : Result Bytes → Result FieldElement
random_element read = do b ← read; ok (record { raw = b })

pub compare_elements : Bytes → Bytes → Bool
compare_elements e1 e2 = equal e1 e2

module _ (lib : Library) where
  unfoldable pub generate_key_pair : Result Bytes → Result (PrivateKey × PublicKey)
  generate_key_pair read = do
    priv ← read
    ok (record { raw = priv }, record { raw = lib.scalar_base_mult priv })

  -- The body of the loops of `expo` and `expoGroupBase`.
  abbrev pub mult_by : Bytes → FieldElement → Bytes
  mult_by res val = lib.scalar_mult val.raw res

  -- The first exponent is read without a check.
  unfoldable pub expo : FieldElement → List FieldElement → Result FieldElement
  expo base [] = panic
  expo base (x ∷ rest) = ok (record { raw = foldl mult_by (lib.scalar_mult x.raw base.raw) rest })

  unfoldable pub expo_group_base : List FieldElement → Result FieldElement
  expo_group_base [] = panic
  expo_group_base (x ∷ rest) = ok (record { raw = foldl mult_by (lib.scalar_base_mult x.raw) rest })
