-- ===== src/Sphinx/Crypto.antt =====
-- sphinx/crypto.go and sphinx/utils.go.
use loopix_messaging.Prelude.{
  ℕ, suc, [], ◌∷◌, Bytes, bytes, Result, ok, panic, ◌>>=◌, length, take, ltb, if◌then◌else◌,
}
use loopix_messaging.Prelude.Xor.{bit_xor}
use loopix_messaging.Sphinx.Library.{Library}

-- sphinx.go: K
abbrev pub k_size : ℕ
k_size = 16

-- `b[:n]`
unfoldable pub slice_to : ℕ → Bytes → Result Bytes
slice_to n b = if ltb (length b) n then panic else ok (take n b)

-- XORKeyStream, from position `i` of the key stream on.
unfoldable pub xor_key_stream : (ℕ → ℕ) → ℕ → Bytes → Bytes
xor_key_stream key i [] = []
xor_key_stream key i (x ∷ xs) = bit_xor x (key i) ∷ xor_key_stream key (suc i) xs

module _ (lib : Library) where
  unfoldable pub aes_ctr : Bytes → Bytes → Result Bytes
  aes_ctr key plaintext = do
    block ← lib.new_cipher key
    ok (xor_key_stream (block.key_stream (bytes "0000000000000000")) 0 plaintext)

  -- `Write` of a hash never fails, so the error branches of `hash` and `Hmac` are never taken.
  unfoldable pub hash : Bytes → Result Bytes
  hash arg = ok (lib.sha256 arg)

  unfoldable pub hmac : Bytes → Bytes → Result Bytes
  hmac key message = ok (lib.hmac_sha256 key message)

  unfoldable pub kdf : Bytes → Result Bytes
  unfolding hash slice_to
  kdf key = do b ← hash key; slice_to k_size b

  unfoldable pub compute_mac : Bytes → Bytes → Result Bytes
  unfolding hmac
  compute_mac key message = hmac key message

xor_each : Bytes → Bytes → Bytes
xor_each [] _ = []
xor_each (x ∷ xs) [] = []
xor_each (x ∷ xs) (y ∷ ys) = bit_xor x y ∷ xor_each xs ys

-- It panics on slices of different lengths.
unfoldable pub xor_bytes : Bytes → Bytes → Result Bytes
unfolding xor_each
xor_bytes b1 b2 =
    if ltb (length b1) (length b2)
    then panic
    else if ltb (length b2) (length b1)
    then panic
    else ok (xor_each b1 b2)
