-- ===== src/Helpers.antt =====
-- helpers/crypto.go: random choices, over the draws that math/rand makes.
pub mod Directory
pub mod Pem
use loopix_messaging.Prelude.{
  ℕ, zero, suc, ◌<◌, ◌≡◌, List, [], ◌∷◌, Bool, true, false, Bytes, bytes, Result, ok, err, panic,
  exponential_parameter, index, length, ◌==◌, if◌then◌else◌, ◌>>=◌,
}
use loopix_messaging.Messages.{Float64, MixConfig}

-- `rand.Intn` and `rand.ExpFloat64`, by the number of the draw, and the operations on floats.
pub record Random : Type 0 where
  pub intn : ℕ → ℕ → ℕ
  pub exp_float64 : ℕ → Float64
  pub le_zero : Float64 → Bool
  pub divide : Float64 → Float64 → Float64
  pub five : Float64

-- A draw is below its bound, and five is positive.
pub record IsRandom (r : Random) : Type 0 where
  pub intn-lt : (i n : ℕ) → 0 < n → r.intn i n < n
  pub five_positive : r.le_zero r.five ≡ false

module _ (r : Random) where
  -- `rand.Intn` panics at 0.
  unfoldable pub random_mix : ℕ → List MixConfig → Result MixConfig
  random_mix i [] = panic
  random_mix i (m ∷ mixes) = index (m ∷ mixes) (r.intn i (length (m ∷ mixes)))

  unfoldable pub random_exponential : ℕ → Float64 → Result Float64
  random_exponential i exp_param =
      if r.le_zero exp_param
      then err exponential_parameter
      else ok (r.divide (r.exp_float64 i) exp_param)

  abbrev pub letter_runes : Bytes
  letter_runes = bytes "ABCDEFGHIJKLMNOPQRSTUVWXYZabcdefghijklmnopqrstuvwxyz0123456789"

  -- The letters from draw `i` on.
  unfoldable pub random_string : ℕ → ℕ → Result Bytes
  random_string i zero = ok []
  random_string i (suc n) = do
    letter ← index letter_runes (r.intn i (length letter_runes))
    rest ← random_string (suc i) n
    ok (letter ∷ rest)

-- The loop of `IsZeroElement` over the bytes of the element.
unfoldable pub is_zero_element : Bytes → Bool
is_zero_element [] = true
is_zero_element (b ∷ bs) = let rest = is_zero_element bs in if b == 0 then rest else false
