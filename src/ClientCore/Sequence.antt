-- ===== src/ClientCore/Sequence.antt =====
-- `getRandomMixSequence`: which mixes a path can take.
use loopix_messaging.Prelude.{
  ℕ, zero, suc, ◌≤◌, ◌<◌, ◌≡◌, refl, ap, ◌∙◌, List, [], ◌∷◌, some, false, ok, length, get_elem?,
  ◌==◌, arith,
}
use loopix_messaging.Prelude.Maps.{lookup, remove, nat_key, lookup-remove}
use loopix_messaging.Messages.{Float64, MixConfig}
use loopix_messaging.Topology.{LayeredMixes}
use loopix_messaging.Helpers.{Random, IsRandom, random_mix, random_exponential}
use loopix_messaging.ClientCore.{
  mix_sequence_from, get_random_mix_sequence, delays_from, generate_delay_sequence,
}

-- The map has a mix for each of the `n` layers from `i` on.
abbrev pub Stocked : LayeredMixes → ℕ → ℕ → Type 0
Stocked mixes i zero = Unit {0}
Stocked mixes i (suc n) =
    ((x : MixConfig) × (xs : List MixConfig) × (lookup i mixes ≡ some (x ∷ xs)))
    × Stocked mixes (suc i) n

-- The mix is one of the list.
abbrev pub OneOf {ℓ} : {A : Type ℓ} → A → List A → Type ℓ
OneOf m xs = (k : ℕ) × (get_elem? xs k ≡ some m)

-- The mixes come from the layers from `i` on, one from each in turn.
abbrev pub InLayers : LayeredMixes → ℕ → List MixConfig → Type 0
InLayers mixes i [] = Unit {0}
InLayers mixes i (m ∷ ms) =
    ((layer : List MixConfig) × (lookup i mixes ≡ some layer) × OneOf m layer)
    × InLayers mixes (suc i) ms

get_elem?-total {ℓ} :
    {A : Type ℓ} (xs : List A) (k : ℕ) → k < length xs → (a : A) × (get_elem? xs k ≡ some a)
get_elem?-total [] k h = absurd (omega arith)
get_elem?-total (x ∷ xs) zero h = (x, refl)
get_elem?-total (x ∷ xs) (suc k) h = get_elem?-total xs k (omega arith)

length-remove-le : (k : ℕ) (m : LayeredMixes) → length (remove k m) ≤ length m
unfolding remove
length-remove-le k [] = omega arith
length-remove-le k ((j, v) ∷ m) = ground (arith, length-remove-le k m)

length-remove-lt :
    (k : ℕ) (m : LayeredMixes) (v : List MixConfig)
    → lookup k m ≡ some v
    → length (remove k m) < length m
unfolding remove lookup
length-remove-lt k [] v h = cc
length-remove-lt k ((j, w) ∷ m) v h = ground (arith, length-remove-le k m, length-remove-lt k m v)

Stocked-remove :
    (mixes : LayeredMixes) (j i n : ℕ) → j < i → Stocked mixes i n → Stocked (remove j mixes) i n
Stocked-remove mixes j i zero h s = tt
Stocked-remove mixes j i (suc n) h s =
    let (x, xs, e) = s.0 in
    (
      (x, xs, lookup-remove j i mixes ∙ rw (different, e)),
      Stocked-remove mixes j (suc i) n (omega arith) s.1,
    )
  where
    different : (j == i) ≡ false
    different = ground arith

-- So many layers need so many entries.
Stocked-length : (mixes : LayeredMixes) (i n : ℕ) → Stocked mixes i n → n ≤ length mixes
Stocked-length mixes i zero s = omega arith
Stocked-length mixes i (suc n) s =
    let (x, xs, e) = s.0 in
    omega (
      arith,
      length-remove-lt i mixes (x ∷ xs) e,
      Stocked-length (remove i mixes) (suc i) n
          (Stocked-remove mixes i (suc i) n (omega arith) s.1),
    )

module _ (r : Random) (law : IsRandom r) where
  random_mix-OneOf :
      (i : ℕ) (x : MixConfig) (xs : List MixConfig)
      → (m : MixConfig) × (random_mix r i (x ∷ xs) ≡ ok m) × OneOf m (x ∷ xs)
  unfolding random_mix
  random_mix-OneOf i x xs =
      let n = length (x ∷ xs) in
      let (m, e) = get_elem?-total (x ∷ xs) (r.intn i n) (law.intn-lt i n (omega arith)) in
      (m, rw e, (r.intn i n, e))

  mix_sequence_from-InLayers :
      (mixes : LayeredMixes) (i n : ℕ)
      → Stocked mixes i n
      → (ms : List MixConfig) × (mix_sequence_from r mixes i n ≡ ok ms)
        × (length ms ≡ n)
        × InLayers mixes i ms
  unfolding mix_sequence_from
  mix_sequence_from-InLayers mixes i zero s = ([], refl, refl, tt)
  mix_sequence_from-InLayers mixes i (suc n) s =
      let (x, xs, e) = s.0 in
      let (m, drawn, one) = random_mix-OneOf i x xs in
      let (ms, made, len, layers) = mix_sequence_from-InLayers mixes (suc i) n s.1 in
      (m ∷ ms, rw (e, mix_sequence_from, drawn, made), ap suc len, ((x ∷ xs, e, one), layers))

  -- Where the map has a mix in each of the layers from 1 to `n`, of which there is at least one, a
  -- sequence of `n` mixes is drawn, one from each layer in turn.
  pub get_random_mix_sequence-InLayers :
      (mixes : LayeredMixes) (n : ℕ)
      → 1 ≤ n
      → Stocked mixes 1 n
      → (ms : List MixConfig) × (get_random_mix_sequence r (some mixes) n ≡ ok ms)
        × (length ms ≡ n)
        × InLayers mixes 1 ms
  unfolding get_random_mix_sequence
  get_random_mix_sequence-InLayers mixes n positive s =
      let (ms, made, len, layers) = mix_sequence_from-InLayers mixes 1 n s in
      let enough = Stocked-length mixes 1 n s in (ms, ground (arith, enough, made), len, layers)

  delays_from-total :
      (rate : Float64) (i n : ℕ)
      → r.le_zero rate ≡ false
      → (ds : List Float64) × (delays_from r rate i n ≡ ok ds) × (length ds ≡ n)
  unfolding delays_from random_exponential
  delays_from-total rate i zero h = ([], refl, refl)
  delays_from-total rate i (suc n) h =
      let (ds, made, len) = delays_from-total rate (suc i) n h in
      (r.divide (r.exp_float64 i) rate ∷ ds, rw (h, made), ap suc len)

  -- With a positive rate as many delays are drawn as are wanted.
  pub generate_delay_sequence-total :
      (rate : Float64) (n : ℕ)
      → r.le_zero rate ≡ false
      → (ds : List Float64) × (generate_delay_sequence r rate n ≡ ok ds) × (length ds ≡ n)
  unfolding generate_delay_sequence
  generate_delay_sequence-total rate n h = delays_from-total rate 0 n h
