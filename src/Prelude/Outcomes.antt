-- ===== src/Prelude/Outcomes.antt =====
-- The outcome of a Go function that returns an error: a value, an error, or a run-time panic.
use Prim.Native.Nat.{ℕ}
use mathlib.Core.Path.{◌≡◌, refl}
use mathlib.Core.Logic.{◌⊎◌, inl, inr}
use mathlib.Core.Bool.{Bool, true, false}
use mathlib.Core.List.{List}
use mathlib.Core.Option.{Option, none, some}
use loopix_messaging.Prelude.Lists.{get_elem?}

-- The errors that the program makes itself, and those that a library call hands back.
-- `fmt.Errorf` around an error adds text only, and is not shown.
pub data Error : Type 0 where
  macs_not_matching wrong_number_of_secrets : Error
  invalid_public_key : ℕ → Error
  insufficient_mixes invalid_egress_provider : Error
  no_mixes_for_layer : ℕ → Error
  exponential_parameter : Error
  authentication_went_wrong invalid_provider_presence invalid_client_information : Error
  no_provider_with_key short_buffer connection_does_not_exist invalid_key_data : Error
  trailing_garbage invalid_pem_type invalid_local_ip invalid_client_id relative_home no_client_id
        no_client_block :
      Error
  unknown_server_type invalid_request_type : Error
  usage_error no_topology no_config_file : Error
  library : ℕ → Error

pub data Result {ℓ} (A : Type ℓ) : Type ℓ where
  ok : A → Result A
  err : Error → Result A
  panic : Result A

infixl 5 ◌>>=◌ ◌>>◌
abbrev pub ◌>>=◌ {ℓ κ} : {A : Type ℓ} {B : Type κ} → Result A → (A → Result B) → Result B
ok a >>= f = f a
err e >>= f = err e
panic >>= f = panic

abbrev pub ◌>>◌ {ℓ} : {B : Type ℓ} → Result (Unit {0}) → Result B → Result B
m >> k = m >>= λ _. k

-- A run-time check: the program panics where it fails.
abbrev pub assert : Bool → Result (Unit {0})
assert true = ok tt
assert false = panic

-- An early return with an error, unless the condition holds.
abbrev pub guard : Bool → Error → Result (Unit {0})
guard false e = err e
guard true e = ok tt

-- `if err != nil { panic(err) }`
abbrev pub must {ℓ} : {A : Type ℓ} → Result A → Result A
must (ok a) = ok a
must (err e) = panic
must panic = panic

-- `*p` for a pointer that may be nil.
abbrev pub deref {ℓ} : {A : Type ℓ} → Option A → Result A
deref none = panic
deref (some a) = ok a

-- `xs[i]`
abbrev pub index {ℓ} : {A : Type ℓ} → List A → ℕ → Result A
index xs i = deref (get_elem? xs i)

pub Result-cases {ℓ} :
    {A : Type ℓ} (r : Result A)
    → ((a : A) × (r ≡ ok a)) ⊎ (((e : Error) × (r ≡ err e)) ⊎ (r ≡ panic))
Result-cases (ok a) = inl (a, refl)
Result-cases (err e) = inr (inl (e, refl))
Result-cases panic = inr (inr refl)

module _ {ℓ} {A : Type ℓ} where
  pub bind-ok : (m : Result A) → (m >>= ok) ≡ m
  bind-ok (ok a) = refl
  bind-ok (err e) = refl
  bind-ok panic = refl

  pub bind_assoc {κ μ} :
      {B : Type κ} {C : Type μ} (m : Result A) (f : A → Result B) (g : B → Result C)
      → (m >>= f >>= g) ≡ (m >>= λ a. f a >>= g)
  bind_assoc (ok a) f g = refl
  bind_assoc (err e) f g = refl
  bind_assoc panic f g = refl

  -- What succeeds after `m` has the value of `m`.
  pub bind_inverse {κ} :
      {B : Type κ} (m : Result A) (f : A → Result B) (b : B)
      → (m >>= f) ≡ ok b
      → (a : A) × (m ≡ ok a) × (f a ≡ ok b)
  bind_inverse (ok a) f b h = (a, refl, h)
  bind_inverse (err e) f b h = cc
  bind_inverse panic f b h = cc

  pub ok_injective : (a b : A) → ok a ≡ ok b → a ≡ b
  ok_injective a b h = cc

  -- What succeeds after a step whose value is known.
  pub bind_known {κ} :
      {B : Type κ} (m : Result A) (f : A → Result B) (a : A) (b : B)
      → m ≡ ok a
      → (m >>= f) ≡ ok b
      → f a ≡ ok b
  bind_known (ok c) f a b e h = rw (← ok_injective c a e) h
  bind_known (err x) f a b e h = cc
  bind_known panic f a b e h = cc

  pub some_injective : (a b : A) → some a ≡ some b → a ≡ b
  some_injective a b h = cc
