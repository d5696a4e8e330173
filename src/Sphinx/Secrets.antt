-- ===== src/Sphinx/Secrets.antt =====
-- The secrets that the sender computes for a path are those that the nodes compute from the
-- element of the packet, one after the other (`getSharedSecrets`, `expo`, `expoGroupBase`).
use loopix_messaging.Prelude.{
  ℕ, suc, ◌≡◌, refl, ap, ◌∙◌, List, [], ◌∷◌, ◌++◌, foldl, Bytes, ok, length,
}
use mathlib.Core.List.{foldl-append}
use loopix_messaging.Messages.{MixConfig, HeaderInitials}
use loopix_messaging.Sphinx.Library.{Library, IsLawful}
use loopix_messaging.Sphinx.Curve.{FieldElement, PrivateKey, mult_by, expo, expo_group_base}
use loopix_messaging.Sphinx.Packing.{shared_secrets_from}
use loopix_messaging.Sphinx.Primitives.{
  derive, kdf-eq, blinding, compute_blinding_factor-eq, bytes_to_public_key-eq,
  public_key_to_field_element-eq,
}

module _ (lib : Library) where
  -- The public keys of the nodes belong to the private keys.
  abbrev pub Paired : List PrivateKey → List MixConfig → Type 0
  Paired [] [] = Unit {0}
  Paired (p ∷ ps) (n ∷ ns) =
      (length p.raw ≡ 32) × (n.pub_key ≡ lib.scalar_base_mult p.raw) × Paired ps ns
  Paired _ _ = ⊥

  -- The element that the first node of a path receives, for the given exponents.
  abbrev pub group_element : FieldElement → List FieldElement → Bytes
  group_element x rest = foldl (mult_by lib) (lib.scalar_base_mult x.raw) rest

module _ (lib : Library) (law : IsLawful lib) where
  -- The nodes with the private keys, in order, recover the secrets from the element `alpha`: each
  -- finds the sender's secret, and hands on the element that the next one needs.
  abbrev pub Agrees : List PrivateKey → Bytes → List HeaderInitials → Type 0
  Agrees [] alpha [] = Unit {0}
  Agrees (p ∷ ps) alpha (h ∷ hs) =
      (h.alpha ≡ alpha)
      × (h.secret_hash ≡ derive lib (lib.scalar_mult p.raw alpha))
      × (length p.raw ≡ 32)
      × Agrees ps (lib.scalar_mult (blinding lib law (lib.scalar_mult p.raw alpha)) alpha) hs
  Agrees _ _ _ = ⊥

  -- A multiplication by the node's key passes through the sender's exponents.
  scalar_mult-foldl :
      (p a b : Bytes) (rest : List FieldElement)
      → lib.scalar_mult p a ≡ b
      → lib.scalar_mult p (foldl (mult_by lib) a rest) ≡ foldl (mult_by lib) b rest
  scalar_mult-foldl p a b [] h = h
  scalar_mult-foldl p a b (v ∷ rest) h =
      scalar_mult-foldl p (lib.scalar_mult v.raw a) (lib.scalar_mult v.raw b) rest
        (law.scalar_mult_comm p v.raw a ∙ ap (lib.scalar_mult v.raw) h)

  shared_secret_eq :
      (p : Bytes) (x : FieldElement) (rest : List FieldElement)
      → lib.scalar_mult p (group_element lib x rest)
        ≡ foldl (mult_by lib) (lib.scalar_mult x.raw (lib.scalar_base_mult p)) rest
  shared_secret_eq p x rest =
      scalar_mult-foldl p (lib.scalar_base_mult x.raw) _ rest (law.scalar_mult_base p x.raw)

  pub length-group_element :
      (x : FieldElement) (rest : List FieldElement) → length (group_element lib x rest) ≡ 32
  length-group_element x rest =
      go (lib.scalar_base_mult x.raw) rest (law.length-scalar_base_mult x.raw)
    where
      go :
          (a : Bytes) (rest : List FieldElement)
          → length a ≡ 32
          → length (foldl (mult_by lib) a rest) ≡ 32
      go a [] h = h
      go a (v ∷ rest) h = go (lib.scalar_mult v.raw a) rest (law.length-scalar_mult v.raw a)

  -- For nodes whose public keys belong to the private keys, the computation of the shared secrets
  -- succeeds, with one entry for each node, and the nodes recover these secrets.
  pub shared_secrets_from-Agrees :
      (i : ℕ) (keys : List PrivateKey) (nodes : List MixConfig) (x : FieldElement)
      (rest : List FieldElement)
      → Paired lib keys nodes
      → (hs : List HeaderInitials) × (shared_secrets_from lib i nodes (x ∷ rest) ≡ ok hs)
        × (length hs ≡ length nodes)
        × Agrees keys (group_element lib x rest) hs
  unfolding shared_secrets_from expo expo_group_base
  shared_secrets_from-Agrees i [] [] x rest h = ([], refl, refl, tt)
  shared_secrets_from-Agrees i [] (n ∷ nodes) x rest h = absurd h
  shared_secrets_from-Agrees i (p ∷ keys) [] x rest h = absurd h
  shared_secrets_from-Agrees i (p ∷ keys) (n ∷ nodes) x rest h =
      let base = lib.scalar_base_mult p.raw in
      let secret = foldl (mult_by lib) (lib.scalar_mult x.raw base) rest in
      let blinder : FieldElement = record { raw = blinding lib law secret } in
      let alpha = group_element lib x rest in
      let shared = shared_secret_eq p.raw x rest in
      let (hs, made, len, agrees) =
        shared_secrets_from-Agrees (suc i) keys nodes x (rest ++ (blinder ∷ [])) h.2 in
      (
        record {
          alpha = alpha;
          secret = secret;
          blinder = blinder.raw;
          secret_hash = derive lib secret;
        }
            ∷ hs,
        rw (
          h.1,
          law.length-scalar_base_mult p.raw,
          bytes_to_public_key-eq base (law.length-scalar_base_mult p.raw),
          public_key_to_field_element-eq (record { raw = base })
              (law.length-scalar_base_mult p.raw),
          kdf-eq lib law secret,
          compute_blinding_factor-eq lib law secret,
          made,
        ),
        ap suc len,
        (
          refl,
          rw shared refl,
          h.0,
          rw (shared, ← foldl-append (mult_by lib) (lib.scalar_base_mult x.raw) rest (blinder ∷ []))
              agrees,
        ),
      )
