-- ===== src/Topology/Layers.antt =====
-- `GetMixesPKI` groups the presences by layer.
use loopix_messaging.Prelude.{
  ℕ, ◌≡◌, refl, ◌∙◌, List, [], ◌∷◌, ◌++◌, Option, none, some, foldl, append_assoc, append-nil, ◌==◌,
  if◌then◌else◌, Option-cases, inl, inr, ==_iff, false, Bool-cases,
}
use loopix_messaging.Prelude.Maps.{lookup, nat_key, lookup-insert, lookup-insert_self}
use loopix_messaging.Messages.{MixConfig}
use loopix_messaging.Topology.{
  Encoding, MixNodePresence, LayeredMixes, mix_entry, add_to_layer, add_presence, get_mixes_pki,
}

-- The entries of one layer, in the order of their presences, without those that do not decode.
abbrev pub entries : Encoding → ℕ → List MixNodePresence → List MixConfig
entries enc l [] = []
entries enc l (v ∷ rest) = elim (mix_entry enc v) [
  | none ↦ entries enc l rest
  | some entry ↦ if v.layer == l then entry ∷ entries enc l rest else entries enc l rest
]

-- A layer with no entry is not in the map.
abbrev pub present : List MixConfig → Option (List MixConfig)
present [] = none
present (x ∷ xs) = some (x ∷ xs)

lookup-add_self :
    (l : ℕ) (entry : MixConfig) (mixes : LayeredMixes) (es : List MixConfig)
    → lookup l mixes ≡ present es
    → lookup l (add_to_layer mixes l entry) ≡ present (es ++ (entry ∷ []))
unfolding add_to_layer
lookup-add_self l entry mixes [] h = rw (h, add_to_layer, lookup-insert_self l (entry ∷ []) mixes)
lookup-add_self l entry mixes (x ∷ xs) h =
    rw (h, add_to_layer, lookup-insert_self l ((x ∷ xs) ++ (entry ∷ [])) mixes)

lookup-add_ne :
    (l k : ℕ) (entry : MixConfig) (mixes : LayeredMixes)
    → (k == l) ≡ false
    → lookup l (add_to_layer mixes k entry) ≡ lookup l mixes
unfolding add_to_layer
lookup-add_ne l k entry mixes other = elim (Option-cases (lookup k mixes)) [
  | inl e ↦ rw (e, add_to_layer, lookup-insert k l (entry ∷ []) mixes, other)
  | inr (xs, e) ↦ rw (e, add_to_layer, lookup-insert k l (xs ++ (entry ∷ [])) mixes, other)
]

lookup-add_to_layer :
    (l k : ℕ) (entry : MixConfig) (mixes : LayeredMixes) (es : List MixConfig)
    → lookup l mixes ≡ present es
    → lookup l (add_to_layer mixes k entry) ≡ present (if k == l then es ++ (entry ∷ []) else es)
lookup-add_to_layer l k entry mixes es h = elim (Bool-cases (k == l)) [
  | inl same ↦ rw (same, (==_iff k l).0 same) (lookup-add_self l entry mixes es h)
  | inr other ↦ rw other (lookup-add_ne l k entry mixes other ∙ h)
]

lookup-foldl :
    (enc : Encoding) (l : ℕ) (presences : List MixNodePresence) (mixes : LayeredMixes)
    (es : List MixConfig)
    → lookup l mixes ≡ present es
    → lookup l (foldl (add_presence enc) mixes presences) ≡ present (es ++ entries enc l presences)
unfolding add_presence
lookup-foldl enc l [] mixes es h = rw (append-nil es) h
lookup-foldl enc l (v ∷ rest) mixes es h = elim (Option-cases (mix_entry enc v)) [
  | inl e ↦ rw (e, add_presence, entries) (lookup-foldl enc l rest mixes es h)
  | inr (entry, e) ↦
      let added = lookup-add_to_layer l v.layer entry mixes es h in
      rw (e, add_presence, entries)
        (elim (Bool-cases (v.layer == l)) [
          | inl same ↦
              rw (same, ← append_assoc es (entry ∷ []) (entries enc l rest))
                (lookup-foldl enc l rest (add_to_layer mixes v.layer entry) (es ++ (entry ∷ []))
                  (rw same at added))
          | inr other ↦
              rw other
                (lookup-foldl enc l rest (add_to_layer mixes v.layer entry) es (rw other at added))
        ])
]

-- Each layer of the network view holds exactly the presences of that layer that decode, in their
-- order, and a layer with none of them is absent.
pub lookup-get_mixes_pki :
    (enc : Encoding) (presences : List MixNodePresence) (l : ℕ)
    → lookup l (get_mixes_pki enc presences) ≡ present (entries enc l presences)
unfolding get_mixes_pki lookup
lookup-get_mixes_pki enc presences l = lookup-foldl enc l presences [] [] refl
