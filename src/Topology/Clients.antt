-- ===== src/Topology/Clients.antt =====
-- `GetClientPKI`: what holds of every client that it gives.
use loopix_messaging.Prelude.{
  ◌≡◌, refl, List, [], ◌∷◌, ◌++◌, some, ok, All, arith, inl, inr, Result-cases, Option-cases,
}
use loopix_messaging.Messages.{MixConfig, ClientConfig}
use loopix_messaging.Config.{provider_layer}
use loopix_messaging.Topology.{
  Encoding, MixProviderPresence, RegisteredClient, provider_presence_to_config,
  registered_client_to_config, clients_of, get_client_pki,
}

All-append {ℓ κ} :
    {A : Type ℓ} (P : A → Type κ) (xs ys : List A) → All P xs → All P ys → All P (xs ++ ys)
All-append P [] ys hx hy = hy
All-append P (x ∷ xs) ys hx hy = (hx.0, All-append P xs ys hx.1 hy)

-- A client that packets can be sent to: it names a provider, in the layer of the providers, and its
-- key is what its id decodes to.
abbrev pub IsReachable : Encoding → ClientConfig → Type 0
IsReachable enc c =
    ((p : MixConfig) × (c.provider ≡ some p) × (p.layer ≡ provider_layer))
    × (enc.decode c.id ≡ some c.pub_key)

registered_client-decodes :
    (enc : Encoding) (client : RegisteredClient) (c : ClientConfig)
    → registered_client_to_config enc client ≡ ok c
    → enc.decode c.id ≡ some c.pub_key
unfolding registered_client_to_config
registered_client-decodes enc client c h = ground (arith, Option-cases (enc.decode client.pub_key))

provider_presence-layer :
    (enc : Encoding) (presence : MixProviderPresence) (p : MixConfig)
    → provider_presence_to_config enc presence ≡ ok p
    → p.layer ≡ provider_layer
unfolding provider_presence_to_config
provider_presence-layer enc presence p h = ground arith

clients_of-IsReachable :
    (enc : Encoding) (p : MixConfig) (clients : List RegisteredClient)
    → p.layer ≡ provider_layer
    → All (IsReachable enc) (clients_of enc p clients)
unfolding clients_of
clients_of-IsReachable enc p [] h = tt
clients_of-IsReachable enc p (client ∷ rest) h =
    let more = clients_of-IsReachable enc p rest h in
    elim (Result-cases (registered_client_to_config enc client)) [
      | inl (c, e) ↦
          rw (e, clients_of) (((p, refl, h), registered_client-decodes enc client c e), more)
      | inr (inl (x, e)) ↦ rw (e, clients_of) more
      | inr (inr e) ↦ rw (e, clients_of) more
    ]

-- Every client in the view of the network names a provider, which stands in the layer of the
-- providers, and carries the key that its id encodes.
pub get_client_pki-IsReachable :
    (enc : Encoding) (presences : List MixProviderPresence)
    → All (IsReachable enc) (get_client_pki enc presences)
unfolding get_client_pki
get_client_pki-IsReachable enc [] = tt
get_client_pki-IsReachable enc (presence ∷ rest) =
    let more = get_client_pki-IsReachable enc rest in
    elim (Result-cases (provider_presence_to_config enc presence)) [
      | inl (p, e) ↦
          rw (e, get_client_pki)
            (All-append (IsReachable enc) (clients_of enc p presence.registered_clients)
              (get_client_pki enc rest)
              (clients_of-IsReachable enc p presence.registered_clients
                (provider_presence-layer enc presence p e))
              more)
      | inr (inl (x, e)) ↦ rw (e, get_client_pki) more
      | inr (inr e) ↦ rw (e, get_client_pki) more
    ]
