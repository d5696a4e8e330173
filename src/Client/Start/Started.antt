-- ===== src/Client/Start/Started.antt =====
-- What holds of a client that has started (client/client.go).
use loopix_messaging.Prelude.{
  Error, ◌⊎◌, ℕ, ◌<◌, ◌≡◌, refl, sym, ap, ◌∙◌, List, [], ◌∷◌, none, some, Bytes, Result, ok, err,
  panic, Result-cases, Bool-cases, bind_inverse, inl, inr, length, ltb, arith, Option-cases,
  ok_injective, some_injective, equal, equal_sound,
}
use loopix_messaging.Wire.{Wire}
use loopix_messaging.Flags.{assign}
use loopix_messaging.Config.{wrap_with_flag}
use loopix_messaging.Topology.{
  Encoding, TopologyData, MixProviderPresence, provider_presence_to_config,
}
use loopix_messaging.Client.{
  NetClient, Exchange, get_provider, read_in_network_from_topology, update_network_view,
  send_register_message_to_provider, register_token, send, token_from,
}
use loopix_messaging.Client.Start.{
  Starting, set_provider, register, wait_for_clients, find_provider, start,
}

-- The provider stays, in the client and in its configuration.
abbrev pub KeepsProvider : NetClient → NetClient → Type 0
KeepsProvider c c' = (c'.core.provider ≡ c.core.provider) × (c'.config.provider ≡ c.config.provider)

KeepsProvider-trans :
    (a b c : NetClient) → KeepsProvider a b → KeepsProvider b c → KeepsProvider a c
KeepsProvider-trans a b c (e, f) (e', f') = (e' ∙ e, f' ∙ f)

send_register_message_to_provider-KeepsProvider :
    (wire : Wire) (exchange : Exchange) (c c' : NetClient)
    → send_register_message_to_provider wire exchange c ≡ ok c'
    → KeepsProvider c c'
unfolding send_register_message_to_provider register_token
send_register_message_to_provider-KeepsProvider wire exchange c c' h =
    let (conf, _, h1) = bind_inverse (wire.client_config.marshal c.config) _ c' h in
    let (pkt, _, h2) = bind_inverse (wrap_with_flag wire.general_packet assign conf) _ c' h1 in
    let (response, _, h3) =
      bind_inverse (send wire exchange pkt c.core.provider.host c.core.provider.port) _ c' h2 in
    let (token, _, h4) = bind_inverse (token_from wire response) _ c' h3 in
    rw (← ok_injective (register_token token c) c' h4) (refl, refl)

register-KeepsProvider :
    (wire : Wire) (attempts : List Exchange) (c c' : NetClient)
    → register wire attempts c ≡ some (ok c')
    → KeepsProvider c c'
unfolding register
register-KeepsProvider wire [] c c' h = cc
register-KeepsProvider wire (x ∷ attempts) c c' h =
    elim (Result-cases (send_register_message_to_provider wire x c)) [
      | inl (d, e) ↦
          send_register_message_to_provider-KeepsProvider wire x c c'
            (e ∙ some_injective _ _ (rw (register, e) at h))
      | inr (inl (x', e)) ↦ register-KeepsProvider wire attempts c c' (rw (register, e) at h)
      | inr (inr e) ↦ cc (rw (register, e) at h)
    ]

registered-cases :
    (wire : Wire) (attempts : List Exchange) (c : NetClient)
    → ((d : NetClient) × (register wire attempts c ≡ some (ok d)))
      ⊎ ((register wire attempts c ≡ none)
          ⊎ (((e : Error) × (register wire attempts c ≡ some (err e)))
              ⊎ (register wire attempts c ≡ some panic)))
registered-cases wire attempts c = elim (Option-cases (register wire attempts c)) [
  | inl e ↦ inr (inl e)
  | inr (res, e) ↦ elim (Result-cases res) [
    | inl (d, f) ↦ inl (d, e ∙ ap some f)
    | inr (inl (x, f)) ↦ inr (inr (inl (x, e ∙ ap some f)))
    | inr (inr f) ↦ inr (inr (inr (e ∙ ap some f)))
  ]
]

get_provider-key :
    (presences : List MixProviderPresence) (key : Bytes) (p : MixProviderPresence)
    → get_provider presences key ≡ ok p
    → p.pub_key ≡ key
unfolding get_provider
get_provider-key [] key p h = cc
get_provider-key (q ∷ presences) key p h = elim (Bool-cases (equal q.pub_key key)) [
  | inl e ↦ rw (← ok_injective _ _ (rw (get_provider, e) at h)) (equal_sound q.pub_key key e)
  | inr e ↦ get_provider-key presences key p (rw (get_provider, e) at h)
]

module _ (enc : Encoding) where
  update_network_view-KeepsProvider :
      (now : ℕ) (fetched : Result TopologyData) (c c' : NetClient)
      → update_network_view enc now fetched c ≡ ok c'
      → KeepsProvider c c'
  unfolding update_network_view read_in_network_from_topology
  update_network_view-KeepsProvider now (ok t) c c' h = rw (← ok_injective _ _ h) (refl, refl)
  update_network_view-KeepsProvider now (err e) c c' h = cc
  update_network_view-KeepsProvider now panic c c' h = cc

  wait_for_clients-KeepsProvider :
      (polls : List (ℕ × Result TopologyData)) (c c' : NetClient)
      → wait_for_clients enc polls c ≡ some (ok c')
      → KeepsProvider c c' × (0 < length c'.core.network.clients)
  unfolding wait_for_clients
  wait_for_clients-KeepsProvider [] c c' h = cc
  wait_for_clients-KeepsProvider ((now, fetched) ∷ polls) c c' h =
      elim (Result-cases (update_network_view enc now fetched c)) [
        | inl (d, e) ↦ elim (Bool-cases (ltb 0 (length d.core.network.clients))) [
          | inl found ↦
              rw (← ok_injective _ _ (some_injective _ _ (rw (wait_for_clients, e, found) at h)))
                (update_network_view-KeepsProvider now fetched c d e, ground (arith, found))
          | inr lonely ↦
              let (keeps, found) =
                wait_for_clients-KeepsProvider polls d c' (rw (wait_for_clients, e, lonely) at h) in
              (
                KeepsProvider-trans c d c' (update_network_view-KeepsProvider now fetched c d e)
                    keeps,
                found,
              )
        ]
        | inr (inl (x, e)) ↦ cc (rw (wait_for_clients, e) at h)
        | inr (inr e) ↦ cc (rw (wait_for_clients, e) at h)
      ]

  -- What the directory server presents under the key becomes the provider.
  abbrev pub IsPresented : Bytes → Starting → NetClient → Type 0
  IsPresented provider_id env c =
      (topology : TopologyData) × (presence : MixProviderPresence) × (env.first ≡ ok topology)
      × (get_provider topology.mix_provider_nodes provider_id ≡ ok presence)
      × (presence.pub_key ≡ provider_id)
      × (provider_presence_to_config enc presence ≡ ok c.core.provider)
      × (c.config.provider ≡ some c.core.provider)

  find_provider-IsPresented :
      (provider_id : Bytes) (env : Starting) (c c' : NetClient)
      → find_provider enc provider_id env c ≡ ok c'
      → IsPresented provider_id env c'
  unfolding find_provider set_provider
  find_provider-IsPresented provider_id env c c' h =
      let (topology, e, h1) = bind_inverse env.first _ c' h in
      let (presence, f, h2) =
        bind_inverse (get_provider topology.mix_provider_nodes provider_id) _ c' h1 in
      let (provider, g, h3) = bind_inverse (provider_presence_to_config enc presence) _ c' h2 in
      let same =
        ok_injective (set_provider provider (read_in_network_from_topology enc env.now topology c))
          c' h3 in
      (
        topology,
        presence,
        e,
        f,
        get_provider-key topology.mix_provider_nodes provider_id presence f,
        rw (← same) g,
        rw (← same) refl,
      )

  -- A client whose start has succeeded sends to a provider that the directory server has presented
  -- with the public key that is configured, names that provider in its own details, and knows of
  -- some client in the network.
  pub start-provider :
      (wire : Wire) (provider_id : Bytes) (env : Starting) (c c' : NetClient)
      → start enc wire provider_id env c ≡ some (ok c')
      → IsPresented provider_id env c' × (0 < length c'.core.network.clients)
  unfolding start
  start-provider wire provider_id env c c' h =
      elim (Result-cases (find_provider enc provider_id env c)) [
        | inl (ready, e) ↦
            let (topology, presence, first, found, key, made, shown) =
              find_provider-IsPresented provider_id env c ready e in
            elim (registered-cases wire env.attempts ready) [
              | inl (d, f) ↦
                  let ((p, q), others) =
                    wait_for_clients-KeepsProvider env.polls d c' (rw (start, e, f) at h) in
                  let (p', q') = register-KeepsProvider wire env.attempts ready d f in
                  (
                    (
                      topology,
                      presence,
                      first,
                      found,
                      key,
                      made ∙ ap ok (sym (p ∙ p')),
                      (q ∙ q') ∙ (shown ∙ ap some (sym (p ∙ p'))),
                    ),
                    others,
                  )
              | inr (inl f) ↦ cc (rw (start, e, f) at h)
              | inr (inr (inl (x, f))) ↦ cc (rw (start, e, f) at h)
              | inr (inr (inr f)) ↦ cc (rw (start, e, f) at h)
            ]
        | inr (inl (x, e)) ↦ cc (rw (start, e) at h)
        | inr (inr e) ↦ cc (rw (start, e) at h)
      ]
