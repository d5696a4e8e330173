-- ===== src/Helpers/Directory/Endpoints.antt =====
-- Which server is told (helpers/network.go).
use loopix_messaging.Prelude.{
  ℕ, ◌≡◌, refl, List, [], ◌∷◌, ◌++◌, some, Bytes, bytes, ◌>>=◌, inl, inr, equal, ltb, length,
  Bool-cases,
}
use loopix_messaging.Prelude.Maps.{Map}
use loopix_messaging.Topology.{RegisteredClient}
use loopix_messaging.Helpers.Directory.{
  Addresses, Directory, is_local, endpoint_for, register_mix_node_presence, send_mix_metrics,
  register_mix_provider_presence, mix_presence, mix_metrics, provider_presence,
}

-- The text of an error of `SplitHostPort`: the address comes before the reason.
abbrev pub error_text : Bytes → Bytes → Bytes
error_text host reason = bytes "address " ++ (host ++ (bytes ": " ++ reason))

module _ (net : Addresses) where
  endpoint_for-unsplit :
      (endpoint local_endpoint host reason : Bytes)
      → net.split_host_port host ≡ inr (error_text host reason)
      → endpoint_for net endpoint local_endpoint (host ∷ []) ≡ endpoint
  unfolding endpoint_for is_local equal
  endpoint_for-unsplit endpoint local_endpoint host reason h =
      elim (Bool-cases (ltb 0 (length host))) [
        | inl e ↦ rw (endpoint_for, e, is_local, h) refl
        | inr e ↦ rw (endpoint_for, e) refl
      ]

  -- What is sent with a host that does not split, such as a `localhost` with no port, goes to the
  -- public directory server and never to the local one, whatever the host is: the comparison with
  -- "missing port in address" fails, as the text of the error starts with the address.
  pub directory-unsplit :
      (d : Directory) (key host reason : Bytes) (layer received : ℕ)
      (clients : List RegisteredClient) (sent : Map Bytes ℕ)
      → net.split_host_port host ≡ inr (error_text host reason)
      → (register_mix_node_presence net d key layer (host ∷ []) ≡ (
          d.marshal (mix_presence (d.encode key) layer (some host))
          >>= d.post (bytes "https://directory.nymtech.net/api/presence/mixnodes")))
        × (send_mix_metrics net d sent key received (host ∷ []) ≡ (
            d.marshal (mix_metrics sent key received)
            >>= d.post (bytes "https://directory.nymtech.net/api/metrics/mixes")))
        × (register_mix_provider_presence net d key clients (host ∷ []) ≡ (
            d.marshal (provider_presence (d.encode key) clients (some host))
            >>= d.post (bytes "https://directory.nymtech.net/api/presence/mixproviders")))
  unfolding register_mix_node_presence send_mix_metrics register_mix_provider_presence
  directory-unsplit d key host reason layer received clients sent h =
      let same = λ (endpoint local_endpoint : Bytes).
        endpoint_for-unsplit endpoint local_endpoint host reason h in
      (rw same refl, rw same refl, rw same refl)
