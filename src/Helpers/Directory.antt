-- ===== src/Helpers/Directory.antt =====
-- helpers/network.go: the machine's address, and what is sent to the directory server.
pub mod Endpoints
use loopix_messaging.Prelude.{
  ℕ, List, [], ◌∷◌, ◌++◌, Bool, true, false, not, ◌&&◌, ◌||◌, Option, none, some, Bytes, bytes,
  Error, Result, ok, err, panic, ◌>>=◌, ◌⊎◌, inl, inr, ltb, length, equal, if◌then◌else◌,
  invalid_local_ip,
}
use loopix_messaging.Prelude.Maps.{Map}
use loopix_messaging.Topology.{RegisteredClient}

-- What `net` does: an address taken apart, or the text of the error; whether an address is a
-- loopback one; and the resolution of an address.
pub record Addresses : Type 0 where
  pub split_host_port : Bytes → (Bytes × Bytes) ⊎ Bytes
  pub is_loopback : Bytes → Bool
  pub resolve_tcp_addr : Bytes → Result Bytes

unfoldable pub resolve_tcp_address : Addresses → Bytes → Bytes → Result Bytes
resolve_tcp_address net host port = net.resolve_tcp_addr (host ++ (bytes ":" ++ port))

-- An IP address: whether it is a loopback one, and the text of its form in four bytes, if it has
-- one.
pub record Ip : Type 0 where
  pub loopback : Bool
  pub to4 : Option Bytes

-- The kinds of `net.Addr`; an address may be nil.
pub data Addr : Type 0 where
  ip_net ip_addr : Option Ip → Addr
  other : Addr

unfoldable pub ip_of : Addr → Option Ip
ip_of (ip_net ip) = ip
ip_of (ip_addr ip) = ip
ip_of other = none

-- The body of the inner loop of `GetLocalIP`; `none` where it continues.
unfoldable pub usable_ip : Addr → Option Bytes
unfolding ip_of
usable_ip addr = elim (ip_of addr) [ none ↦ none | some ip ↦ if ip.loopback then none else ip.to4 ]

unfoldable pub first_usable : List Addr → Option Bytes
unfolding usable_ip
first_usable [] = none
first_usable (addr ∷ addrs) = elim (usable_ip addr) [
  | some ip ↦ some ip
  | none ↦ first_usable addrs
]

-- The outer loop: `Addrs` of each interface may fail.
unfoldable pub local_ip_of : List (Result (List Addr)) → Result Bytes
unfolding first_usable
local_ip_of [] = err invalid_local_ip
local_ip_of (ok addrs ∷ ifaces) = elim (first_usable addrs) [
  | some ip ↦ ok ip
  | none ↦ local_ip_of ifaces
]
local_ip_of (err e ∷ ifaces) = err e
local_ip_of (panic ∷ ifaces) = panic

-- `interfaces` is what `net.Interfaces` gives.
unfoldable pub get_local_ip : Result (List (Result (List Addr))) → Result Bytes
unfolding local_ip_of
get_local_ip interfaces = interfaces >>= local_ip_of

-- The values that are sent, each as a JSON object.
pub data Values : Type 0 where
  mix_presence : Bytes → ℕ → Option Bytes → Values
  mix_metrics : Map Bytes ℕ → Bytes → ℕ → Values
  provider_presence : Bytes → List RegisteredClient → Option Bytes → Values

-- `encoding/json`, `base64` and `http.Post` to an endpoint.
pub record Directory : Type 0 where
  pub marshal : Values → Result Bytes
  pub encode : Bytes → Bytes
  pub post : Bytes → Bytes → Result (Unit {0})

-- `host` is variadic: it is used where there is exactly one.
abbrev pub only_host : List Bytes → Option Bytes
only_host (host ∷ []) = some host
only_host _ = none

module _ (net : Addresses) where
  unfoldable pub is_local : Bytes → Bool
  is_local host = elim (net.split_host_port host) [
    | inl (ip, port) ↦ equal ip (bytes "localhost") || net.is_loopback ip
    | inr text ↦
        equal text (bytes "missing port in address")
        && (equal host (bytes "localhost") || net.is_loopback host)
  ]

  -- The choice that the three functions below share.
  unfoldable pub endpoint_for : Bytes → Bytes → List Bytes → Bytes
  unfolding is_local
  endpoint_for endpoint local_endpoint hosts = elim (only_host hosts) [
    | some host ↦ if ltb 0 (length host) && is_local host then local_endpoint else endpoint
    | none ↦ endpoint
  ]

  module _ (d : Directory) where
    -- The error, if any; the answer of the server is not read.
    unfoldable pub register_mix_node_presence : Bytes → ℕ → List Bytes → Result (Unit {0})
    unfolding endpoint_for
    register_mix_node_presence public_key layer hosts = do
      json ← d.marshal (mix_presence (d.encode public_key) layer (only_host hosts))
      d.post
          (endpoint_for (bytes "https://directory.nymtech.net/api/presence/mixnodes")
            (bytes "http://localhost:8080/api/presence/mixnodes") hosts)
          json

    unfoldable pub send_mix_metrics : Map Bytes ℕ → Bytes → ℕ → List Bytes → Result (Unit {0})
    unfolding endpoint_for
    send_mix_metrics sent pub_key received hosts = do
      json ← d.marshal (mix_metrics sent pub_key received)
      d.post
          (endpoint_for (bytes "https://directory.nymtech.net/api/metrics/mixes")
            (bytes "http://localhost:8080/api/metrics/mixes") hosts)
          json

    unfoldable pub register_mix_provider_presence :
        Bytes → List RegisteredClient → List Bytes → Result (Unit {0})
    unfolding endpoint_for
    register_mix_provider_presence public_key clients hosts = do
      json ← d.marshal (provider_presence (d.encode public_key) clients (only_host hosts))
      d.post
          (endpoint_for (bytes "https://directory.nymtech.net/api/presence/mixproviders")
            (bytes "http://localhost:8080/api/presence/mixproviders") hosts)
          json
