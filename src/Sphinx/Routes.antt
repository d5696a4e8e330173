-- ===== src/Sphinx/Routes.antt =====
-- The route of a packet: the nodes, their commands, and the nodes processing it in turn.
use loopix_messaging.Prelude.{
  ℕ, zero, suc, ◌+◌, ◌≤◌, ◌<◌, ◌≡◌, refl, ap, List, [], ◌∷◌, ◌++◌, some, Bytes, Result, ok, ◌>>=◌,
  length, get_elem?, drop, arith,
}
use loopix_messaging.Flags.{last_hop, relay, sphinx_flag_bytes}
use loopix_messaging.Messages.{Float64, MixConfig, Commands, Hop}
use loopix_messaging.Config.{E2EPath}
use loopix_messaging.Sphinx.Library.{Library}
use loopix_messaging.Sphinx.Curve.{PrivateKey}
use loopix_messaging.Sphinx.Packing.{make_commands}
use loopix_messaging.Sphinx.Processing.{process_sphinx_packet}
use loopix_messaging.Sphinx.Onion.{itinerary}

-- The nodes of a path in the order in which `PackForwardMessage` puts them.
abbrev pub path_nodes : E2EPath → List MixConfig
path_nodes p = p.ingress_provider ∷ (p.mixes ++ (p.egress_provider ∷ []))

-- The commands for the nodes: each its delay, the last one the flag of the last hop.
abbrev pub commands_of : List MixConfig → List Float64 → List Commands
commands_of (n ∷ []) (d ∷ ds) = record { delay = d; flag = sphinx_flag_bytes last_hop } ∷ []
commands_of (n ∷ m ∷ ns) (d ∷ ds) =
    record { delay = d; flag = sphinx_flag_bytes relay } ∷ commands_of (m ∷ ns) ds
commands_of _ _ = []

-- What the nodes of the path are to learn.
abbrev pub route : E2EPath → List Float64 → List (Hop × Commands)
route p delays = itinerary (path_nodes p) (commands_of (path_nodes p) delays) p.recipient

-- The nodes with the given keys process a packet in turn: what each learns, and the last packet.
unfoldable pub relay_chain :
    Library → List PrivateKey → Bytes → Result (List (Hop × Commands) × Bytes)
relay_chain lib [] packet = ok ([], packet)
relay_chain lib (p ∷ keys) packet = do
  (hop, commands, next) ← process_sphinx_packet lib packet p
  (rest, final) ← relay_chain lib keys next
  ok ((hop, commands) ∷ rest, final)

get_elem?-drop {ℓ} :
    {A : Type ℓ} (i : ℕ) (xs : List A)
    → i < length xs
    → (x : A) × (get_elem? xs i ≡ some x) × (drop i xs ≡ x ∷ drop (suc i) xs)
get_elem?-drop i [] h = absurd (omega arith)
get_elem?-drop zero (x ∷ xs) h = (x, refl, refl)
get_elem?-drop (suc i) (x ∷ xs) h = get_elem?-drop i xs (omega arith)

pub make_commands-eq :
    (n i : ℕ) (nodes : List MixConfig) (delays : List Float64)
    → i + length nodes ≡ n
    → n ≤ length delays
    → make_commands n i nodes delays ≡ ok (commands_of nodes (drop i delays))
unfolding make_commands
make_commands-eq n i [] delays e h = refl
make_commands-eq n i (a ∷ []) delays e h =
    let (d, at, rest) = get_elem?-drop i delays (omega arith) in rw (at, rest) (ground arith)
make_commands-eq n i (a ∷ b ∷ nodes) delays e h =
    let (d, at, rest) = get_elem?-drop i delays (omega arith) in
    rw (at, rest) (ground (arith, make_commands-eq n (suc i) (b ∷ nodes) delays))

pub length-commands_of :
    (n : MixConfig) (nodes : List MixConfig) (delays : List Float64)
    → suc (length nodes) ≤ length delays
    → length (commands_of (n ∷ nodes) delays) ≡ suc (length nodes)
length-commands_of n [] [] h = absurd (omega arith)
length-commands_of n [] (d ∷ delays) h = refl
length-commands_of n (m ∷ nodes) [] h = absurd (omega arith)
length-commands_of n (m ∷ nodes) (d ∷ delays) h =
    ap suc (length-commands_of m nodes delays (omega arith))
