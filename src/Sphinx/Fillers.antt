-- ===== src/Sphinx/Fillers.antt =====
-- sphinx/sphinx.go and sphinx/utils.go: the fillers of a header, which no packet uses.
use loopix_messaging.Prelude.{
  ℕ, suc, ◌+◌, ◌-◌, ◌/◌, ◌%◌, List, [], ◌∷◌, ◌++◌, Option, none, some, Bytes, bytes, Result, ok,
  panic, ◌>>=◌, index, deref, length, drop, ltb, replicate, if◌then◌else◌,
}
use loopix_messaging.Messages.{MixConfig, HeaderInitials}
use loopix_messaging.Sphinx.Library.{Library}
use loopix_messaging.Sphinx.Crypto.{k_size, aes_ctr}
use loopix_messaging.Sphinx.Packing.{compute_shared_secret_hash}

abbrev pub header_length : ℕ
header_length = 192

-- `%v` of a byte: its decimal digits.
unfoldable pub decimal : ℕ → Bytes
decimal v =
    if ltb v 10
    then (48 + v) ∷ []
    else if ltb v 100
    then (48 + v / 10) ∷ (48 + v % 10) ∷ []
    else (48 + v / 100) ∷ (48 + v / 10 % 10) ∷ (48 + v % 10) ∷ []

unfoldable pub bytes_to_string : Bytes → Bytes
unfolding decimal
bytes_to_string [] = []
bytes_to_string (v ∷ b) = decimal v ++ bytes_to_string b

-- `minLen` is of type `int`; `none` stands for a negative number, at which `Repeat` panics.
abbrev pub less_k : ℕ → Option ℕ
less_k min_len = if ltb min_len k_size then none else some (min_len - k_size)

module _ (lib : Library) where
  -- The body of the loop, at the tuple before node `i`.
  unfoldable pub next_filler : ℕ → HeaderInitials → Bytes → Result Bytes
  unfolding bytes_to_string
  next_filler min_len tuple filler = do
    let base = filler ++ replicate k_size 0
    kx ← compute_shared_secret_hash lib tuple.secret_hash (bytes "hrhohrhohrhohrho")
    xor_val ← aes_ctr lib kx (replicate min_len 0 ++ base)
    let text = bytes_to_string xor_val
    if ltb (length text) min_len then panic else ok (drop min_len text)

  -- The loop from `i` on, over the nodes that are left.
  unfoldable pub fillers_from :
      ℕ → List MixConfig → List HeaderInitials → Option ℕ → Bytes → Result Bytes
  unfolding next_filler
  fillers_from i [] tuples min_len filler = ok filler
  fillers_from i (node ∷ nodes) tuples min_len filler = do
    n ← deref min_len
    tuple ← index tuples i
    filler' ← next_filler n tuple filler
    fillers_from (suc i) nodes tuples (less_k n) filler'

  unfoldable pub compute_fillers : List MixConfig → List HeaderInitials → Result Bytes
  unfolding fillers_from
  compute_fillers [] tuples = ok []
  compute_fillers (node ∷ nodes) tuples = fillers_from 0 nodes tuples (some (header_length - 32)) []
