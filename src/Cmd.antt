-- ===== src/Cmd.antt =====
-- cmd: the programs that are run. The exit of a program with a message is an error here.
pub mod Provider
pub mod Client
pub mod Saving
pub mod Bench
use loopix_messaging.Prelude.{Option, none, some, Bytes, Result, ok, ◌>>=◌, ◌>>◌, panic}
use loopix_messaging.Prelude.Maps.{Map, lookup, insert, bytes_key}
use loopix_messaging.Helpers.Pem.{
  Pem, ReadFile, present, absent, to_pem_file, from_pem_file, private_key_pem_type,
  public_key_pem_type,
}
use loopix_messaging.Sphinx.Curve.{PrivateKey, PublicKey, marshal_private_key, marshal_public_key}

-- The files, by their paths.
abbrev pub Files : Type 0
Files = Map Bytes Bytes

abbrev pub read_file : Files → Bytes → ReadFile
read_file files path = elim (lookup path files) [ none ↦ absent | some b ↦ present b ]

module _ (pem : Pem) {K : Type 0} where
  -- `ToPEMFile` and `FromPEMFile` on the files; `write` is what writing to a path gives.
  abbrev pub save_pem :
      (K → Result Bytes) → (Bytes → Result (Unit {0})) → Bytes → Bytes → K → Files → Result Files
  save_pem marshal_binary write path pem_type o files = do
    content ← to_pem_file pem marshal_binary (λ b. write path) pem_type o
    ok (insert path content files)

  abbrev pub load_pem : (Bytes → Result K) → Files → Bytes → Bytes → K → Result K
  load_pem unmarshal_binary files path pem_type o =
      from_pem_file pem unmarshal_binary (read_file files path) pem_type o

-- The two key files, the private one first.
abbrev pub save_pair :
    Pem
    → (Bytes → Result (Unit {0}))
    → Bytes
    → Bytes
    → PrivateKey
    → PublicKey
    → Files
    → Result Files
save_pair pem write priv_path pub_path priv pub_key files = do
  files' ← save_pem pem marshal_private_key write priv_path private_key_pem_type priv files
  save_pem pem marshal_public_key write pub_path public_key_pem_type pub_key files'
