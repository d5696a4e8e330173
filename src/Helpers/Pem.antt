-- ===== src/Helpers/Pem.antt =====
-- helpers/utilities.go: keys in PEM files.
pub mod Keys
use loopix_messaging.Prelude.{
  ℕ, List, [], ◌∷◌, Bool, true, false, ◌==◌, Option, none, some, Bytes, bytes, Error, Result, ok,
  err, panic, ◌>>=◌, ◌>>◌, guard, deref, length, equal, trailing_garbage, invalid_pem_type,
  invalid_key_data, if◌then◌else◌,
}

-- `encoding/pem`: a block as it is written, and the first block of a file, if there is one, with
-- what follows.
pub record Pem : Type 0 where
  pub encode_to_memory : Bytes → Bytes → Bytes
  pub decode : Bytes → Option (Bytes × Bytes) × Bytes

-- What reading a file gives.
pub data ReadFile : Type 0 where
  present : Bytes → ReadFile
  absent : ReadFile
  failing : Error → ReadFile

-- PEM types of constants/constants.go.
abbrev pub private_key_pem_type : Bytes
private_key_pem_type = bytes "SPHINX CURVE25519 PRIVATE KEY"

abbrev pub public_key_pem_type : Bytes
public_key_pem_type = bytes "SPHINX CURVE25519 PUBLIC KEY"

-- `IsNotExist` is a file or directory that is not there; `stat` is what `os.Stat` gives for it, and
-- `mkdir_all` what making it gives.
unfoldable pub ensure_dir : ReadFile → Result (Unit {0}) → Result (Unit {0})
ensure_dir absent mkdir_all = mkdir_all
ensure_dir _ mkdir_all = ok tt

module _ (pem : Pem) {K : Type 0} where
  -- What is written to the file; `write` is what `ioutil.WriteFile` gives.
  unfoldable pub to_pem_file :
      (K → Result Bytes) → (Bytes → Result (Unit {0})) → Bytes → K → Result Bytes
  to_pem_file marshal_binary write pem_type o = do
    b ← marshal_binary o
    write (pem.encode_to_memory pem_type b)
    ok (pem.encode_to_memory pem_type b)

  -- The type of the block is read whether there is one or not. A file that is not there leaves the
  -- key as it is. Any error of the key's own is replaced.
  unfoldable pub from_pem_file : (Bytes → Result K) → ReadFile → Bytes → K → Result K
  from_pem_file unmarshal_binary absent pem_type o = ok o
  from_pem_file unmarshal_binary (failing e) pem_type o = err e
  from_pem_file unmarshal_binary (present buf) pem_type o =
      let (blk, rest) = pem.decode buf in
      do
        guard (length rest == 0) trailing_garbage
        block ← deref blk
        guard (equal block.0 pem_type) invalid_pem_type
        elim (unmarshal_binary block.1) [
          | ok key ↦ ok key
          | err e ↦ err invalid_key_data
          | panic ↦ panic
        ]
