-- ===== src/Provider/Inboxes.antt =====
-- The file system under `./inboxes`, as server/provider/providerServer.go uses it.
use loopix_messaging.Prelude.{
  List, [], ◌∷◌, Bool, true, false, none, some, Bytes, Result, ok, err, Error, library, equal, ltb,
  if◌then◌else◌,
}
use loopix_messaging.Prelude.Maps.{Map, lookup, insert, bytes_key}

-- The files of a directory, by name. `ioutil.ReadDir` lists them in the order of their names.
abbrev pub Directory : Type 0
Directory = List (Bytes × Bytes)

abbrev pub FileSystem : Type 0
FileSystem = Map Bytes Directory

-- Which calls of the operating system fail, by the path.
pub record Faults : Type 0 where
  pub stat_fails : Bytes → Bool
  pub mkdir_fails : Bytes → Bool
  pub read_dir_fails : Bytes → Bool
  pub read_file_fails : Bytes → Bool
  pub remove_fails : Bytes → Bool
  pub create_fails : Bytes → Bool
  pub write_fails : Bytes → Bool

abbrev pub io_error : Error
io_error = library 1

-- The order of strings.
unfoldable pub name_lt : Bytes → Bytes → Bool
name_lt [] [] = false
name_lt [] (y ∷ ys) = true
name_lt (x ∷ xs) [] = false
name_lt (x ∷ xs) (y ∷ ys) =
    let rest = name_lt xs ys in if ltb x y then true else if ltb y x then false else rest

-- A file that is created, or cut to nothing where it exists, and written.
unfoldable pub write_file : Bytes → Bytes → Directory → Directory
write_file name content [] = (name, content) ∷ []
write_file name content ((n, c) ∷ d) =
    let rest = write_file name content d in
    if equal n name
    then (name, content) ∷ d
    else if name_lt name n
    then (name, content) ∷ (n, c) ∷ d
    else (n, c) ∷ rest

-- helpers/utilities.go: DirExists
unfoldable pub dir_exists : Faults → FileSystem → Bytes → Result Bool
dir_exists os fs path =
    if os.stat_fails path
    then err io_error
    else elim (lookup path fs) [ none ↦ ok false | some d ↦ ok true ]

-- `os.MkdirAll`
unfoldable pub mkdir_all : Faults → FileSystem → Bytes → Result FileSystem
mkdir_all os fs path = if os.mkdir_fails path then err io_error else ok (insert path [] fs)

-- `ioutil.ReadDir`
unfoldable pub read_dir : Faults → FileSystem → Bytes → Result Directory
read_dir os fs path =
    if os.read_dir_fails path
    then err io_error
    else elim (lookup path fs) [ none ↦ err io_error | some d ↦ ok d ]
