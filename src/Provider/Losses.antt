-- ===== src/Provider/Losses.antt =====
-- `fetchMessages` where a file cannot be read.
use loopix_messaging.Prelude.{◌≡◌, refl, ◌∷◌, some, true, false, Bytes, ok, err}
use loopix_messaging.Prelude.Maps.{lookup, insert, bytes_key, lookup-insert_self}
use loopix_messaging.Flags.{comm, packet_flag_bytes}
use loopix_messaging.Config.{wrap_with_flag}
use loopix_messaging.Wire.{Wire, IsWire}
use loopix_messaging.Provider.Inboxes.{Directory, Faults, io_error, dir_exists, read_dir}
use loopix_messaging.Provider.Names.{IsSorted, remove-first}
use loopix_messaging.Provider.{ProviderServer, inbox_path, file_path, fetch_files, fetch_messages}

module _ (os : Faults) (wire : Wire) (law : IsWire wire) where
  fetch_files-loses :
      (path first content second other : Bytes) (d : Directory)
      → IsSorted ((first, content) ∷ (second, other) ∷ d)
      → os.read_file_fails (file_path path first) ≡ false
      → os.remove_fails (file_path path first) ≡ false
      → os.read_file_fails (file_path path second) ≡ true
      → fetch_files os wire path
          ((first, content) ∷ (second, other) ∷ d)
          ((first, content) ∷ (second, other) ∷ d)
        ≡ (err io_error, (second, other) ∷ d)
  unfolding fetch_files wrap_with_flag
  fetch_files-loses path first content second other d h read unlink fails =
      let (b, made) =
        law.general_packet_codec.marshal_total
          (record { flag = packet_flag_bytes comm; data_ = content }) refl in
      rw (read, made, unlink, remove-first first content ((second, other) ∷ d) h, fails) refl

  dir_exists-at :
      (path : Bytes) (p : ProviderServer) (d : Directory)
      → lookup path p.files ≡ some d
      → os.stat_fails path ≡ false
      → dir_exists os p.files path ≡ ok true
  unfolding dir_exists
  dir_exists-at path p d at stat = rw (stat, at) refl

  read_dir-at :
      (path : Bytes) (p : ProviderServer) (d : Directory)
      → lookup path p.files ≡ some d
      → os.read_dir_fails path ≡ false
      → read_dir os p.files path ≡ ok d
  unfolding read_dir
  read_dir-at path p d at list = rw (list, at) refl

  -- Where an inbox in order can be listed, and its first file read and removed, but its second
  -- file cannot be read, `fetchMessages` fails, and the first message is neither returned nor in
  -- the inbox any more.
  pub fetch_messages-loses :
      (id first content second other : Bytes) (d : Directory) (p : ProviderServer)
      → lookup (inbox_path id) p.files ≡ some ((first, content) ∷ (second, other) ∷ d)
      → IsSorted ((first, content) ∷ (second, other) ∷ d)
      → os.stat_fails (inbox_path id) ≡ false
      → os.read_dir_fails (inbox_path id) ≡ false
      → os.read_file_fails (file_path (inbox_path id) first) ≡ false
      → os.remove_fails (file_path (inbox_path id) first) ≡ false
      → os.read_file_fails (file_path (inbox_path id) second) ≡ true
      → (p' : ProviderServer) × (fetch_messages os wire id p ≡ (err io_error, p'))
        × (lookup (inbox_path id) p'.files ≡ some ((second, other) ∷ d))
  unfolding fetch_messages
  fetch_messages-loses id first content second other d p at h stat list read unlink fails =
      let path = inbox_path id in
      let exists : dir_exists os p.files path ≡ ok true = dir_exists-at path p _ at stat in
      let listed : read_dir os p.files path ≡ ok ((first, content) ∷ (second, other) ∷ d) =
        read_dir-at path p _ at list in
      let fetched = fetch_files-loses path first content second other d h read unlink fails in
      (
        record p { files = insert path ((second, other) ∷ d) p.files },
        rw (exists, fetch_messages, listed, fetched) refl,
        lookup-insert_self path ((second, other) ∷ d) p.files,
      )
