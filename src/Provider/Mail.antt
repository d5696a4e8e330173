-- ===== src/Provider/Mail.antt =====
-- Inboxes: what `storeMessage` puts there, and what `fetchMessages` takes out.
use loopix_messaging.Prelude.{
  some_injective, ◌≡◌, refl, ◌∙◌, List, [], ◌∷◌, ◌++◌, map, true, false, some, Bytes, bytes, ok,
  equal, if◌then◌else◌, sym, Bool-cases, inl, inr,
}
use loopix_messaging.Prelude.Maps.{lookup, insert, bytes_key, lookup-insert, lookup-insert_self}
use loopix_messaging.Flags.{comm, packet_flag_bytes}
use loopix_messaging.Config.{wrap_with_flag}
use loopix_messaging.Wire.{Wire, IsWire}
use loopix_messaging.Provider.Inboxes.{Directory, Faults, write_file, dir_exists, read_dir}
use loopix_messaging.Provider.Names.{IsSorted, remove-first, write_file-IsSorted}
use loopix_messaging.Provider.{
  ProviderServer, Signal, empty_inbox, messages_sent, inbox_path, file_path, store_message,
  fetch_files, fetch_messages,
}

-- No call of the operating system fails.
pub record IsQuiet (os : Faults) : Type 0 where
  pub stat : (path : Bytes) → os.stat_fails path ≡ false
  pub mkdir : (path : Bytes) → os.mkdir_fails path ≡ false
  pub list : (path : Bytes) → os.read_dir_fails path ≡ false
  pub read : (path : Bytes) → os.read_file_fails path ≡ false
  pub unlink : (path : Bytes) → os.remove_fails path ≡ false
  pub create : (path : Bytes) → os.create_fails path ≡ false
  pub write : (path : Bytes) → os.write_fails path ≡ false

-- The packets are the contents, each wrapped with the flag for communication.
abbrev pub Wraps : Wire → List Bytes → List Bytes → Type 0
Wraps wire [] [] = Unit {0}
Wraps wire (c ∷ cs) (b ∷ bs) = (wrap_with_flag wire.general_packet comm c ≡ ok b) × Wraps wire cs bs
Wraps _ _ _ = ⊥

abbrev pub contents : Directory → List Bytes
contents d = map (λ e. e.1) d

-- The inbox of every id that has one stands in order.
abbrev pub AllSorted : ProviderServer → Type 0
AllSorted p = (path : Bytes) (d : Directory) → lookup path p.files ≡ some d → IsSorted d

pub insert-IsSorted :
    (path other : Bytes) (d e : Directory) (p : ProviderServer)
    → AllSorted p
    → IsSorted d
    → lookup other (insert path d p.files) ≡ some e
    → IsSorted e
insert-IsSorted path other d e p sorted h found = elim (Bool-cases (equal path other)) [
  | inl same ↦ rw (← some_injective d e (rw same at set)) h
  | inr different ↦ sorted other e (rw different at set)
]
  where
    set : (if equal path other then some d else lookup other p.files) ≡ some e
    set = sym (lookup-insert path other d p.files) ∙ found

module _ (os : Faults) (quiet : IsQuiet os) where
  -- A message for an inbox that is there is stored under its name; the inbox stays in order, its
  -- other files and the other inboxes stay as they are.
  pub store_message-stores :
      (message id message_id : Bytes) (p : ProviderServer) (d : Directory)
      → AllSorted p
      → lookup (inbox_path id) p.files ≡ some d
      → (p' : ProviderServer) × (store_message os message id message_id p ≡ (ok tt, p'))
        × (p' ≡ record p { files = p'.files })
        × AllSorted p'
        × ((path : Bytes)
            → lookup path p'.files ≡ (
                if equal (inbox_path id) path
                then some (write_file (message_id ++ bytes ".txt") message d)
                else lookup path p.files))
  unfolding store_message
  store_message-stores message id message_id p d sorted at =
      let name = message_id ++ bytes ".txt" in
      let path = inbox_path id in
      let d' = write_file name message d in
      let files = insert path d' p.files in
      (
        record p { files = files },
        rw
            (
              quiet.create (file_path path name),
              at,
              store_message,
              quiet.write (file_path path name),
            )
            refl,
        refl,
        λ other e found.
            insert-IsSorted path other d' e p sorted
              (write_file-IsSorted name message d (sorted path d at)) found,
        λ other. lookup-insert path other d' p.files,
      )

module _ (os : Faults) (quiet : IsQuiet os) (wire : Wire) (law : IsWire wire) where
  fetch_files-all :
      (path : Bytes) (d : Directory)
      → IsSorted d
      → (wrapped : List Bytes) × (fetch_files os wire path d d ≡ (ok wrapped, []))
        × Wraps wire (contents d) wrapped
  unfolding fetch_files wrap_with_flag
  fetch_files-all path [] h = ([], refl, tt)
  fetch_files-all path ((n, c) ∷ d) h =
      let (b, made) =
        law.general_packet_codec.marshal_total (record { flag = packet_flag_bytes comm; data_ = c })
          refl in
      let (wrapped, rest, w) = fetch_files-all path d h.1 in
      (
        b ∷ wrapped,
        rw
            (
              quiet.read (file_path path n),
              made,
              quiet.unlink (file_path path n),
              remove-first n c d h,
              rest,
            )
            refl,
        (made, w),
      )

  dir_exists-eq :
      (path : Bytes) (p : ProviderServer) (d : Directory)
      → lookup path p.files ≡ some d
      → dir_exists os p.files path ≡ ok true
  unfolding dir_exists
  dir_exists-eq path p d at = rw (quiet.stat path, at) refl

  read_dir-eq :
      (path : Bytes) (p : ProviderServer) (d : Directory)
      → lookup path p.files ≡ some d
      → read_dir os p.files path ≡ ok d
  unfolding read_dir
  read_dir-eq path p d at = rw (quiet.list path, at) refl

  -- From an inbox in order, or one that is empty, `fetchMessages` takes every message, wrapped, in
  -- the order of the names, and leaves the inbox empty.
  pub fetch_messages-all :
      (id : Bytes) (p : ProviderServer) (d : Directory)
      → AllSorted p
      → lookup (inbox_path id) p.files ≡ some d
      → (signal : Signal) × (wrapped : List Bytes) × (p' : ProviderServer) × (fetch_messages os wire
            id p
          ≡ (ok (signal, wrapped), p'))
        × Wraps wire (contents d) wrapped
        × (lookup (inbox_path id) p'.files ≡ some [])
        × AllSorted p'
  unfolding fetch_messages
  fetch_messages-all id p [] sorted at =
      let path = inbox_path id in
      (
        empty_inbox,
        [],
        p,
        rw (dir_exists-eq path p [] at, fetch_messages, read_dir-eq path p [] at) refl,
        tt,
        at,
        sorted,
      )
  fetch_messages-all id p (f ∷ d) sorted at =
      let path = inbox_path id in
      let (wrapped, fetched, w) = fetch_files-all path (f ∷ d) (sorted path (f ∷ d) at) in
      (
        messages_sent,
        wrapped,
        record p { files = insert path [] p.files },
        rw (dir_exists-eq path p (f ∷ d) at, fetch_messages, read_dir-eq path p (f ∷ d) at, fetched)
            refl,
        w,
        lookup-insert_self path [] p.files,
        λ other e found. insert-IsSorted path other [] e p sorted tt found,
      )
