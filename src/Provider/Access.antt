-- ===== src/Provider/Access.antt =====
-- Registration and authentication at a provider.
use loopix_messaging.Prelude.{
  some_injective, ◌≡◌, refl, sym, ap, ◌∙◌, List, [], Bool, true, false, ◌&&◌, Option, some, none,
  Bytes, Result, ok, err, panic, equal, equal_iff, arith, Option-cases, Bool-cases, Result-cases,
  Error, inl, inr, ◌↔◌,
}
use loopix_messaging.Prelude.Maps.{lookup, insert, bytes_key, lookup-insert_self}
use loopix_messaging.Messages.{ClientConfig, PullRequest}
use loopix_messaging.Wire.{Wire}
use loopix_messaging.Topology.{Encoding}
use loopix_messaging.Sphinx.Library.{Library}
use loopix_messaging.Provider.Inboxes.{Directory, Faults, dir_exists, mkdir_all}
use loopix_messaging.Provider.Mail.{IsQuiet, AllSorted, insert-IsSorted}
use loopix_messaging.Provider.{
  ProviderServer, no_record, record_of, inbox_path, authenticate_user, handle_pull_request,
  token_of, client_record, make_inbox, register_new_client,
}

module _ (enc : Encoding) where
  -- A client is accepted exactly when the record under its encoded key has the token and the key
  -- that it gives. Where there is no record, that is the record of empty values.
  authenticate_user_iff :
      (key client_token : Bytes) (p : ProviderServer)
      → (authenticate_user enc key client_token p ≡ true) ↔ (
          ((record_of (enc.encode key) p).auth_token ≡ client_token)
          × ((record_of (enc.encode key) p).pub_key ≡ key))
  unfolding authenticate_user
  authenticate_user_iff key client_token p =
      both (record_of (enc.encode key) p).auth_token (record_of (enc.encode key) p).pub_key
    where
      both :
          (t k : Bytes)
          → ((equal t client_token && equal k key) ≡ true) ↔ ((t ≡ client_token) × (k ≡ key))
      both t k = ground (arith, equal_iff t client_token, equal_iff k key)

  -- A client that is not registered is accepted exactly with an empty key and an empty token.
  authenticate_user_unregistered :
      (key client_token : Bytes) (p : ProviderServer)
      → lookup (enc.encode key) p.assigned_clients ≡ none
      → (authenticate_user enc key client_token p ≡ true) ↔ ((client_token ≡ []) × (key ≡ []))
  authenticate_user_unregistered key client_token p h =
      let same = authenticate_user_iff key client_token p in
      let missing : record_of (enc.encode key) p ≡ no_record = rw (h, record_of) refl in
      let no_token = ap (λ r. r.auth_token) missing in
      let no_key = ap (λ r. r.pub_key) missing in
      (
        λ known. let (t, k) = same.0 known in (sym t ∙ no_token, sym k ∙ no_key),
        λ empty. same.1 (no_token ∙ sym empty.0, no_key ∙ sym empty.1),
      )

  -- A pull request is answered only to a client whose key and token are those of the record.
  pub handle_pull_request-authentic :
      (os : Faults) (wire : Wire) (rqs_bytes : Bytes) (p : ProviderServer) (answer : List Bytes)
      → (handle_pull_request enc os wire rqs_bytes p).0 ≡ ok answer
      → (request : PullRequest) × (wire.pull_request.unmarshal rqs_bytes ≡ ok request)
        × ((record_of (enc.encode request.client_public_key) p).auth_token ≡ request.token)
        × ((record_of (enc.encode request.client_public_key) p).pub_key ≡ request.client_public_key)
  unfolding handle_pull_request
  handle_pull_request-authentic os wire rqs_bytes p answer h =
      elim (Result-cases (wire.pull_request.unmarshal rqs_bytes)) [
        | inl (request, e) ↦
            elim (Bool-cases (authenticate_user enc request.client_public_key request.token p)) [
              | inl known ↦
                  let (t, k) =
                    (authenticate_user_iff request.client_public_key request.token p).0 known in
                  (request, e, t, k)
              | inr unknown ↦ absurd (refused (rw (e, handle_pull_request, unknown) at h))
            ]
        | inr (inl (x, e)) ↦ absurd (refused (rw (e, handle_pull_request) at h))
        | inr (inr e) ↦ absurd (panicked (rw (e, handle_pull_request) at h))
      ]
    where
      refused : {e : Error} → ◌≡◌ {A = Result (List Bytes)} (err e) (ok answer) → ⊥
      refused h' = cc

      panicked : ◌≡◌ {A = Result (List Bytes)} panic (ok answer) → ⊥
      panicked h' = cc

  module _ (os : Faults) (quiet : IsQuiet os) (wire : Wire) (lib : Library) where
    mkdir_all-eq :
        (path : Bytes) (p : ProviderServer)
        → mkdir_all os p.files path ≡ ok (insert path [] p.files)
    unfolding mkdir_all
    mkdir_all-eq path p = rw (quiet.mkdir path) refl

    dir_exists-eq :
        (path : Bytes) (p : ProviderServer)
        → dir_exists os p.files path ≡ (elim (lookup path p.files) as (λ _. Result Bool) [
          | none ↦ ok false
          | some d ↦ ok true
        ])
    unfolding dir_exists
    dir_exists-eq path p = rw (quiet.stat path) refl

    -- A path has an inbox now, and it is the one that it had, if any.
    abbrev pub HasInbox : Bytes → ProviderServer → ProviderServer → Type 0
    HasInbox path p p' =
        (d : Directory) × (lookup path p'.files ≡ some d)
        × ((e : Directory) → lookup path p.files ≡ some e → d ≡ e)

    make_inbox-HasInbox :
        (path : Bytes) (p : ProviderServer)
        → AllSorted p
        → (p' : ProviderServer) × (make_inbox enc os wire lib path p ≡ (ok tt, p'))
          × (p'.assigned_clients ≡ p.assigned_clients)
          × AllSorted p'
          × HasInbox path p p'
    unfolding make_inbox
    make_inbox-HasInbox path p sorted = elim (Option-cases (lookup path p.files)) [
      | inl absent ↦ (
        record p { files = insert path [] p.files },
        rw (dir_exists-eq path p, absent, make_inbox, mkdir_all-eq path p) refl,
        refl,
        λ other e found. insert-IsSorted path other [] e p sorted tt found,
        (
          [],
          lookup-insert_self path [] p.files,
          λ e found. absurd (none_some e (sym absent ∙ found)),
        ),
      )
      | inr (d, there) ↦ (
        p,
        rw (dir_exists-eq path p, there, make_inbox) refl,
        refl,
        sorted,
        (d, there, λ e found. some_injective d e (sym there ∙ found)),
      )
    ]
      where
        none_some : (e : Directory) → ◌≡◌ {A = Option Directory} none (some e) → ⊥
        none_some e h = cc

    -- A registration that is read succeeds where the operating system does: the client gets a
    -- token that the provider accepts from then on with its key, and it has an inbox, the one
    -- that it had before, if any.
    pub register_new_client-accepts :
        (client_bytes : Bytes) (conf : ClientConfig) (p : ProviderServer)
        → AllSorted p
        → wire.client_config.unmarshal client_bytes ≡ ok conf
        → (client_token : Bytes) × (p' : ProviderServer) × (register_new_client enc os wire lib
              client_bytes p
            ≡ (ok client_token, p'))
          × (authenticate_user enc conf.pub_key client_token p' ≡ true)
          × AllSorted p'
          × HasInbox (inbox_path (enc.encode conf.pub_key)) p p'
    unfolding register_new_client
    register_new_client-accepts client_bytes conf p sorted read =
        let client_id = enc.encode conf.pub_key in
        let r = client_record enc os wire lib conf in
        let registered = record p { assigned_clients = insert client_id r p.assigned_clients } in
        let (p', made, clients, sorted', inbox) =
          make_inbox-HasInbox (inbox_path client_id) registered sorted in
        let known : record_of client_id p' ≡ r =
          rw (clients, record_of, lookup-insert_self client_id r p.assigned_clients) refl in
        (
          token_of enc os wire lib client_id,
          p',
          rw (read, register_new_client, made) refl,
          (authenticate_user_iff conf.pub_key _ p').1
              (ap (λ x. x.auth_token) known, ap (λ x. x.pub_key) known),
          sorted',
          inbox,
        )
