-- ===== src/Rpc/Tcp/Connections.antt =====
-- The connections of a server by their ids (client/rpc/tcpsocket/tcpsocket_server.go).
use loopix_messaging.Prelude.{
  ℕ, suc, ◌^◌, ◌≤◌, ◌<◌, ◌≡◌, refl, sym, ap, ◌∙◌, Option, none, some, Result, arith, if◌then◌else◌,
  ◌==◌, ==_iff, Option-cases, Bool-cases, inl, inr,
}
use loopix_messaging.Prelude.Maps.{nat_key, lookup, lookup-insert, lookup-remove}
use loopix_messaging.Client.{NetClient}
use loopix_messaging.Rpc.Tcp.{
  SocketServer, new_socket_server, add_conn, rm_conn, shutdown_server, halt,
}

restored :
    {A : Type 0} (n id : ℕ) (conn : A) (before : Option A)
    → (n ≡ id → before ≡ none)
    → (if n == id then none else if n == id then some conn else before) ≡ before
restored n id conn before free = ground (arith, ==_iff n id, free)

module _ {Conn : Type 0} where
  -- `Reach c n s`: a server of client `c` that has accepted `n` connections, in any order with the
  -- removals, may be in state `s`.
  pub data Reach (c : NetClient) : ℕ → SocketServer Conn → Type 0 where
    start : Reach c 0 (new_socket_server c)
    accept :
        {n : ℕ} {s : SocketServer Conn} (conn : Conn)
        → Reach c n s
        → Reach c (suc n) (add_conn conn s).1
    drop_conn :
        {n : ℕ} {s : SocketServer Conn} (close : Conn → Result (Unit {0})) (id : ℕ)
        → Reach c n s
        → Reach c n (rm_conn close id s).1
    stop : {n : ℕ} {s : SocketServer Conn} → Reach c n s → Reach c n (shutdown_server s)

  abbrev AreBelow : ℕ → SocketServer Conn → Type 0
  AreBelow n s = (s.next_conn_id ≡ n) × ((id : ℕ) → n ≤ id → lookup id s.conns ≡ none)

  AreBelow-add_conn :
      (n : ℕ) (conn : Conn) (s : SocketServer Conn)
      → suc n < 2 ^ 64
      → AreBelow n s
      → AreBelow (suc n) (add_conn conn s).1
  unfolding add_conn
  AreBelow-add_conn n conn s h (e, free) = (
    omega arith,
    λ id le. rw lookup-insert (ground (arith, ==_iff s.next_conn_id id, free id (omega arith))),
  )

  AreBelow-rm_conn :
      (n : ℕ) (close : Conn → Result (Unit {0})) (id : ℕ) (s : SocketServer Conn)
      → AreBelow n s
      → AreBelow n (rm_conn close id s).1
  unfolding rm_conn
  AreBelow-rm_conn n close id s (e, free) = elim (Option-cases (lookup id s.conns)) [
    | inl m ↦ rw (m, rm_conn) (e, free)
    | inr (conn, m) ↦ rw (m, rm_conn) (e, λ j le. rw lookup-remove (ground (arith, free j le)))
  ]

  AreBelow-shutdown_server :
      (n : ℕ) (s : SocketServer Conn) → AreBelow n s → AreBelow n (shutdown_server s)
  unfolding shutdown_server halt lookup
  AreBelow-shutdown_server n s (e, free) = elim (Bool-cases s.halted) [
    | inl m ↦ rw m (e, free)
    | inr m ↦ rw m (e, λ j le. refl)
  ]

  Reach-AreBelow :
      {c : NetClient} {n : ℕ} {s : SocketServer Conn} → n < 2 ^ 64 → Reach c n s → AreBelow n s
  unfolding new_socket_server lookup
  Reach-AreBelow h start = (refl, λ id le. refl)
  Reach-AreBelow h (accept {n} {s} conn r) =
      AreBelow-add_conn n conn s h (Reach-AreBelow (omega arith) r)
  Reach-AreBelow h (drop_conn {n} {s} close id r) =
      AreBelow-rm_conn n close id s (Reach-AreBelow h r)
  Reach-AreBelow h (stop {n} {s} r) = AreBelow-shutdown_server n s (Reach-AreBelow h r)

  add_conn-fresh :
      {c : NetClient} {n : ℕ} (s : SocketServer Conn) (conn : Conn)
      → Reach c n s
      → n < 2 ^ 64
      → ((add_conn conn s).0 ≡ n)
        × (lookup n s.conns ≡ none)
        × ((id : ℕ)
            → lookup id (add_conn conn s).1.conns
              ≡ (if n == id then some conn else lookup id s.conns))
  unfolding add_conn
  add_conn-fresh {n = n} s conn r h =
      let (e, free) = Reach-AreBelow h r in
      (e, free n (omega arith), λ id. rw (lookup-insert, e) refl)

  -- In a server that has accepted fewer than 2^64 connections, in any order with the removals and
  -- the shutdown, a new connection gets the number of the connections before it as its id, which no
  -- connection of the table has; removing that id closes that connection, and leaves every id with
  -- what it had.
  pub rm_conn-add_conn :
      {c : NetClient} {n : ℕ} (s : SocketServer Conn) (conn : Conn)
      (close : Conn → Result (Unit {0}))
      → Reach c n s
      → n < 2 ^ 64
      → ((add_conn conn s).0 ≡ n)
        × (lookup n s.conns ≡ none)
        × ((rm_conn close n (add_conn conn s).1).0 ≡ close conn)
        × ((id : ℕ) → lookup id (rm_conn close n (add_conn conn s).1).1.conns ≡ lookup id s.conns)
  unfolding rm_conn
  rm_conn-add_conn {n = n} s conn close r h =
      let (e, free, table) = add_conn-fresh s conn r h in
      let found : lookup n (add_conn conn s).1.conns ≡ some conn =
        rw (table n, (==_iff n n).1 refl) refl in
      (
        e,
        free,
        rw (rm_conn, found) refl,
        λ id.
            rw (rm_conn, found)
              (lookup-remove n id (add_conn conn s).1.conns
                ∙ (rw (table id) (
                    restored n id conn (lookup id s.conns)
                      (λ same. ap (λ j. lookup j s.conns) (sym same) ∙ free)))),
      )
