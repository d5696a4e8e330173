-- ===== src/Rpc/Websocket/Lifecycle.antt =====
-- client/rpc/websocket/websocket_server.go: how a server is made, started and shut down.
use loopix_messaging.Prelude.{
  ℕ, suc, ◌≡◌, refl, ap, ◌∙◌, ◌||◌, List, [], ◌∷◌, Bool, true, false, Bytes, Result, ok, err, panic,
  ◌>>◌, if◌then◌else◌, Bool-cases, inl, inr,
}
use loopix_messaging.Client.{NetClient, shutdown}
use loopix_messaging.Rpc.Requests.{Served}
use loopix_messaging.Rpc.Tcp.{closed, crashed}
use loopix_messaging.Rpc.Websocket.{Session, max_message_size}

-- A channel that is only ever closed: no channel, one that is open, and one that is closed.
pub data Channel : Type 0 where
  nil open_channel closed_channel : Channel

-- `close(ch)`
abbrev pub close_channel : Channel → Result Channel
close_channel nil = panic
close_channel open_channel = ok closed_channel
close_channel closed_channel = panic

-- Whether `<-ch` gets past: a channel that is not there blocks for ever.
abbrev pub passes : Channel → Bool
passes closed_channel = true
passes _ = false

pub data HttpServer : Type 0 where
  idle listening shut_down : HttpServer

pub record SocketServer : Type 0 where
  pub client : NetClient
  pub halted_ch : Channel
  -- whether `haltOnce` was used
  pub halt_once : Bool
  pub srv : HttpServer
  pub address : Bytes
  -- whether the two paths are registered with `net/http`
  pub registered : Bool

-- `haltedCh` is not made.
unfoldable pub new_socket_server : Bytes → NetClient → SocketServer
new_socket_server address c = record {
  client = c;
  halted_ch = nil;
  halt_once = false;
  srv = idle;
  address = address;
  registered = false;
}

-- A server that was shut down does not listen any more.
abbrev pub listen_and_serve : HttpServer → HttpServer
listen_and_serve shut_down = shut_down
listen_and_serve _ = listening

-- `started` is what starting the client gives. To register a path a second time panics.
unfoldable pub start : Result NetClient → SocketServer → Result (Unit {0}) × SocketServer
start (ok c) s =
    if s.registered
    then (panic, record s { client = c })
    else (ok tt, record s { client = c; registered = true; srv = listen_and_serve s.srv })
start (err e) s = (err e, s)
start panic s = (panic, s)

-- The state that `halt` leaves, where it panics too.
unfoldable pub halt : SocketServer → Result (Unit {0}) × SocketServer
halt s =
    let s' = record s { srv = shut_down; client = shutdown s.client } in
    elim (close_channel s.halted_ch) [
      | ok ch ↦ (ok tt, record s' { halted_ch = ch })
      | err e ↦ (err e, s')
      | panic ↦ (panic, s')
    ]

-- A call that panics uses `haltOnce` as well.
unfoldable pub shutdown_server : SocketServer → Result (Unit {0}) × SocketServer
unfolding halt
shutdown_server s = if s.halt_once then (ok tt, s) else halt (record s { halt_once = true })

-- Whether `Wait` returns.
unfoldable pub wait_returns : SocketServer → Bool
wait_returns s = passes s.halted_ch

-- What the pinging goroutine meets: a tick, with what writing the ping gives, or the end of the
-- connection.
pub data Ping : Type 0 where
  tick : Result (Unit {0}) → Ping
  done : Ping

-- The number of pings that it writes; an error is logged.
unfoldable pub ping_connection : List Ping → ℕ
ping_connection [] = 0
ping_connection (tick written ∷ pings) = suc (ping_connection pings)
ping_connection (done ∷ pings) = 0

-- `serveMixClient` up to its loop, which has the limit on what it reads: the upgrade, the limit, and
-- the two deadlines.
unfoldable pub open_mix_client :
    Result (Unit {0}) → Result (Unit {0}) → Result (Unit {0}) → (ℕ → Session) → Served → Session
open_mix_client upgrade write_deadline read_deadline loop s =
    elim (upgrade >> write_deadline >> read_deadline) [
      | ok set ↦ loop max_message_size
      | err e ↦ record { replies = []; served = s; ending = closed e }
      | panic ↦ record { replies = []; served = s; ending = crashed }
    ]

-- The calls that a program makes of a server.
pub data Call : Type 0 where
  starts : Result NetClient → Call
  shuts : Call

abbrev pub make : Call → SocketServer → SocketServer
make (starts started) s = (start started s).1
make shuts s = (shutdown_server s).1

abbrev pub make_all : List Call → SocketServer → SocketServer
make_all [] s = s
make_all (c ∷ calls) s = make_all calls (make c s)

abbrev pub has_shut : List Call → Bool
has_shut [] = false
has_shut (starts started ∷ calls) = has_shut calls
has_shut (shuts ∷ calls) = true

-- No channel was made, and a server that `Shutdown` was called on does not listen.
record IsChannelless (s : SocketServer) : Type 0 where
  no_channel : s.halted_ch ≡ nil
  quiet : s.halt_once ≡ true → s.srv ≡ shut_down

start-IsChannelless :
    (started : Result NetClient) (s : SocketServer)
    → IsChannelless s
    → IsChannelless (start started s).1 × ((start started s).1.halt_once ≡ s.halt_once)
unfolding start
start-IsChannelless (ok c) s v = elim (Bool-cases s.registered) [
  | inl e ↦ rw (start, e) (record { no_channel = v.no_channel; quiet = v.quiet }, refl)
  | inr e ↦
      rw (start, e)
        (record { no_channel = v.no_channel; quiet = λ h. ap listen_and_serve (v.quiet h) }, refl)
]
start-IsChannelless (err e) s v = (v, refl)
start-IsChannelless panic s v = (v, refl)

shutdown_server-IsChannelless :
    (s : SocketServer)
    → IsChannelless s
    → IsChannelless (shutdown_server s).1
      × ((shutdown_server s).1.halt_once ≡ true)
      × ((shutdown_server s).0 ≡ (if s.halt_once then ok tt else panic))
unfolding shutdown_server halt
shutdown_server-IsChannelless s v = elim (Bool-cases s.halt_once) [
  | inl e ↦
      rw (shutdown_server, e)
        (record { no_channel = v.no_channel; quiet = λ h. v.quiet e }, refl, refl)
  | inr e ↦
      rw (shutdown_server, e, v.no_channel)
        (record { no_channel = refl; quiet = λ h. refl }, refl, refl)
]

make_all-IsChannelless :
    (calls : List Call) (s : SocketServer)
    → IsChannelless s
    → IsChannelless (make_all calls s)
      × ((make_all calls s).halt_once ≡ (has_shut calls || s.halt_once))
make_all-IsChannelless [] s v = (v, refl)
make_all-IsChannelless (starts started ∷ calls) s v =
    let (kept, same) = start-IsChannelless started s v in
    let (all, once) = make_all-IsChannelless calls (start started s).1 kept in
    (all, once ∙ ap (λ b. has_shut calls || b) same)
make_all-IsChannelless (shuts ∷ calls) s v =
    let (kept, used, given) = shutdown_server-IsChannelless s v in
    let (all, once) = make_all-IsChannelless calls (shutdown_server s).1 kept in
    (all, once ∙ (ap (λ b. has_shut calls || b) used ∙ or_true (has_shut calls)))
  where
    or_true : (b : Bool) → (b || true) ≡ true
    or_true true = refl
    or_true false = refl

-- After any calls of Start and Shutdown on a websocket server that was made, Wait does not return,
-- and a Shutdown leaves the HTTP server shut down and panics, or returns where one was called
-- before; Wait does not return after it either.
pub shutdown_server-panics :
    (address : Bytes) (c : NetClient) (calls : List Call)
    → let s = make_all calls (new_socket_server address c) in
      (wait_returns s ≡ false)
      × ((shutdown_server s).0 ≡ (if has_shut calls then ok tt else panic))
      × ((shutdown_server s).1.srv ≡ shut_down)
      × (wait_returns (shutdown_server s).1 ≡ false)
unfolding new_socket_server wait_returns
shutdown_server-panics address c calls =
    let new = new_socket_server address c in
    let (v, once) =
      make_all-IsChannelless calls new (record { no_channel = refl; quiet = λ h. cc }) in
    let (kept, used, given) = shutdown_server-IsChannelless (make_all calls new) v in
    (
      ap passes v.no_channel,
      given ∙ ap (λ b. if b then ok tt else panic) (once ∙ or_false (has_shut calls)),
      kept.quiet used,
      ap passes kept.no_channel,
    )
  where
    or_false : (b : Bool) → (b || false) ≡ b
    or_false true = refl
    or_false false = refl
