-- ===== src/Aggregator/Loop.antt =====
-- The event loop of aggregator/main.c: `run_main`, and the life of a connection. What epoll reports
-- is the 64 bits of `epoll_data_t`: the code reads them as a descriptor, and as the address of a
-- connection. A connection from `malloc` has an address of its own.
pub mod Served
pub mod Handling
pub mod Opening
pub mod Dispatching
pub mod Turns
pub mod Peers
pub mod Steps
pub mod Invariant
pub mod Accepting
pub mod Closing
mod Tests
use compostela.Prelude.{
  ℕ, ◌+◌, ◌%◌, ◌^◌, List, [], ◌∷◌, ◌++◌, Option, none, some, ◌>>=◌, Bool, true, false, ◌==◌,
  if◌then◌else◌,
}
use compostela.Transport.{Event}
use compostela.Supports.{Files}
use compostela.Aggregator.Channels.{Connection}
use compostela.Aggregator.Files.{Env}
use compostela.Aggregator.Handlers.{Server}
use compostela.Aggregator.Receive.{Turn, served, dropped, do_receive}

-- `getnameinfo` for the peer: with `NI_NUMERICHOST` where the argument is true. It may fail.
abbrev pub NameInfo : Type 0
NameInfo = Bool → Option (List ℕ)

-- `sc_connection_set_remote_addr`: a name that is there stays.
unfoldable pub set_remote_addr : Bool → NameInfo → Connection → Connection
set_remote_addr hostname_lookups getnameinfo conn = elim conn.remote_addr [
  | some host ↦ conn
  | none ↦ record conn { remote_addr = getnameinfo (if hostname_lookups then false else true) }
]

-- `sc_connection_new`: there may be no memory for the struct, or for the address of the peer.
unfoldable pub connection_new : Bool → Bool → Bool → NameInfo → ℕ → Option Connection
connection_new struct_room address_room hostname_lookups getnameinfo s =
    if struct_room
    then (if address_room
        then some (
            set_remote_addr hostname_lookups getnameinfo
              (record { remote_addr = none; channel_list = []; socket = s }))
        else none)
    else none

-- A connection that epoll watches: its address, what its socket will deliver, and what was sent.
pub record Peer : Type 0 where
  pub address : ℕ
  pub conn : Connection
  pub pending : List Event
  pub sends : List (List ℕ)

pub record Daemon : Type 0 where
  pub files : Files
  pub peers : List Peer

-- One that calls: the descriptor that `accept` returns, the address that its connection would get,
-- what `malloc`, `getnameinfo` and `epoll_ctl` say for it, and what it sends.
pub record Caller : Type 0 where
  pub socket : ℕ
  pub address : ℕ
  pub struct_room : Bool
  pub address_room : Bool
  pub getnameinfo : NameInfo
  pub enrolled : Bool
  pub coming : List Event

-- A socket that the daemon listens on, with the answer of `accept` on it: `none` is -1.
pub record Listener : Type 0 where
  pub fd : ℕ
  pub answer : Option Caller

-- The new connection is watched. A null pointer is watched too, but no connection is there.
unfoldable pub enroll : Bool → Caller → Daemon → Daemon
enroll hostname_lookups caller d =
    elim (connection_new caller.struct_room caller.address_room hostname_lookups caller.getnameinfo
      caller.socket) [
        | none ↦ d
        | some conn ↦ record d {
          peers =
              record { address = caller.address; conn = conn; pending = caller.coming; sends = [] }
              ∷ d.peers;
        }
      ]

-- The loop over the listening sockets for one event: `done`, and the daemon. Where `accept` or
-- `epoll_ctl` fails the search goes on at the next socket.
unfoldable pub accept_loop : Bool → ℕ → List Listener → Daemon → Bool × Daemon
accept_loop hostname_lookups epoll_data [] d = (false, d)
accept_loop hostname_lookups epoll_data (l ∷ socks) d =
    let rest = accept_loop hostname_lookups epoll_data socks d in
    if epoll_data % 2 ^ 32 == l.fd
    then elim l.answer [
      | none ↦ rest
      | some caller ↦ if caller.enrolled then (true, enroll hostname_lookups caller d) else rest
    ]
    else rest

-- The connection at an address. Reading through a pointer to anything else is a fault.
unfoldable pub find_peer : List Peer → ℕ → Option Peer
find_peer [] address = none
find_peer (p ∷ peers) address =
    let rest = find_peer peers address in if p.address == address then some p else rest

unfoldable pub update_peer : List Peer → Peer → List Peer
update_peer [] peer = []
update_peer (p ∷ peers) peer =
    let rest = update_peer peers peer in
    if p.address == peer.address then peer ∷ peers else p ∷ rest

-- `epoll_ctl(EPOLL_CTL_DEL)`, `close` and `sc_connection_destroy`.
unfoldable pub connection_destroy : List Peer → ℕ → List Peer
connection_destroy [] address = []
connection_destroy (p ∷ peers) address =
    let rest = connection_destroy peers address in if p.address == address then peers else p ∷ rest

abbrev pub server_of : Daemon → Peer → Server
server_of d p = record { files = d.files; conn = p.conn; sends = p.sends }

-- The daemon after a turn of `do_receive` on a connection.
unfoldable pub after_turn : Daemon → Peer → Turn → Daemon
after_turn d p (served s events) = record {
  files = s.files;
  peers =
      update_peer d.peers
        (record { address = p.address; conn = s.conn; pending = events; sends = s.sends });
}
after_turn d p (dropped events) = record {
  files = d.files;
  peers = connection_destroy d.peers p.address;
}

-- What `malloc` and the stack hold for a turn: the address of a new channel, and what the block
-- of the message held before, its header and its content.
pub record Scratch : Type 0 where
  pub self : ℕ
  pub stack : List ℕ
  pub memory : List ℕ

-- `do_receive(epfd, events[i].data.ptr)`. The inner `none` is a receive that still waits.
pub receive_from : Env → Scratch → ℕ → Daemon → Option (Option Daemon)
receive_from env scratch epoll_data d = do
  p ← find_peer d.peers epoll_data
  turn ← do_receive env scratch.self scratch.stack scratch.memory (server_of d p) p.pending
  elim turn [ none ↦ some none | some t ↦ some (some (after_turn d p t)) ]

-- One round of the loop over the events that `epoll_wait` reports.
unfoldable pub handle_event :
    Env → Bool → Scratch → ℕ → List Listener → Daemon → Option (Option Daemon)
unfolding receive_from
handle_event env hostname_lookups scratch epoll_data socks d =
    let (done, d') = accept_loop hostname_lookups epoll_data socks d in
    if done then some (some d') else receive_from env scratch epoll_data d'
