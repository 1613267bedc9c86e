-- ===== src/Aggregator/Loop/Accepting.antt =====
-- How a connection of aggregator/main.c begins, how it ends, and what `run_main` does where it does
-- not begin.
use compostela.Prelude.{
  ℕ, ◌%◌, ◌^◌, ◌<◌, ◌≡◌, refl, ap, ◌∙◌, ◌≢◌, List, [], ◌∷◌, ◌++◌, Option, none, some, arith, Bool,
  true, false, not, Bool-cases, subst, Option-cases, inl, inr, ◌==◌, if◌then◌else◌,
}
use compostela.Aggregator.Files.{Env}
use compostela.Aggregator.Loop.{
  Peer, Daemon, Caller, Listener, Scratch, connection_new, set_remote_addr, enroll, accept_loop,
  find_peer, receive_from, handle_event,
}
use compostela.Aggregator.Loop.Steps.{NoPeer}

-- No listening socket has the descriptor.
abbrev pub NoListener : ℕ → List Listener → Type 0
NoListener fd [] = Unit {0}
NoListener fd (l ∷ socks) = (fd ≢ l.fd) × NoListener fd socks

-- `accept` fails, or `epoll_ctl` does.
abbrev pub IsLost : Option Caller → Type 0
IsLost none = Unit {0}
IsLost (some caller) = caller.enrolled ≡ false

abbrev pub AllLost : List Listener → Type 0
AllLost [] = Unit {0}
AllLost (l ∷ socks) = IsLost l.answer × AllLost socks

-- A connection for a caller, named in words where the configuration asks for that.
abbrev pub new_peer : Bool → Caller → Peer
new_peer hostname_lookups caller = record {
  address = caller.address;
  conn = record {
    remote_addr = caller.getnameinfo (not hostname_lookups);
    channel_list = [];
    socket = caller.socket;
  };
  pending = caller.coming;
  sends = [];
}

-- For the call there is memory, and room in epoll.
pub record IsWelcome (caller : Caller) : Type 0 where
  pub struct_room : caller.struct_room ≡ true
  pub address_room : caller.address_room ≡ true
  pub enrolled : caller.enrolled ≡ true

connection_new-named :
    (hostname_lookups : Bool) (caller : Caller)
    → connection_new true true hostname_lookups caller.getnameinfo caller.socket
      ≡ some (new_peer hostname_lookups caller).conn
unfolding connection_new set_remote_addr
connection_new-named true caller = refl
connection_new-named false caller = refl

enroll-welcome :
    (hostname_lookups : Bool) (caller : Caller) (d : Daemon)
    → IsWelcome caller
    → enroll hostname_lookups caller d
      ≡ record d { peers = new_peer hostname_lookups caller ∷ d.peers }
unfolding enroll
enroll-welcome hostname_lookups caller d w =
    ap
      (λ b.
        elim (connection_new b caller.address_room hostname_lookups caller.getnameinfo
          caller.socket) [
            | none ↦ d
            | some conn ↦ record d {
              peers =
                  record {
                    address = caller.address;
                    conn = conn;
                    pending = caller.coming;
                    sends = [];
                  }
                  ∷ d.peers;
            }
          ])
      w.struct_room
    ∙ rw (w.address_room, connection_new-named hostname_lookups caller) refl

accept_loop-found :
    (hostname_lookups : Bool) (fd : ℕ) (before : List Listener) (caller : Caller)
    (after : List Listener) (d : Daemon)
    → fd < 2 ^ 32
    → NoListener fd before
    → caller.enrolled ≡ true
    → accept_loop hostname_lookups fd
        (before ++ (record { fd = fd; answer = some caller } ∷ after))
        d
      ≡ (true, enroll hostname_lookups caller d)
unfolding accept_loop
accept_loop-found hostname_lookups fd [] caller after d small others ok = ground (arith, small, ok)
accept_loop-found hostname_lookups fd (l ∷ before) caller after d small others ok = ground (
  arith,
  small,
  others.0,
  accept_loop-found hostname_lookups fd before caller after d small others.1 ok,
)

accept_loop-lost :
    (hostname_lookups : Bool) (epoll_data : ℕ) (socks : List Listener) (d : Daemon)
    → AllLost socks
    → accept_loop hostname_lookups epoll_data socks d ≡ (false, d)
unfolding accept_loop
accept_loop-lost hostname_lookups epoll_data [] d lost = refl
accept_loop-lost hostname_lookups epoll_data (l ∷ socks) d lost =
    let rest = accept_loop-lost hostname_lookups epoll_data socks d lost.1 in
    elim (Bool-cases (epoll_data % 2 ^ 32 == l.fd)) [
      | inr other ↦ rw other rest
      | inl ready ↦ elim (Option-cases l.answer) [
        | inl refused ↦ rw (ready, refused) rest
        | inr called ↦
            let gone : (called.0).enrolled ≡ false = subst IsLost called.1 lost.0 in
            ground (arith, ready, called.1, gone, rest)
      ]
    ]

pub handle_event-runs :
    (env : Env) (lookups : Bool) (scratch : Scratch) (epoll_data : ℕ) (socks : List Listener)
    (d : Daemon) {done : Bool} {d' : Daemon}
    → accept_loop lookups epoll_data socks d ≡ (done, d')
    → handle_event env lookups scratch epoll_data socks d
      ≡ (if done then some (some d') else receive_from env scratch epoll_data d')
unfolding handle_event
handle_event-runs env lookups scratch epoll_data socks d e =
    ap
      (λ (r : Bool × Daemon).
        if r.0 then some (some r.1) else receive_from env scratch epoll_data r.1)
      e

-- An event on a listening socket, the first with its descriptor: the caller that `accept` returns
-- gets a connection in front of the others, without channels, under the name or the number of its
-- host as the configuration says, and no other connection and no file changes.
pub handle_event-accepts :
    (env : Env) (hostname_lookups : Bool) (scratch : Scratch) (fd : ℕ) (before : List Listener)
    (caller : Caller) (after : List Listener) (d : Daemon)
    → fd < 2 ^ 32
    → NoListener fd before
    → IsWelcome caller
    → handle_event env hostname_lookups scratch fd
        (before ++ (record { fd = fd; answer = some caller } ∷ after))
        d
      ≡ some (some (record d { peers = new_peer hostname_lookups caller ∷ d.peers }))
handle_event-accepts env hostname_lookups scratch fd before caller after d small others w =
    handle_event-runs env hostname_lookups scratch fd
      (before ++ (record { fd = fd; answer = some caller } ∷ after)) d
      (accept_loop-found hostname_lookups fd before caller after d small others w.enrolled)
    ∙ ap (λ a. some (some a)) (enroll-welcome hostname_lookups caller d w)

find_peer-NoPeer :
    (peers : List Peer) (address : ℕ) → NoPeer address peers → find_peer peers address ≡ none
unfolding find_peer
find_peer-NoPeer [] address h = refl
find_peer-NoPeer (p ∷ peers) address h = ground (arith, h.0, find_peer-NoPeer peers address h.1)

receive_from-none :
    (env : Env) (scratch : Scratch) (epoll_data : ℕ) (d : Daemon)
    → find_peer d.peers epoll_data ≡ none
    → receive_from env scratch epoll_data d ≡ none
unfolding receive_from
receive_from-none env scratch epoll_data d e = rw e refl

-- An event on a listening socket whose caller is gone, or for whom epoll has no room: the loop goes
-- on to read the descriptor as the address of a connection. As no connection is at that address,
-- the daemon faults.
pub handle_event-lost :
    (env : Env) (hostname_lookups : Bool) (scratch : Scratch) (fd : ℕ) (socks : List Listener)
    (d : Daemon)
    → AllLost socks
    → NoPeer fd d.peers
    → handle_event env hostname_lookups scratch fd socks d ≡ none
handle_event-lost env hostname_lookups scratch fd socks d lost nobody =
    handle_event-runs env hostname_lookups scratch fd socks d
      (accept_loop-lost hostname_lookups fd socks d lost)
    ∙ receive_from-none env scratch fd d (find_peer-NoPeer d.peers fd nobody)
