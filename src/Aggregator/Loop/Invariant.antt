-- ===== src/Aggregator/Loop/Invariant.antt =====
-- What holds of the connections of aggregator/main.c at every moment of `run_main`.
use compostela.Prelude.{
  ℕ, suc, ◌+◌, ◌*◌, ◌%◌, ◌^◌, ◌≤◌, ◌<◌, ◌≡◌, refl, sym, ap, ◌∙◌, subst, List, [], ◌∷◌, none, some,
  arith, Bool, true, false, length, Bool-cases, Option-cases, inl, inr, ◌==◌, >>=-eq-some,
}
use compostela.Supports.{Files}
use compostela.Aggregator.Channels.{Channel, Connection}
use compostela.Aggregator.Channels.Registry.{NotAt}
use compostela.Aggregator.Files.{Env}
use compostela.Aggregator.Receive.{Turn, served, dropped, bufsize, do_receive}
use compostela.Aggregator.Loop.{
  Peer, Daemon, Caller, Listener, Scratch, NameInfo, connection_new, set_remote_addr, enroll,
  accept_loop, find_peer, server_of, after_turn, receive_from, handle_event,
}
use compostela.Aggregator.Loop.Served.{IsServed}
use compostela.Aggregator.Loop.Turns.{TurnServed, do_receive-Served}
use compostela.Aggregator.Loop.Peers.{
  AllServed, AllServed-mono, append-AllServed, find_peer-Served, update_peer-AllServed,
  connection_destroy-AllServed,
}
use compostela.Aggregator.Loop.Steps.{NoPeer, NoChannel, NewCaller, NewCallers, IsScratch, Reach}

set_remote_addr-channel_list :
    (lookups : Bool) (getnameinfo : NameInfo) (conn : Connection)
    → (set_remote_addr lookups getnameinfo conn).channel_list ≡ conn.channel_list
unfolding set_remote_addr
set_remote_addr-channel_list lookups getnameinfo conn = elim (Option-cases conn.remote_addr) [
  | inl e ↦ rw e refl
  | inr e ↦ rw (e.1) refl
]

connection_new-channel_list :
    (struct_room address_room lookups : Bool) (getnameinfo : NameInfo) (s : ℕ) {conn : Connection}
    → connection_new struct_room address_room lookups getnameinfo s ≡ some conn
    → conn.channel_list ≡ []
unfolding connection_new
connection_new-channel_list true true lookups getnameinfo s {conn} e =
    let it : set_remote_addr lookups getnameinfo
          (record { remote_addr = none; channel_list = []; socket = s })
        ≡ conn =
      ground (arith, e) in
    sym (ap (λ (c : Connection). c.channel_list) it)
    ∙ set_remote_addr-channel_list lookups getnameinfo
        (record { remote_addr = none; channel_list = []; socket = s })
connection_new-channel_list true false lookups getnameinfo s e = cc
connection_new-channel_list false address_room lookups getnameinfo s e = cc

-- The daemon as it should be, with an address that no channel has.
abbrev IsFresh : ℕ → ℕ → Daemon → Type 0
IsFresh size self d = AllServed size d.peers × NoChannel self d.peers

empty-IsServed : (size : ℕ) (li : List Channel) → li ≡ [] → IsServed size li
empty-IsServed size li e =
    rw e (record { registry = record { ordered = tt; apart = tt }; buffers = tt })

empty-NotAt : (self : ℕ) (li : List Channel) → li ≡ [] → NotAt self li
empty-NotAt self li e = rw e tt

enroll-IsFresh :
    (size self : ℕ) (lookups : Bool) (caller : Caller) (d : Daemon)
    → NoPeer caller.address d.peers
    → IsFresh size self d
    → IsFresh size self (enroll lookups caller d)
unfolding enroll
enroll-IsFresh size self lookups caller d new v =
    elim (Option-cases (
      connection_new caller.struct_room caller.address_room lookups caller.getnameinfo
        caller.socket)) [
          | inl e ↦ rw (enroll, e) v
          | inr made ↦
              let conn : Connection = made.0 in
              let none_yet : conn.channel_list ≡ [] =
                connection_new-channel_list caller.struct_room caller.address_room lookups
                  caller.getnameinfo caller.socket made.1 in
              rw (enroll, made.1)
                (
                  (empty-IsServed size conn.channel_list none_yet, new, v.0),
                  (empty-NotAt self conn.channel_list none_yet, v.1),
                )
        ]

accept_loop-IsFresh :
    (size self : ℕ) (lookups : Bool) (epoll_data : ℕ) (socks : List Listener) (d : Daemon)
    → NewCallers socks d.peers
    → IsFresh size self d
    → IsFresh size self (accept_loop lookups epoll_data socks d).1
unfolding accept_loop enroll
accept_loop-IsFresh size self lookups epoll_data [] d new v = v
accept_loop-IsFresh size self lookups epoll_data (l ∷ socks) d new v =
    let rest = accept_loop-IsFresh size self lookups epoll_data socks d new.1 v in
    elim (Bool-cases (epoll_data % 2 ^ 32 == l.fd)) [
      | inr other ↦ rw other rest
      | inl ready ↦ elim (Option-cases l.answer) [
        | inl refused ↦ rw (ready, refused) rest
        | inr called ↦ elim (Bool-cases (called.0).enrolled) [
          | inr lost ↦ rw (ready, called.1, lost) rest
          | inl watched ↦
              rw (ready, called.1, watched)
                (enroll-IsFresh size self lookups called.0 d
                  (subst (λ c. NewCaller c d.peers) called.1 new.0) v)
        ]
      ]
    ]

after_turn-Served :
    (size : ℕ) (d : Daemon) (p : Peer) (t : Turn)
    → TurnServed size t
    → AllServed size d.peers
    → AllServed size (after_turn d p t).peers
unfolding after_turn
after_turn-Served size d p (served s events) one v = update_peer-AllServed size d.peers _ one v
after_turn-Served size d p (dropped events) one v =
    connection_destroy-AllServed size d.peers p.address v

-- The room for one more message.
abbrev HasRoom : ℕ → Type 0
HasRoom size = (1024 ≤ size) × (size + bufsize < 2 ^ 44)

receive_from-Served :
    (env : Env) (junk : ℕ → ℕ) (scratch : Scratch) (epoll_data : ℕ) (d : Daemon) {d' : Daemon}
    (size : ℕ)
    → env.heap ≡ some junk
    → HasRoom size
    → length scratch.memory ≤ bufsize
    → IsFresh size scratch.self d
    → receive_from env scratch epoll_data d ≡ some (some d')
    → AllServed (size + bufsize) d'.peers
unfolding receive_from
receive_from-Served env junk scratch epoll_data d {d'} size mem room whole v e =
    let p = >>=-eq-some (find_peer d.peers epoll_data) _ e in
    let turn =
      >>=-eq-some
        (do_receive env scratch.self scratch.stack scratch.memory (server_of d p.0) (p.0).pending) _
        p.2 in
    let sound = find_peer-Served size scratch.self d.peers epoll_data v.0 v.1 p.1 in
    elim (Option-cases turn.0) [
      | inl waits ↦ absurd (ground (arith, (rw waits at (turn.2))))
      | inr t ↦
          let done =
            do_receive-Served env scratch.self scratch.stack scratch.memory (server_of d p.0)
              (p.0).pending size
              (record {
                junk = junk;
                memory = mem;
                fresh = sound.1;
                short = whole;
                least = room.0;
                room = room.1;
              })
              sound.0 (turn.1 ∙ ap some t.1) in
          let it : after_turn d p.0 t.0 ≡ d' = ground (arith, (rw (t.1) at (turn.2))) in
          subst (λ (a : Daemon). AllServed (size + bufsize) a.peers) it
            (after_turn-Served (size + bufsize) d p.0 t.0 done
              (AllServed-mono d.peers (omega arith) v.0))
    ]

handle_event-Served :
    (env : Env) (junk : ℕ → ℕ) (lookups : Bool) (scratch : Scratch) (epoll_data : ℕ)
    (socks : List Listener) (d : Daemon) {d' : Daemon} (size : ℕ)
    → env.heap ≡ some junk
    → HasRoom size
    → IsScratch scratch socks d
    → AllServed size d.peers
    → handle_event env lookups scratch epoll_data socks d ≡ some (some d')
    → AllServed (size + bufsize) d'.peers
unfolding handle_event
handle_event-Served env junk lookups scratch epoll_data socks d {d'} size mem room is v e =
    let after =
      accept_loop-IsFresh size scratch.self lookups epoll_data socks d is.fresh_peers
        (v, is.fresh_channel) in
    elim (Bool-cases (accept_loop lookups epoll_data socks d).0) [
      | inl done ↦
          let it : (accept_loop lookups epoll_data socks d).1 ≡ d' =
            ground (arith, (rw done at e)) in
          subst (λ (a : Daemon). AllServed (size + bufsize) a.peers) it
            (AllServed-mono (accept_loop lookups epoll_data socks d).1.peers (omega arith) after.0)
      | inr not_done ↦
          receive_from-Served env junk scratch epoll_data (accept_loop lookups epoll_data socks d).1
            size mem room is.whole after (rw not_done at e)
    ]

-- At every moment of a run of fewer than 2 ^ 31 events, with memory at hand: whatever the peers send, in whatever pieces and on
-- whatever connections, the connections have addresses that differ, in each the ids of the channels
-- are positive, differ and fall from the newest to the oldest, no two of its channels are the same,
-- and every buffer holds a queue of bytes between its cursor and its end, in a block that has grown
-- by no more than 8192 bytes with each event.
pub Reach-AllServed :
    (env : Env) (junk : ℕ → ℕ) (hostname_lookups : Bool) (files : Files) (n : ℕ) (d : Daemon)
    → env.heap ≡ some junk
    → n < 2 ^ 31
    → Reach env hostname_lookups files n d
    → AllServed (n * bufsize + 1024) d.peers
Reach-AllServed env junk lookups files n d mem small Reach.start = tt
Reach-AllServed env junk lookups files n d mem small
      (Reach.arrives {d = d0} before p after events here run) =
    append-AllServed (n * bufsize + 1024) before p after _ (
      subst (AllServed (n * bufsize + 1024)) here
        (Reach-AllServed env junk lookups files n d0 mem small run))
Reach-AllServed env junk lookups files (suc n) d mem small
      (Reach.handles {d = d0} scratch epoll_data socks is e run) =
    let before = Reach-AllServed env junk lookups files n d0 mem (omega (arith, small)) run in
    subst (λ k. AllServed k d.peers) (omega arith)
      (handle_event-Served env junk lookups scratch epoll_data socks d0 (n * bufsize + 1024) mem
        (omega arith, omega (arith, small)) is before e)
