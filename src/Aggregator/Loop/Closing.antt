-- ===== src/Aggregator/Loop/Closing.antt =====
-- How a connection of aggregator/main.c ends.
use compostela.Prelude.{
  ℕ, ◌%◌, ◌^◌, ◌≡◌, refl, ap, ◌∙◌, List, [], ◌∷◌, ◌++◌, some, arith, Bool, false,
}
use compostela.Transport.{Event, closed, failed, recvall}
use compostela.Aggregator.Files.{Env}
use compostela.Aggregator.Handlers.{Server}
use compostela.Aggregator.Receive.{dropped, do_receive, with_header}
use compostela.Aggregator.Loop.{
  Peer, Daemon, Listener, Scratch, accept_loop, find_peer, connection_destroy, server_of,
  after_turn, receive_from, handle_event,
}
use compostela.Aggregator.Loop.Accepting.{NoListener, handle_event-runs}
use compostela.Aggregator.Loop.Steps.{NoPeer}

accept_loop-other :
    (hostname_lookups : Bool) (epoll_data : ℕ) (socks : List Listener) (d : Daemon)
    → NoListener (epoll_data % 2 ^ 32) socks
    → accept_loop hostname_lookups epoll_data socks d ≡ (false, d)
unfolding accept_loop
accept_loop-other hostname_lookups epoll_data [] d others = refl
accept_loop-other hostname_lookups epoll_data (l ∷ socks) d others =
    ground (arith, others.0, accept_loop-other hostname_lookups epoll_data socks d others.1)

find_peer-found :
    (before : List Peer) (p : Peer) (after : List Peer)
    → NoPeer p.address before
    → find_peer (before ++ (p ∷ after)) p.address ≡ some p
unfolding find_peer
find_peer-found [] p after h = ground arith
find_peer-found (q ∷ before) p after h = ground (arith, h.0, find_peer-found before p after h.1)

connection_destroy-found :
    (before : List Peer) (p : Peer) (after : List Peer)
    → NoPeer p.address before
    → connection_destroy (before ++ (p ∷ after)) p.address ≡ before ++ after
unfolding connection_destroy
connection_destroy-found [] p after h = ground arith
connection_destroy-found (q ∷ before) p after h =
    ground (arith, h.0, connection_destroy-found before p after h.1)

-- What ends a connection: the peer closes it, or it breaks.
pub data Ending : Event → Type 0 where
  by_peer : Ending closed
  by_error : Ending failed

do_receive-ends :
    (env : Env) (scratch : Scratch) (s : Server) {e : Event} (events : List Event)
    → Ending e
    → (left : List Event) × (do_receive env scratch.self scratch.stack scratch.memory s (e ∷ events)
        ≡ some (some (dropped left)))
unfolding do_receive with_header recvall
do_receive-ends env scratch s events Ending.by_peer = (closed ∷ events, refl)
do_receive-ends env scratch s events Ending.by_error = (events, refl)

receive_from-drops :
    (env : Env) (scratch : Scratch) (d : Daemon) (p : Peer) {left : List Event}
    → find_peer d.peers p.address ≡ some p
    → do_receive env scratch.self scratch.stack scratch.memory (server_of d p) p.pending
      ≡ some (some (dropped left))
    → receive_from env scratch p.address d
      ≡ some (some (record d { peers = connection_destroy d.peers p.address }))
unfolding receive_from after_turn
receive_from-drops env scratch d p found turn = rw (found, turn) refl

-- An event on a connection whose peer has closed it, or whose socket is broken, before the next
-- message begins: that connection is given up, and no other connection and no file changes.
pub handle_event-closes :
    (env : Env) (hostname_lookups : Bool) (scratch : Scratch) (socks : List Listener) (d : Daemon)
    (before : List Peer) (p : Peer) (after : List Peer) {e : Event} (events : List Event)
    → NoListener (p.address % 2 ^ 32) socks
    → d.peers ≡ before ++ (p ∷ after)
    → NoPeer p.address before
    → p.pending ≡ e ∷ events
    → Ending e
    → handle_event env hostname_lookups scratch p.address socks d
      ≡ some (some (record d { peers = before ++ after }))
handle_event-closes env hostname_lookups scratch socks d before p after {e} events others here apart
      next ending =
    let turn = do_receive-ends env scratch (server_of d p) events ending in
    handle_event-runs env hostname_lookups scratch p.address socks d
      (accept_loop-other hostname_lookups p.address socks d others)
    ∙ receive_from-drops env scratch d p
        (ap (λ li. find_peer li p.address) here ∙ find_peer-found before p after apart)
        (ap (do_receive env scratch.self scratch.stack scratch.memory (server_of d p)) next
          ∙ turn.1)
    ∙ ap (λ li. some (some (record d { peers = li })))
        (ap (λ li. connection_destroy li p.address) here
          ∙ connection_destroy-found before p after apart)
