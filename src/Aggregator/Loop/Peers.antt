-- ===== src/Aggregator/Loop/Peers.antt =====
-- The list of the connections that `run_main` of aggregator/main.c watches.
use compostela.Prelude.{
  ℕ, ◌≤◌, ◌≡◌, subst, List, [], ◌∷◌, ◌++◌, some, arith, Bool-cases, inl, inr, ◌==◌,
}
use compostela.Transport.{Event}
use compostela.Aggregator.Channels.Registry.{NotAt}
use compostela.Aggregator.Loop.{Peer, find_peer, update_peer, connection_destroy}
use compostela.Aggregator.Loop.Served.{IsServed, IsServed-mono}
use compostela.Aggregator.Loop.Steps.{NoPeer, NoChannel}

-- The connections have addresses of their own, and channels in order.
abbrev pub AllServed : ℕ → List Peer → Type 0
AllServed size [] = Unit {0}
AllServed size (p ∷ peers) =
    IsServed size (p.conn).channel_list × NoPeer p.address peers × AllServed size peers

pub AllServed-mono : {m n : ℕ} (peers : List Peer) → m ≤ n → AllServed m peers → AllServed n peers
AllServed-mono [] h v = tt
AllServed-mono (p ∷ peers) h v =
    (IsServed-mono (p.conn).channel_list h v.0, v.1, AllServed-mono peers h v.2)

-- More pending events change no address and no channel.
append-NoPeer :
    (address : ℕ) (before : List Peer) (p : Peer) (after : List Peer) (events : List Event)
    → NoPeer address (before ++ (p ∷ after))
    → NoPeer address (before ++ (record p { pending = events } ∷ after))
append-NoPeer address [] p after events h = (h.0, h.1)
append-NoPeer address (q ∷ before) p after events h =
    (h.0, append-NoPeer address before p after events h.1)

pub append-AllServed :
    (size : ℕ) (before : List Peer) (p : Peer) (after : List Peer) (events : List Event)
    → AllServed size (before ++ (p ∷ after))
    → AllServed size (before ++ (record p { pending = events } ∷ after))
append-AllServed size [] p after events v = (v.0, v.1, v.2)
append-AllServed size (q ∷ before) p after events v = (
  v.0,
  append-NoPeer q.address before p after events v.1,
  append-AllServed size before p after events v.2,
)

-- The connection that is found has its address, channels in order, and none at the new address.
pub find_peer-Served :
    (size self : ℕ) (peers : List Peer) (address : ℕ) {p : Peer}
    → AllServed size peers
    → NoChannel self peers
    → find_peer peers address ≡ some p
    → IsServed size (p.conn).channel_list × NotAt self (p.conn).channel_list
unfolding find_peer
find_peer-Served size self [] address v fresh e = cc
find_peer-Served size self (q ∷ peers) address {p} v fresh e =
    elim (Bool-cases (q.address == address)) [
      | inl here ↦
          let it : q ≡ p = ground (arith, (rw here at e)) in
          subst
            (λ (r : Peer). IsServed size (r.conn).channel_list × NotAt self (r.conn).channel_list)
            it (v.0, fresh.0)
      | inr further ↦ find_peer-Served size self peers address v.2 fresh.1 (rw further at e)
    ]

update_peer-NoPeer :
    (address : ℕ) (peers : List Peer) (peer : Peer)
    → NoPeer address peers
    → NoPeer address (update_peer peers peer)
unfolding update_peer
update_peer-NoPeer address [] peer h = tt
update_peer-NoPeer address (p ∷ peers) peer h = elim (Bool-cases (p.address == peer.address)) [
  | inl here ↦ rw here ((λ e. h.0 (ground (arith, here, e))), h.1)
  | inr further ↦ rw further (h.0, update_peer-NoPeer address peers peer h.1)
]

pub update_peer-AllServed :
    (size : ℕ) (peers : List Peer) (peer : Peer)
    → IsServed size (peer.conn).channel_list
    → AllServed size peers
    → AllServed size (update_peer peers peer)
unfolding update_peer
update_peer-AllServed size [] peer one v = tt
update_peer-AllServed size (p ∷ peers) peer one v = elim (Bool-cases (p.address == peer.address)) [
  | inl here ↦
      let same : p.address ≡ peer.address = ground (arith, here) in
      rw here (one, subst (λ a. NoPeer a peers) same v.1, v.2)
  | inr further ↦ rw further (
    v.0,
    update_peer-NoPeer p.address peers peer v.1,
    update_peer-AllServed size peers peer one v.2,
  )
]

connection_destroy-NoPeer :
    (a : ℕ) (peers : List Peer) (address : ℕ)
    → NoPeer a peers
    → NoPeer a (connection_destroy peers address)
unfolding connection_destroy
connection_destroy-NoPeer a [] address h = tt
connection_destroy-NoPeer a (p ∷ peers) address h = elim (Bool-cases (p.address == address)) [
  | inl here ↦ rw here (h.1)
  | inr further ↦ rw further (h.0, connection_destroy-NoPeer a peers address h.1)
]

pub connection_destroy-AllServed :
    (size : ℕ) (peers : List Peer) (address : ℕ)
    → AllServed size peers
    → AllServed size (connection_destroy peers address)
unfolding connection_destroy
connection_destroy-AllServed size [] address v = tt
connection_destroy-AllServed size (p ∷ peers) address v = elim (Bool-cases (p.address == address)) [
  | inl here ↦ rw here (v.2)
  | inr further ↦ rw further (
    v.0,
    connection_destroy-NoPeer p.address peers address v.1,
    connection_destroy-AllServed size peers address v.2,
  )
]
