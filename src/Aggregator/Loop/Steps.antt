-- ===== src/Aggregator/Loop/Steps.antt =====
-- The runs of the event loop of aggregator/main.c: bytes arrive on the connections, and `run_main`
-- handles one event after the other.
use compostela.Prelude.{
  ℕ, suc, ◌≡◌, ◌≢◌, List, [], ◌∷◌, ◌++◌, Option, none, some, Bool, length, ◌≤◌,
}
use compostela.Transport.{Event}
use compostela.Supports.{Files}
use compostela.Aggregator.Channels.Registry.{NotAt}
use compostela.Aggregator.Files.{Env}
use compostela.Aggregator.Receive.{bufsize}
use compostela.Aggregator.Loop.{Peer, Daemon, Caller, Listener, Scratch, handle_event}

-- No connection is at the address, and no channel.
abbrev pub NoPeer : ℕ → List Peer → Type 0
NoPeer address [] = Unit {0}
NoPeer address (p ∷ peers) = (p.address ≢ address) × NoPeer address peers

abbrev pub NoChannel : ℕ → List Peer → Type 0
NoChannel self [] = Unit {0}
NoChannel self (p ∷ peers) = NotAt self (p.conn).channel_list × NoChannel self peers

-- A connection that would be made gets an address of its own.
abbrev pub NewCaller : Option Caller → List Peer → Type 0
NewCaller none peers = Unit {0}
NewCaller (some caller) peers = NoPeer caller.address peers

abbrev pub NewCallers : List Listener → List Peer → Type 0
NewCallers [] peers = Unit {0}
NewCallers (l ∷ socks) peers = NewCaller l.answer peers × NewCallers socks peers

-- What `malloc` and the stack have for a turn.
pub record IsScratch (scratch : Scratch) (socks : List Listener) (d : Daemon) : Type 0 where
  pub fresh_channel : NoChannel scratch.self d.peers
  pub fresh_peers : NewCallers socks d.peers
  pub whole : length scratch.memory ≤ bufsize

-- Reached from the start of the daemon, with the files as they are then, after `n` events.
pub data Reach (env : Env) (hostname_lookups : Bool) (files : Files) : ℕ → Daemon → Type 0 where
  start : Reach env hostname_lookups files 0 (record { files = files; peers = [] })
  arrives :
      {n : ℕ} {d : Daemon} (before : List Peer) (p : Peer) (after : List Peer) (events : List Event)
      → d.peers ≡ before ++ (p ∷ after)
      → Reach env hostname_lookups files n d
      → Reach env hostname_lookups files n
          (record d { peers = before ++ (record p { pending = p.pending ++ events } ∷ after) })
  handles :
      {n : ℕ} {d d' : Daemon} (scratch : Scratch) (epoll_data : ℕ) (socks : List Listener)
      → IsScratch scratch socks d
      → handle_event env hostname_lookups scratch epoll_data socks d ≡ some (some d')
      → Reach env hostname_lookups files n d
      → Reach env hostname_lookups files (suc n) d'
