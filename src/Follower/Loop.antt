-- ===== src/Follower/Loop.antt =====
-- The event loop of follower/main.c: `main`, with the control socket (`do_server_socket` and
-- `do_receive_0`) and the contexts that it runs in turn. A result of `none` is a fault or a receive
-- that still waits.
pub mod Keeping
pub mod Alike
pub mod Running
pub mod Making
pub mod Visiting
pub mod Invariant
pub mod Reconnecting
mod Tests
use compostela.Prelude.{
  ℕ, zero, suc, List, [], ◌∷◌, ◌++◌, Option, none, some, ◌>>=◌, Bool, true, false, ◌||◌, ◌==◌, map,
  take, if◌then◌else◌,
}
use compostela.Prelude.Words.{ℤ, pos, negsuc}
use compostela.AzBuffer.{Heap}
use compostela.Transport.{Sent, Event}
use compostela.Follower.Config.{Pattern, Globals}
use compostela.Follower.Connection.{Connection, Attempt, open_conn}
use compostela.Follower.Connection
use compostela.Follower.Context.{FollowContext, Net, Env, bufsize, reset}
use compostela.Follower.Run.{Ran, run_follow_context}
use compostela.Follower.Rotate.{PatternEntry, Clock, do_rotate}
use compostela.Follower.Controller.{Controller, Control, do_receive_data_0}
use compostela.Follower.Controller

-- What the visits of the control socket change: the contexts, and what is sent back.
pub record Serving : Type 0 where
  pub contexts : List FollowContext
  pub sends : List (List ℕ)

-- `do_receive_0` on what `recv` delivers, `BUFSIZE` bytes at most: `none` is -1, and the empty list
-- 0. The result of `_do_receive_data_0` is not looked at, and the controller is not kept.
unfoldable pub do_receive_0 : Heap → ℕ → Option (List ℕ) → Serving → Option Serving
do_receive_0 heap c none s = some s
do_receive_0 heap c (some []) s = some s
do_receive_0 heap c (some (b ∷ bytes)) s = do
  contr ← Controller.new heap c
  r ←
      do_receive_data_0 heap (take bufsize (b ∷ bytes))
        (record { controller = contr; contexts = s.contexts; sends = s.sends })
  some (record { contexts = (r.1).contexts; sends = (r.1).sends })

-- The answer of `accept` to an event: nobody is there (`EAGAIN`), another error, or a descriptor and
-- what `recv` delivers on it.
pub data Visit : Type 0 where
  nobody : Visit
  failed : Visit
  visitor : ℕ → Option (List ℕ) → Visit

-- The loop over the listening sockets for one event. After another error `recv` fails on -1.
unfoldable pub accept_loop : Heap → ℕ → Visit → List ℕ → Serving → Option Serving
accept_loop heap fd visit [] s = some s
accept_loop heap fd visit (sock ∷ socks) s =
    let rest = accept_loop heap fd visit socks s in
    if fd == sock
    then elim visit [ nobody ↦ rest | failed ↦ some s | visitor c got ↦ do_receive_0 heap c got s ]
    else rest

unfoldable pub serve_all : Heap → List (ℕ × Visit) → List ℕ → Serving → Option Serving
serve_all heap [] socks s = some s
serve_all heap ((fd, visit) ∷ events) socks s =
    accept_loop heap fd visit socks s >>= serve_all heap events socks

-- `do_server_socket` on the events that `epoll_wait` reports: whether there were any.
unfoldable pub do_server_socket :
    Heap → List (ℕ × Visit) → List ℕ → Serving → Option (Bool × Serving)
do_server_socket heap events socks s = serve_all heap events socks s >>= λ s'.
    some (elim events [ [] ↦ false | event ∷ more ↦ true ], s')

-- What the loop over the contexts leaves: the contexts, `sl`, `rc` and the network.
pub record Round : Type 0 where
  pub contexts : List FollowContext
  pub sl : Bool
  pub rc : Bool
  pub net : Net

-- The flags after a result. At -1 the cell of the context is freed, and the loop reads it.
unfoldable pub flags : ℤ → Bool → Bool → Option (Bool × Bool)
flags (pos zero) sl rc = some (false, rc)
flags (pos (suc n)) sl rc = some (sl, if suc n == 1001 then true else rc)
flags (negsuc zero) sl rc = none
flags (negsuc (suc n)) sl rc = some (false, rc)

-- The contexts, one after the other, each with its own surroundings, over the same network.
unfoldable pub run_all :
    (FollowContext → Env) → List FollowContext → Bool → Bool → Net → Option Round
run_all env_of [] sl rc net = some (record { contexts = []; sl = sl; rc = rc; net = net })
run_all env_of (cxt ∷ li) sl rc net = do
  r ← run_follow_context (env_of cxt) cxt net
  f ← flags r.ret sl rc
  rest ← run_all env_of li f.0 f.1 r.net
  some (record rest { contexts = r.cxt ∷ rest.contexts })

-- What a turn of `main` finds: memory, the listening sockets, the events on them, what each context
-- reads, and the addresses of the aggregator.
pub record Surroundings : Type 0 where
  pub heap : Heap
  pub socks : List ℕ
  pub events : List (ℕ × Visit)
  pub env_of : FollowContext → Env
  pub addresses : Option (List Attempt)

-- After `ERR_MUST_RECONNECT` every context is reset, and the connection is opened again.
unfoldable pub reconnect : Option (List Attempt) → Round → Round
reconnect addresses r =
    if r.rc
    then record r {
      contexts = map reset r.contexts;
      net = record (r.net) { conn = (open_conn addresses r.net.conn).1 };
    }
    else r

-- What the loop of `main` goes round with. `sl` is true before it sleeps.
pub record Daemon : Type 0 where
  pub contexts : List FollowContext
  pub sends : List (List ℕ)
  pub net : Net

unfoldable pub main_turn : Surroundings → Daemon → Option (Bool × Daemon)
main_turn around d = do
  served ←
      do_server_socket around.heap around.events around.socks
        (record { contexts = d.contexts; sends = d.sends })
  round ← run_all around.env_of (served.1).contexts (if served.0 then false else true) false d.net
  let after = reconnect around.addresses round
  some (after.sl, record { contexts = after.contexts; sends = (served.1).sends; net = after.net })

-- The pattern of an entry: `do_rotate` reads the path of each, a null pointer where there is none.
pub entries_of : List Pattern → Option (List PatternEntry)
entries_of [] = some []
entries_of (p ∷ patterns) = do
  path ← p.path
  rest ← entries_of patterns
  some (
      record {
        path = path;
        display_name = p.display_name;
        rotate = p.rotate;
        append_timestamp = p.append_timestamp;
      }
      ∷ rest)

-- `main` before its loop: without the address of a server it exits, which is the inner `none`.
unfoldable pub main_start :
    Env → Clock → Globals → Option (List Attempt) → List Sent → List Event → Option (Option Daemon)
unfolding entries_of
main_start env clock g addresses answers events = elim g.server_address [
  | none ↦ some none
  | some host ↦ do
    patterns ← entries_of g.patterns
    let conn = (open_conn addresses (Connection.new host g.server_port)).1
    r ←
        do_rotate env clock patterns []
          (record { conn = conn; answers = answers; events = events; wire = [] })
    some (some (record { contexts = r.0; sends = []; net = r.1 }))
]

-- The timer: `handler_alarm` calls `do_rotate`.
unfoldable pub handler_alarm : Env → Clock → List PatternEntry → Daemon → Option Daemon
handler_alarm env clock patterns d = do_rotate env clock patterns d.contexts d.net >>= λ r.
    some (record d { contexts = r.0; net = r.1 })
