-- ===== src/Follower/Loop/Reconnecting.antt =====
-- What a turn of `main` of follower/main.c does when the connection is gone, and when a file cannot
-- be read.
use compostela.Prelude.{
  ℕ, ◌≡◌, refl, ap, ◌∙◌, List, [], ◌∷◌, ◌++◌, none, some, Bool, true, false, map, ◌==◌,
}
use compostela.Prelude.Words.{pos, negsuc}
use compostela.AzBuffer.{AzBuffer, unread_bytes, unused_bytes, fetch_file}
use compostela.AzBuffer
use compostela.AzBuffer.Holds.{Holds, reset_lem, unread_bytes_lem}
use compostela.AzBuffer.Fetch.{fetch_file_error}
use compostela.Message.{scm_msg_none}
use compostela.Follower.Connection.{Connection, Attempt, connected, is_live, open_conn}
use compostela.Follower.Connection.Opening.{AllFail, try_all-connected}
use compostela.Follower.Context.{FollowContext, Net, Env, reset, close_file, err_must_reconnect}
use compostela.Follower.Run.{
  Ran, run_follow_context, next_line, take_read, follow_read_line, advance,
}
use compostela.Follower.Run.Line.{IsReady}
use compostela.Follower.Loop.{
  do_server_socket, serve_all, Round, flags, run_all, Surroundings, reconnect, Daemon, main_turn,
}

run-dead :
    (env : Env) (cxt : FollowContext) (net : Net)
    → is_live net.conn.socket ≡ false
    → run_follow_context env cxt net
      ≡ some (record { ret = err_must_reconnect; resp = none; cxt = cxt; net = net })
unfolding run_follow_context
run-dead env cxt net dead = rw (run_follow_context, dead) refl

-- Without a connection the loop changes no context.
run_all-dead :
    (env_of : FollowContext → Env) (cxt : FollowContext) (li : List FollowContext) (sl rc : Bool)
    (net : Net)
    → is_live net.conn.socket ≡ false
    → run_all env_of (cxt ∷ li) sl rc net
      ≡ some (record { contexts = cxt ∷ li; sl = sl; rc = true; net = net })
unfolding run_all flags
run_all-dead env_of cxt [] sl rc net dead = rw (run_all, run-dead (env_of cxt) cxt net dead) refl
run_all-dead env_of cxt (next ∷ li) sl rc net dead =
    let rest = run_all-dead env_of next li sl true net dead in
    rw (run_all, run-dead (env_of cxt) cxt net dead, rest) refl

main_turn-quiet :
    (around : Surroundings) (d : Daemon) {r : Round}
    → around.events ≡ []
    → run_all around.env_of d.contexts true false d.net ≡ some r
    → main_turn around d
      ≡ some (
        (reconnect around.addresses r).sl,
        record {
          contexts = (reconnect around.addresses r).contexts;
          sends = d.sends;
          net = (reconnect around.addresses r).net;
        },
      )
unfolding main_turn do_server_socket serve_all
main_turn-quiet around d quiet ran = rw (main_turn, quiet, ran) refl

-- Whatever `open_conn` comes to.
pub main_turn-reopens :
    (around : Surroundings) (cxt : FollowContext) (li : List FollowContext) (d : Daemon)
    → around.events ≡ []
    → d.contexts ≡ cxt ∷ li
    → is_live d.net.conn.socket ≡ false
    → main_turn around d
      ≡ some (
        true,
        record {
          contexts = map reset (cxt ∷ li);
          sends = d.sends;
          net = record (d.net) { conn = (open_conn around.addresses d.net.conn).1 };
        },
      )
unfolding reconnect
main_turn-reopens around cxt li d quiet here dead = main_turn-quiet around d quiet (
    ap (λ c. run_all around.env_of c true false d.net) here
    ∙ run_all-dead around.env_of cxt li true false d.net dead)

-- A context is closed, and has nothing read and no message; its names and its channel stay.
pub record Forgot (cxt cxt' : FollowContext) : Type 0 where
  pub closed : cxt'.fd ≡ negsuc 0
  pub irregular : cxt'.regular ≡ false
  pub start : cxt'.position ≡ 0
  pub empty : cxt'.buffer ≡ record (cxt.buffer) { cursor = 0; used = 0 }
  pub silent : cxt'.message_buffer ≡ record (cxt.message_buffer) { code = 0 }
  pub same_file : cxt'.filename ≡ cxt.filename
  pub same_name : cxt'.display_name ≡ cxt.display_name
  pub same_channel : cxt'.channel ≡ cxt.channel
  pub same_stamp : cxt'.ftimestamp ≡ cxt.ftimestamp

-- Each context of the one list and its like in the other.
abbrev pub AllForgot : List FollowContext → List FollowContext → Type 0
AllForgot [] [] = Unit {0}
AllForgot [] (c' ∷ li') = ⊥
AllForgot (c ∷ li) [] = ⊥
AllForgot (c ∷ li) (c' ∷ li') = Forgot c c' × AllForgot li li'

map-reset-AllForgot : (li : List FollowContext) → AllForgot li (map reset li)
unfolding reset close_file AzBuffer.reset
map-reset-AllForgot [] = tt
map-reset-AllForgot (c ∷ li) = (
  record {
    closed = refl;
    irregular = refl;
    start = refl;
    empty = refl;
    silent = refl;
    same_file = refl;
    same_name = refl;
    same_channel = refl;
    same_stamp = refl;
  },
  map-reset-AllForgot li,
)

-- A turn without a connection, with files to follow and no visitor, where some address of the
-- aggregator answers: the connection has the socket of the first that does. Every context is closed,
-- stands at the start, and forgets what it has read and the message that waits, so that it will ask
-- the aggregator where to go on; its names and its channel stay. The loop sleeps before its next turn.
pub main_turn-reconnects :
    (around : Surroundings) (cxt : FollowContext) (li : List FollowContext) (d : Daemon)
    (down : List Attempt) (s : ℕ) (more : List Attempt)
    → around.events ≡ []
    → d.contexts ≡ cxt ∷ li
    → is_live d.net.conn.socket ≡ false
    → around.addresses ≡ some (down ++ (connected s ∷ more))
    → AllFail down
    → (contexts : List FollowContext) × (main_turn around d
        ≡ some (
          true,
          record {
            contexts = contexts;
            sends = d.sends;
            net = record (d.net) { conn = record (d.net.conn) { socket = pos s } };
          },
        ))
      × AllForgot (cxt ∷ li) contexts
unfolding open_conn
main_turn-reconnects around cxt li d down s more quiet here dead there fails = (
  map reset (cxt ∷ li),
  main_turn-reopens around cxt li d quiet here dead
      ∙ ap
          (λ (c : Connection). some (
            true,
            record {
              contexts = map reset (cxt ∷ li);
              sends = d.sends;
              net = record (d.net) { conn = c };
            },
          ))
          (ap (λ a. (open_conn a d.net.conn).1) there
            ∙ try_all-connected down s more d.net.conn fails),
  map-reset-AllForgot (cxt ∷ li),
)

-- Nothing waits, and the read fails for good.
read-fails :
    (env : Env) (cxt : FollowContext) (net : Net)
    → is_live net.conn.socket ≡ true
    → IsReady cxt
    → Holds cxt.buffer []
    → ((count : ℕ) → env.reads cxt.offset count ≡ none)
    → env.errno_again ≡ false
    → (r : Ran) × (run_follow_context env cxt net ≡ some r) × (r.ret ≡ negsuc 0)
unfolding run_follow_context next_line follow_read_line take_read
read-fails env cxt net live ready h fails hard =
    let empty : AzBuffer = AzBuffer.reset cxt.buffer in
    let fetch =
      fetch_file_error (env.reads cxt.offset) (unused_bytes empty) (reset_lem h).0 (fails _) in
    (
      record {
        ret = negsuc 0;
        resp = none;
        cxt = record cxt { buffer = empty; offset = advance cxt.offset (negsuc 0) };
        net = net;
      },
      rw
          (
            run_follow_context,
            live,
            ap (λ n. n == scm_msg_none) ready.no_message,
            ready.opened,
            ap (λ n. n == 0) (unread_bytes_lem h),
            fetch,
            hard,
          )
          refl,
      refl,
    )

run_all-error :
    (env_of : FollowContext → Env) (cxt : FollowContext) (li : List FollowContext) (sl rc : Bool)
    (net : Net) {r : Ran}
    → run_follow_context (env_of cxt) cxt net ≡ some r
    → r.ret ≡ negsuc 0
    → run_all env_of (cxt ∷ li) sl rc net ≡ none
unfolding run_all flags
run_all-error env_of cxt li sl rc net ran failed = rw (run_all, ran, failed) refl

main_turn-faults :
    (around : Surroundings) (d : Daemon)
    → around.events ≡ []
    → run_all around.env_of d.contexts true false d.net ≡ none
    → main_turn around d ≡ none
unfolding main_turn do_server_socket serve_all
main_turn-faults around d quiet ran = rw (main_turn, quiet, ran) refl

-- A file that cannot be read any more, for another reason than `EAGAIN`, of the first context, which
-- has nothing left in its buffer: the context is taken out of the list while the loop stands on its
-- cell, and the turn faults at the step to the next.
pub main_turn-read_error :
    (around : Surroundings) (cxt : FollowContext) (li : List FollowContext) (d : Daemon)
    → around.events ≡ []
    → d.contexts ≡ cxt ∷ li
    → is_live d.net.conn.socket ≡ true
    → IsReady cxt
    → Holds cxt.buffer []
    → ((count : ℕ) → (around.env_of cxt).reads cxt.offset count ≡ none)
    → (around.env_of cxt).errno_again ≡ false
    → main_turn around d ≡ none
main_turn-read_error around cxt li d quiet here live ready h fails hard =
    let ran = read-fails (around.env_of cxt) cxt d.net live ready h fails hard in
    main_turn-faults around d quiet (
      ap (λ c. run_all around.env_of c true false d.net) here
      ∙ run_all-error around.env_of cxt li true false d.net ran.1 ran.2)
