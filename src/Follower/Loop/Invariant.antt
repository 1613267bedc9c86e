-- ===== src/Follower/Loop/Invariant.antt =====
-- The runs of the event loop of follower/main.c: turns of `main`, and rotations between them.
use compostela.Prelude.{
  ℕ, ◌≡◌, refl, sym, subst, List, [], ◌∷◌, Option, none, some, Bool, true, false, arith, Bool-cases,
  inl, inr, >>=-eq-some, if◌then◌else◌, map,
}
use compostela.Transport.{Sent, Event}
use compostela.Follower.Config.{Globals}
use compostela.Follower.Connection.{Attempt, open_conn}
use compostela.Follower.Connection
use compostela.Follower.Context.{FollowContext, Net, Env, reset}
use compostela.Follower.Run.{run_follow_context}
use compostela.Follower.Rotate.{PatternEntry, Clock, do_rotate}
use compostela.Follower.Loop.{
  Serving, do_server_socket, Round, flags, run_all, Surroundings, reconnect, Daemon, main_turn,
  entries_of, main_start, handler_alarm,
}
use compostela.Follower.Loop.Running.{run_follow_context-IsSound}
use compostela.Follower.Loop.Making.{AllSound, map-reset-AllSound, do_rotate-AllSound}
use compostela.Follower.Loop.Visiting.{do_server_socket-AllSound}

-- Reached from a start of the daemon. Memory is at hand in every turn.
pub data Reach (junk : ℕ → ℕ) : Daemon → Type 0 where
  start :
      {d : Daemon} (env : Env) (clock : Clock) (g : Globals) (addresses : Option (List Attempt))
      (answers : List Sent) (events : List Event)
      → env.heap ≡ some junk
      → main_start env clock g addresses answers events ≡ some (some d)
      → Reach junk d
  turn :
      {d d' : Daemon} (around : Surroundings) {sleeps : Bool}
      → around.heap ≡ some junk
      → main_turn around d ≡ some (sleeps, d')
      → Reach junk d
      → Reach junk d'
  rotation :
      {d d' : Daemon} (env : Env) (clock : Clock) (patterns : List PatternEntry)
      → env.heap ≡ some junk
      → handler_alarm env clock patterns d ≡ some d'
      → Reach junk d
      → Reach junk d'
  -- What the network has for the next turns.
  weather :
      {d : Daemon} (answers : List Sent) (events : List Event)
      → Reach junk d
      → Reach junk (record d { net = record (d.net) { answers = answers; events = events } })

run_all-AllSound :
    (env_of : FollowContext → Env) (contexts : List FollowContext) (sl rc : Bool) (net : Net)
    {r : Round}
    → AllSound contexts
    → run_all env_of contexts sl rc net ≡ some r
    → AllSound r.contexts
unfolding run_all
run_all-AllSound env_of [] sl rc net {r} s e =
    let same : [] ≡ r.contexts = ground (arith, e) in subst AllSound same tt
run_all-AllSound env_of (cxt ∷ li) sl rc net {r} s e =
    let ran = >>=-eq-some (run_follow_context (env_of cxt) cxt net) _ e in
    let f = >>=-eq-some (flags (ran.0).ret sl rc) _ ran.2 in
    let rest = >>=-eq-some (run_all env_of li (f.0).0 (f.0).1 (ran.0).net) _ f.2 in
    let same : (ran.0).cxt ∷ (rest.0).contexts ≡ r.contexts = ground (arith, rest.2) in
    subst AllSound same (
      run_follow_context-IsSound (env_of cxt) cxt net s.0 ran.1,
      run_all-AllSound env_of li (f.0).0 (f.0).1 (ran.0).net s.1 rest.1,
    )

reconnect-AllSound :
    (addresses : Option (List Attempt)) (r : Round)
    → AllSound r.contexts
    → AllSound (reconnect addresses r).contexts
unfolding reconnect
reconnect-AllSound addresses r s = elim (Bool-cases r.rc) [
  | inl must ↦
      subst
        (λ b.
          AllSound
            (if b
              then record r {
                contexts = map reset r.contexts;
                net = record (r.net) { conn = (open_conn addresses r.net.conn).1 };
              }
              else r).contexts)
        (sym must) (map-reset-AllSound r.contexts s)
  | inr fine ↦
      subst
        (λ b.
          AllSound
            (if b
              then record r {
                contexts = map reset r.contexts;
                net = record (r.net) { conn = (open_conn addresses r.net.conn).1 };
              }
              else r).contexts)
        (sym fine) s
]

main_turn-AllSound :
    (junk : ℕ → ℕ) (around : Surroundings) (d : Daemon) {r : Bool × Daemon}
    → around.heap ≡ some junk
    → AllSound d.contexts
    → main_turn around d ≡ some r
    → AllSound (r.1).contexts
unfolding main_turn
main_turn-AllSound junk around d {r} mem s e =
    let serving : Serving = record { contexts = d.contexts; sends = d.sends } in
    let served =
      >>=-eq-some (do_server_socket around.heap around.events around.socks serving) _ e in
    let sl : Bool = if (served.0).0 then false else true in
    let round =
      >>=-eq-some (run_all around.env_of ((served.0).1).contexts sl false d.net) _ served.2 in
    let same : (reconnect around.addresses round.0).contexts ≡ (r.1).contexts =
      ground (arith, round.2) in
    subst AllSound same (
      reconnect-AllSound around.addresses round.0 (
        run_all-AllSound around.env_of ((served.0).1).contexts sl false d.net
          (do_server_socket-AllSound around.heap junk around.events around.socks serving mem s
            served.1)
          round.1))

handler_alarm-AllSound :
    (junk : ℕ → ℕ) (env : Env) (clock : Clock) (patterns : List PatternEntry) (d : Daemon)
    {d' : Daemon}
    → env.heap ≡ some junk
    → AllSound d.contexts
    → handler_alarm env clock patterns d ≡ some d'
    → AllSound d'.contexts
unfolding handler_alarm
handler_alarm-AllSound junk env clock patterns d {d'} mem s e =
    let r = >>=-eq-some (do_rotate env clock patterns d.contexts d.net) _ e in
    let same : (r.0).0 ≡ d'.contexts = ground (arith, r.2) in
    subst AllSound same (do_rotate-AllSound env junk clock patterns d.contexts d.net mem s r.1)

main_start-AllSound :
    (junk : ℕ → ℕ) (env : Env) (clock : Clock) (g : Globals) (addresses : Option (List Attempt))
    (answers : List Sent) (events : List Event) (host : Option (List ℕ)) {d : Daemon}
    → g.server_address ≡ host
    → env.heap ≡ some junk
    → main_start env clock g addresses answers events ≡ some (some d)
    → AllSound d.contexts
unfolding main_start
main_start-AllSound junk env clock g addresses answers events none {d} named mem e =
    absurd (ground (arith, (rw (main_start, named) at e)))
main_start-AllSound junk env clock g addresses answers events (some host) {d} named mem e =
    let patterns = >>=-eq-some (entries_of g.patterns) _ (rw (main_start, named) at e) in
    let net : Net = record {
      conn = (open_conn addresses (Connection.new host g.server_port)).1;
      answers = answers;
      events = events;
      wire = [];
    } in
    let r = >>=-eq-some (do_rotate env clock patterns.0 [] net) _ patterns.2 in
    let same : (r.0).0 ≡ d.contexts = ground (arith, r.2) in
    subst AllSound same (do_rotate-AllSound env junk clock patterns.0 [] net mem tt r.1)

-- At every moment of the follower, with memory at hand: whatever the files, the network, the visitors
-- of the control socket and the rotations have done, each context that it follows has a buffer that
-- holds a queue of bytes between its cursor and its end, and a message block of 8192 bytes.
pub Reach-AllSound : (junk : ℕ → ℕ) (d : Daemon) → Reach junk d → AllSound d.contexts
Reach-AllSound junk d (Reach.start env clock g addresses answers events mem e) =
    main_start-AllSound junk env clock g addresses answers events g.server_address refl mem e
Reach-AllSound junk d (Reach.turn {d = d0} around mem e run) =
    main_turn-AllSound junk around d0 mem (Reach-AllSound junk d0 run) e
Reach-AllSound junk d (Reach.rotation {d = d0} env clock patterns mem e run) =
    handler_alarm-AllSound junk env clock patterns d0 mem (Reach-AllSound junk d0 run) e
Reach-AllSound junk d (Reach.weather {d = d0} answers events run) = Reach-AllSound junk d0 run
