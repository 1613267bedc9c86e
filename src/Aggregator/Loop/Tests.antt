-- ===== src/Aggregator/Loop/Tests.antt =====
-- The event loop at work: one caller, that sends a message without a channel and then goes.
use compostela.Prelude.{◌≡◌, refl, ◌+◌, ◌*◌, List, [], ◌∷◌, some, none, arith, true}
use compostela.Transport.{Event, chunk, closed, recvall}
use compostela.Message.{load_header, image, swap_header}
use compostela.Aggregator.Receive.{bufsize, do_receive, dispatch, with_header, with_content}
use compostela.Aggregator.Handlers.{handler_dummy}
use compostela.Aggregator.Sample.{env, zeroes, no_files}
use compostela.Aggregator.Loop.{
  Daemon, Caller, Listener, Scratch, handle_event, accept_loop, find_peer, after_turn, update_peer,
}
use compostela.Aggregator.Loop.Peers.{AllServed}
use compostela.Aggregator.Loop.Steps.{Reach}
use compostela.Aggregator.Loop.Invariant.{Reach-AllServed}
use compostela.Aggregator.Loop.Closing.{by_peer, handle_event-closes}
use compostela.Aggregator.Loop.Accepting.{
  new_peer, handle_event-accepts, handle_event-lost, IsWelcome,
}

abbrev caller : Caller
caller = record {
  socket = 7;
  address = 4096;
  struct_room = true;
  address_room = true;
  getnameinfo = λ numeric. some (104 ∷ []);
  enrolled = true;
  coming = [];
}

abbrev scratch : Scratch
scratch = record { self = 8192; stack = []; memory = [] }

abbrev idle : Daemon
idle = record { files = no_files; peers = [] }

abbrev listener : Listener
listener = record { fd = 3; answer = some caller }

abbrev quiet : Listener
quiet = record { fd = 3; answer = none }

abbrev called : Daemon
called = record { files = no_files; peers = new_peer true caller ∷ [] }

-- The code 9 is none that the daemon knows.
abbrev odd : List Event
odd = chunk 0 (9 ∷ 0 ∷ 0 ∷ 0 ∷ []) ∷ chunk 0 (0 ∷ 0 ∷ []) ∷ []

abbrev greeted : Daemon
greeted = record { files = no_files; peers = record (new_peer true caller) { pending = odd } ∷ [] }

abbrev refused : Daemon
refused = record {
  files = no_files;
  peers =
      record (new_peer true caller) { sends = (7 ∷ 207 ∷ 0 ∷ 0 ∷ 0 ∷ 0 ∷ 0 ∷ 0 ∷ []) ∷ [] } ∷ [];
}

welcome : IsWelcome caller
welcome = record { struct_room = refl; address_room = refl; enrolled = refl }

accepting : handle_event env true scratch 3 (listener ∷ []) idle ≡ some (some called)
accepting = handle_event-accepts env true scratch 3 [] caller [] idle (omega arith) tt welcome

refusing : handle_event env true scratch 4096 (quiet ∷ []) greeted ≡ some (some refused)
unfolding handle_event accept_loop find_peer do_receive with_header with_content recvall load_header
    dispatch handler_dummy after_turn update_peer image swap_header
refusing = refl

one_call : Reach env true no_files 2 refused
one_call =
    Reach.handles scratch 4096 (quiet ∷ [])
      (record { fresh_channel = (tt, tt); fresh_peers = (tt, tt); whole = omega arith }) refusing
      (Reach.arrives [] (new_peer true caller) [] odd refl (
        Reach.handles scratch 3 (listener ∷ [])
          (record { fresh_channel = tt; fresh_peers = (tt, tt); whole = omega arith }) accepting
          Reach.start))

Reach-AllServed_example : AllServed (2 * bufsize + 1024) refused.peers
Reach-AllServed_example =
    Reach-AllServed env zeroes true no_files 2 refused refl (omega arith) one_call

handle_event-accepts_example :
    handle_event env true scratch 3 (listener ∷ []) idle ≡ some (some called)
handle_event-accepts_example =
    handle_event-accepts env true scratch 3 [] caller [] idle (omega arith) tt welcome

handle_event-lost_example : handle_event env true scratch 3 (quiet ∷ []) called ≡ none
handle_event-lost_example =
    handle_event-lost env true scratch 3 (quiet ∷ []) called (tt, tt)
      ((λ e. absurd (omega (arith, e))), tt)

abbrev leaving : Daemon
leaving = record {
  files = no_files;
  peers = record (new_peer true caller) { pending = closed ∷ [] } ∷ [];
}

handle_event-closes_example :
    handle_event env true scratch 4096 (quiet ∷ []) leaving ≡ some (some idle)
handle_event-closes_example =
    handle_event-closes env true scratch (quiet ∷ []) leaving []
      (record (new_peer true caller) { pending = closed ∷ [] }) [] []
      ((λ e. absurd (omega (arith, e))), tt) refl tt refl by_peer
