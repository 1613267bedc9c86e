-- ===== src/Follower/Loop/Tests.antt =====
-- The event loop of the follower at work: one file to follow, and an aggregator that is not there.
use compostela.Prelude.{◌≡◌, refl, List, [], ◌∷◌, some, none, true, false, arith}
use compostela.Prelude.Words.{negsuc}
use compostela.Prelude.Words.{pos}
use compostela.Prelude.Text.{codes}
use compostela.AzList
use compostela.AzBuffer.{AzBuffer, fill}
use compostela.AzBuffer
use compostela.AzBuffer.Holds.{Holds}
use compostela.Message
use compostela.Follower.Config.{Globals, initial}
use compostela.Follower.Connection.{is_live, open_conn, refused, connected}
use compostela.Follower.Connection
use compostela.Follower.Context.{FollowContext, Net, Env, reset, close_file}
use compostela.Follower.Context
use compostela.Follower.Run.Sample
use compostela.Follower.Run.Sample.{zeroes, cxt, cxt-IsReady, net, loaded}
use compostela.Follower.Run.Line.{IsReady}
use compostela.Follower.Rotate.{Clock, do_rotate, search, follow, file_name, left_name, shown_name}
use compostela.Follower.Loop.{Surroundings, Daemon, main_turn, main_start}
use compostela.Follower.Loop.Making.{AllSound}
use compostela.Follower.Loop.Invariant.{Reach, Reach-AllSound}
use compostela.Follower.Loop.Reconnecting.{
  main_turn-reopens, AllForgot, main_turn-reconnects, main_turn-read_error,
}

abbrev clock : Clock
clock = record { strftime = λ text. text; basename = λ path. (path, path) }

abbrev globals : Globals
globals = record initial {
  server_address = some (codes "host");
  patterns =
      record {
        path = some (codes "a");
        display_name = some (codes "b");
        rotate = false;
        append_timestamp = false;
      }
      ∷ [];
}

abbrev fresh : FollowContext
fresh = record {
  channel = 0;
  filename = some (codes "a");
  position = 0;
  regular = false;
  fd = negsuc 0;
  offset = 0;
  buffer = record { buffer = fill zeroes 8192; cursor = 0; size = 8192; used = 0 };
  message_buffer = record {
    code = 0;
    channel = 0;
    content_length = 8192;
    content = fill zeroes 8192;
  };
  display_name = some (codes "b");
  ftimestamp = false;
}

abbrev started : Daemon
started = record {
  contexts = fresh ∷ [];
  sends = [];
  net = record {
    conn = record { socket = negsuc 0; host = codes "host"; port = 0 };
    answers = [];
    events = [];
    wire = [];
  };
}

starts : main_start Sample.env clock globals (some (refused ∷ [])) [] [] ≡ some (some started)
unfolding main_start do_rotate file_name left_name shown_name search follow open_conn Connection.new
    Context.new AzBuffer.new AzList.add Message.new
starts = refl

abbrev lonely : Surroundings
lonely = record {
  heap = some zeroes;
  socks = 5 ∷ [];
  events = [];
  env_of = λ c. Sample.env;
  addresses = some (refused ∷ []);
}

lonely_turn : main_turn lonely started ≡ some (true, started)
unfolding is_live reset close_file AzBuffer.reset open_conn
lonely_turn = main_turn-reopens lonely fresh [] started refl refl refl

abbrev answered : Surroundings
answered = record lonely { addresses = some (refused ∷ (connected 9 ∷ [])) }

main_turn-reconnects_example :
    (contexts : List FollowContext) × (main_turn answered started
      ≡ some (
        true,
        record {
          contexts = contexts;
          sends = [];
          net = record (started.net) { conn = record (started.net.conn) { socket = pos 9 } };
        },
      ))
    × AllForgot (fresh ∷ []) contexts
unfolding is_live
main_turn-reconnects_example =
    main_turn-reconnects answered fresh [] started (refused ∷ []) 9 [] refl refl refl refl tt

Reach-AllSound_example : AllSound started.contexts
Reach-AllSound_example = Reach-AllSound zeroes started (
    Reach.turn lonely refl lonely_turn
      (Reach.start Sample.env clock globals (some (refused ∷ [])) [] [] refl starts))

-- A context with nothing left to read.
abbrev drained : AzBuffer
drained = record { buffer = 97 ∷ []; cursor = 1; size = 1; used = 1 }

drained-Holds : Holds drained []
drained-Holds = record {
  before = 97 ∷ [];
  after = [];
  layout = refl;
  start = refl;
  stop = refl;
  room = refl;
  small = omega arith;
}

drained-IsReady : IsReady (record cxt { buffer = drained })
drained-IsReady = record {
  no_message = refl;
  opened = refl;
  numbered = omega arith;
  channel_in = omega arith;
  room = cxt-IsReady.room;
}

abbrev broken : Surroundings
broken = record lonely { env_of = λ c. record Sample.env { errno_again = false } }

abbrev following : Daemon
following = record {
  contexts = record cxt { buffer = drained } ∷ fresh ∷ [];
  sends = [];
  net = net;
}

main_turn-read_error_example : main_turn broken following ≡ none
unfolding is_live
main_turn-read_error_example =
    main_turn-read_error broken (record cxt { buffer = drained }) (fresh ∷ []) following refl refl
      refl drained-IsReady drained-Holds (λ count. refl) refl
