-- ===== src/EndToEnd/Samples.antt =====
-- Two lines on their way, on concrete state.
use compostela.Prelude.{◌≡◌, refl, List, [], ◌∷◌, ◌++◌, some, arith}
use compostela.AzBuffer.{AzBuffer}
use compostela.AzBuffer.Holds.{Holds}
use compostela.Transport.{Event, chunk}
use compostela.Transport.Receive.{stream}
use compostela.Message.{store32, store64, store16, htonl, htons, bswap_64}
use compostela.Follower.Connection.{is_live}
use compostela.Follower.Context.{FollowContext, Net}
use compostela.Follower.Run.Draining.{Job, drain, messages, Drained, IsJob}
use compostela.Follower.Run.Line.{IsReady}
use compostela.Follower.Run.Sample
use compostela.Follower.Run.Sample.{cxt, cxt-IsReady, net, sends, ok, net-Carries}
use compostela.Aggregator.Channels.{Channel}
use compostela.Aggregator.Handlers.{Server, wants_merge, wants_separate}
use compostela.Aggregator.Receive.Stream.{turns, IsKept}
use compostela.Aggregator.Sample.{env, conn, no_files, apart, zeroes, waiting-Holds}
use compostela.EndToEnd.Streams.{Written, stream_delivered}

abbrev own : Channel
own = record apart { id = 1 }

abbrev server : Server
server = record { files = no_files; conn = record conn { channel_list = own ∷ [] }; sends = [] }

-- `a`, newline, `b`, newline, `c`.
abbrev two_lines : AzBuffer
two_lines = record { buffer = 97 ∷ 10 ∷ 98 ∷ 10 ∷ 99 ∷ []; cursor = 0; size = 5; used = 5 }

two_lines-Holds : Holds two_lines (97 ∷ 10 ∷ 98 ∷ 10 ∷ 99 ∷ [])
two_lines-Holds = record {
  before = [];
  after = [];
  layout = refl;
  start = refl;
  stop = refl;
  room = refl;
  small = omega arith;
}

abbrev source : FollowContext
source = record cxt { buffer = two_lines }

source-IsReady : IsReady source
source-IsReady = record {
  no_message = refl;
  opened = refl;
  numbered = omega arith;
  channel_in = omega arith;
  room = cxt-IsReady.room;
}

abbrev first : Job
first = record { time = 1700000000; text = 97 ∷ []; reply = ok }

abbrev second : Job
second = record { time = 1700000001; text = 98 ∷ []; reply = ok }

first-IsJob : IsJob first
first-IsJob = record {
  one_line = ((λ e. absurd (omega (arith, e))), tt);
  fits = omega arith;
  valid = net-Carries.valid;
  ok = refl;
}

second-IsJob : IsJob second
second-IsJob = record {
  one_line = ((λ e. absurd (omega (arith, e))), tt);
  fits = omega arith;
  valid = net-Carries.valid;
  ok = refl;
}

-- Two answers, in one piece.
abbrev two_answers : Net
two_answers = record net {
  answers = sends ++ sends;
  events =
      chunk 3 (
        233 ∷ 0 ∷ 1 ∷ 0 ∷ 0 ∷ 0 ∷ 4 ∷ 0 ∷ 0 ∷ 0 ∷ 0 ∷ 3 ∷ 233 ∷ 0 ∷ 1 ∷ 0 ∷ 0 ∷ 0 ∷ 4 ∷ 0 ∷ 0 ∷ 0
        ∷ 0 ∷ [])
      ∷ [];
}

-- Two messages, cut in the middle of the second header, with a byte behind.
abbrev pieces : List Event
pieces =
    chunk 0 (
      103 ∷ 0 ∷ 1 ∷ 0 ∷ 0 ∷ 0 ∷ 14 ∷ 128 ∷ 0 ∷ 0 ∷ 0 ∷ 0 ∷ 0 ∷ 0 ∷ 0 ∷ 101 ∷ 83 ∷ 241 ∷ 0 ∷ 97 ∷ 10
      ∷ 0 ∷ 103 ∷ [])
    ∷ chunk 0 (
        1 ∷ 0 ∷ 0 ∷ 0 ∷ 14 ∷ 128 ∷ 0 ∷ 0 ∷ 0 ∷ 0 ∷ 0 ∷ 0 ∷ 0 ∷ 101 ∷ 83 ∷ 241 ∷ 1 ∷ 98 ∷ 10 ∷ 7
        ∷ [])
    ∷ []

arrives : stream pieces ≡ messages 1 (first ∷ second ∷ []) ++ (7 ∷ [])
unfolding store32 store64 store16 htonl htons bswap_64
arrives = refl

own-IsKept : IsKept env server [] own [] (104 ∷ [])
unfolding wants_merge wants_separate
own-IsKept = record {
  here = refl;
  registry = record { ordered = (omega arith, omega arith, tt); apart = (tt, tt) };
  numbered = omega arith;
  small = omega arith;
  apart = refl;
  separate = refl;
  opens = refl;
  holds = waiting-Holds;
}

stream_delivered_example :
    ((r : FollowContext × Net) × (drain Sample.env (first ∷ second ∷ []) source two_answers
        ≡ some r)
      × Drained source two_answers (first ∷ second ∷ []) (99 ∷ []) [] r)
    × ((t : Server × List Event) × (turns env 900 [] [] 2 server pieces ≡ some t)
        × Written server own (104 ∷ []) (first ∷ second ∷ []) t.0
        × (stream t.1 ≡ 7 ∷ []))
unfolding is_live
stream_delivered_example =
    stream_delivered Sample.env zeroes source two_answers first (second ∷ []) (99 ∷ []) [] env 900
      [] [] server [] own [] (104 ∷ []) (7 ∷ []) pieces refl refl source-IsReady
      (first-IsJob, (second-IsJob, tt)) (omega arith, (omega arith, tt)) two_lines-Holds tt
      (omega arith) refl own-IsKept refl arrives
