-- ===== src/EndToEnd/Tests.antt =====
-- A line on its way from a follower to the file of an aggregator, on concrete state.
use compostela.Prelude.{◌^◌, ◌≡◌, refl, List, [], ◌∷◌, ◌++◌, some, arith, true}
use compostela.AzBuffer.{AzBuffer}
use compostela.AzBuffer.Holds.{Holds}
use compostela.Supports.{append_to}
use compostela.Transport.{Event, chunk}
use compostela.Transport.Receive.{stream}
use compostela.Message.{store32, store64, store16, htonl, htons, bswap_64}
use compostela.Message.Bytes.{header_of}
use compostela.Follower.Connection.{is_live}
use compostela.Follower.Connection.Framing.{frame}
use compostela.Follower.Run.{Ran, run_follow_context}
use compostela.Follower.Run.Delivery.{carrier}
use compostela.Follower.Run.Sample
use compostela.Follower.Run.Sample.{cxt, cxt-IsReady, loaded-Holds, net, net-Carries, ok}
use compostela.Aggregator.Channels.{Channel}
use compostela.Aggregator.Channels.Registry.{IsRegistry}
use compostela.Aggregator.Handlers.{Server, wants_merge, wants_separate}
use compostela.Aggregator.Handlers.Replies.{answered}
use compostela.Aggregator.Receive.{do_receive, served}
use compostela.Aggregator.Receive.Line.{line_message}
use compostela.Aggregator.Sample.{env, conn, no_files, apart, zeroes, waiting-Holds}
use compostela.Prelude.{none}
use compostela.Prelude.Words.{pos}
use compostela.Prelude.Text.{codes, c_str}
use compostela.Supports.{pathcat, mhash_with_size}
use compostela.Follower.Context
use compostela.Follower.Context.{Net}
use compostela.Follower.Run.{init_file}
use compostela.Follower.Run.Exchange.{Carries}
use compostela.Follower.Run.Init.{init_reply, init_message}
use compostela.Aggregator.Files.{find_aggregate_context}
use compostela.Aggregator.Handlers.{handler_init, connection_send, digest}
use compostela.Aggregator.Handlers.Opening.{init_content, fresh_channel}
use compostela.EndToEnd.Handshake.{resumes}
use compostela.EndToEnd.{line_delivered}

abbrev own : Channel
own = record apart { id = 1 }

own-IsRegistry : IsRegistry (own ∷ [])
own-IsRegistry = record { ordered = (omega arith, omega arith, tt); apart = (tt, tt) }

abbrev server : Server
server = record { files = no_files; conn = record conn { channel_list = own ∷ [] }; sends = [] }

-- The message of the line, in two pieces, with the first byte of the next.
abbrev pieces : List Event
pieces =
    chunk 0 (103 ∷ 0 ∷ 1 ∷ 0 ∷ 0 ∷ 0 ∷ 14 ∷ 128 ∷ 0 ∷ [])
    ∷ chunk 0 (0 ∷ 0 ∷ 0 ∷ 0 ∷ 0 ∷ 101 ∷ 83 ∷ 241 ∷ 0 ∷ 97 ∷ 10 ∷ 0 ∷ [])
    ∷ []

arrives : stream pieces ≡ frame (carrier true 1 1700000000 (97 ∷ 10 ∷ [])) ++ (0 ∷ [])
unfolding store32 store64 store16 htonl htons bswap_64
arrives = refl

line_delivered_example :
    (r : Ran) × (run_follow_context Sample.env cxt net ≡ some r)
    × (r.net.wire ≡ frame (carrier true 1 1700000000 (97 ∷ 10 ∷ [])))
    × Holds r.cxt.buffer (98 ∷ [])
    × ((buffer : AzBuffer) × (events' : List Event) × (do_receive env 900 [] [] server pieces
          ≡ some (
              some (
                served
                  (answered
                    (header_of (line_message 1 (2 ^ 31) 1700000000 (97 ∷ 10 ∷ [])))
                    own
                    server
                    (append_to no_files (47 ∷ 102 ∷ []) (104 ∷ 97 ∷ 10 ∷ []))
                    buffer)
                  events')))
        × Holds buffer []
        × (stream events' ≡ 0 ∷ []))
unfolding is_live wants_merge wants_separate
line_delivered_example =
    line_delivered Sample.env zeroes cxt net (97 ∷ []) (98 ∷ []) ok [] env 900 [] [] server [] own
      [] (104 ∷ []) (0 ∷ []) pieces refl refl cxt-IsReady loaded-Holds
      ((λ e. absurd (omega (arith, e))), tt) (omega arith) (omega arith) net-Carries refl refl
      own-IsRegistry refl (omega arith) refl refl refl waiting-Holds arrives

-- A file of two bytes, one of which the aggregator has.
abbrev reader : Context.Env
reader = record Sample.env { files = λ path. some (5 ∷ 6 ∷ []) }

abbrev half_there : Server
half_there = record server { files = λ path. some (5 ∷ []) }

abbrev opening : Net
opening = record net {
  events =
      chunk 3 (233 ∷ 0 ∷ 2 ∷ []) ∷ chunk 0 (0 ∷ 0 ∷ 8 ∷ 0 ∷ 0 ∷ 0 ∷ 0 ∷ 0 ∷ 0 ∷ 0 ∷ 1 ∷ []) ∷ [];
}

opening-Carries :
    Carries opening 5 (init_reply 2 1 (digest env half_there.files (codes "l/h/f") (2 ^ 31))) []
unfolding store64 store32 store16 htonl htons bswap_64 digest mhash_with_size
opening-Carries = record {
  takes = tt;
  enough = omega arith;
  valid = record {
    code_in = omega arith;
    channel_in = omega arith;
    length_in = omega arith;
    room = omega arith;
  };
  answered = refl;
}

path_of : pathcat (108 ∷ []) (some (104 ∷ []) ∷ some (102 ∷ []) ∷ []) ≡ some (codes "l/h/f")
unfolding pathcat
path_of = refl

resumes_example :
    ((b : AzBuffer) × (handler_init env 901
          (record { code = 101; channel = 0; content_length = 5 })
          (init_content (2 ^ 31) (102 ∷ []) ++ [])
          half_there
        ≡ some (
            connection_send
              (record half_there {
                conn = record conn {
                  channel_list = fresh_channel 901 2 (102 ∷ []) (codes "l/h/f") b none ∷ own ∷ [];
                };
              })
              (init_reply 2 1 (digest env half_there.files (codes "l/h/f") (2 ^ 31))))))
    × ((net' : Net) × (init_file reader cxt opening
          ≡ some (pos 0, record cxt { channel = 2; position = 1; offset = 1 }, net'))
        × (net'.wire ≡ frame (init_message (2 ^ 31) (102 ∷ []))))
unfolding c_str find_aggregate_context
resumes_example =
    resumes env zeroes 901 (record { code = 101; channel = 0; content_length = 5 }) (102 ∷ []) []
      (108 ∷ []) (codes "l/h/f") none half_there reader zeroes cxt opening (102 ∷ []) (5 ∷ [])
      (6 ∷ []) [] refl refl (omega arith) refl path_of refl own-IsRegistry
      ((λ e. absurd (omega (arith, e))), tt) (omega arith) refl (omega arith) refl refl refl refl
      refl refl (omega arith) opening-Carries
