-- ===== src/Aggregator/Tests.antt =====
-- The aggregator at work: a registry of two channels, lines in parts, and a configuration.
use compostela.Prelude.{false, str_eq, ◌++◌, List, ◌^◌, ◌≡◌, refl, [], ◌∷◌, some, none, arith, true}
use compostela.Prelude.Words.{pos}
use compostela.Prelude.Text.{codes, strtoul_int}
use compostela.AzBuffer.{AzBuffer}
use compostela.AzBuffer.Holds.{Holds}
use compostela.Supports.{Files, append_to}
use compostela.Yaml.{mapping_start, stream_end, other}
use compostela.Aggregator.Config.{initial, load_config_file}
use compostela.Aggregator.Config.Settings.{Setting, mapping_events}
use compostela.Aggregator.Config.Loading.{load_config_file-entries}
use compostela.Aggregator.Channels.{register_channel, connection_channel}
use compostela.Aggregator.Channels.Registry.{
  IsRegistry, register_channel-IsRegistry, connection_channel-found, connection_channel-missing,
}
use compostela.Aggregator.Files.{mk_path, stamp}
use compostela.Aggregator.Handlers.{Server, take_line, keep_part, wants_merge, wants_separate}
use compostela.Aggregator.Handlers.Data.{take_line-both}
use compostela.Aggregator.Handlers.Reassembly.{feed, Conserves, feed-Conserves}
use compostela.AzBuffer.{fetch_bytes, unused_bytes, resize}
use compostela.Prelude.Memory.{read_at, write_at}
use compostela.Message.{Header, store32, store64, store16, htonl, htons, bswap_64}
use compostela.Transport.{Event, chunk}
use compostela.Transport.Receive.{stream}
use compostela.Follower.Connection.Framing.{frame}
use compostela.Aggregator.Receive.{do_receive, served}
use compostela.Aggregator.Receive.Line.{line_message, do_receive-line}
use compostela.Aggregator.Handlers.Replies.{answered}
use compostela.Prelude.Text.{c_str}
use compostela.Message.{scm_resp_ok}
use compostela.Supports.{pathcat}
use compostela.Aggregator.Files.{find_aggregate_context}
use compostela.Aggregator.Handlers.{handler_init, connection_send, reply}
use compostela.Aggregator.Handlers.Opening.{
  init_content, fresh_channel, asked_digest, handler_init_lem,
}
use compostela.Aggregator.Sample.{
  rotating, merged, waiting-Holds, channel_at, young, old, conn, conn-IsRegistry, zeroes, env,
  no_files, apart,
}

load_config_file-entries_example :
    load_config_file
      (some (
        other
        ∷ other
        ∷ mapping_start
        ∷ mapping_events
            (Setting.port (codes "8") ∷ Setting.logdir (47 ∷ 108 ∷ []) ∷ [])
            (rotating ∷ merged ∷ [])
            (Setting.hostname_lookups (codes "true") ∷ Setting.port (codes "9") ∷ [])
            (other ∷ stream_end ∷ [])))
      initial
    ≡ some (
      record {
        server_logdir = some (47 ∷ 108 ∷ []);
        server_addr = none;
        server_port = 9;
        hostname_lookups = true;
        contexts =
            record {
              path = some (97 ∷ []);
              display_name = some (98 ∷ []);
              f_rotate = true;
              f_timestamp = false;
              f_separate = true;
              f_merge = true;
            }
            ∷ record {
              path = some (99 ∷ []);
              display_name = some (98 ∷ []);
              f_rotate = false;
              f_timestamp = true;
              f_separate = false;
              f_merge = true;
            }
            ∷ [];
      },
      true,
    )
unfolding strtoul_int str_eq
load_config_file-entries_example =
    load_config_file-entries (Setting.port (codes "8") ∷ Setting.logdir (47 ∷ 108 ∷ []) ∷ [])
      (rotating ∷ merged ∷ [])
      (Setting.hostname_lookups (codes "true") ∷ Setting.port (codes "9") ∷ []) initial refl

register_channel-IsRegistry_example :
    (register_channel conn (channel_at 700 0 none) ≡ (
      pos 0,
      record conn { channel_list = channel_at 700 3 none ∷ young ∷ old ∷ [] },
      channel_at 700 3 none,
    ))
    × IsRegistry (channel_at 700 3 none ∷ young ∷ old ∷ [])
register_channel-IsRegistry_example =
    register_channel-IsRegistry conn (channel_at 700 0 none) conn-IsRegistry
      ((λ e. absurd (omega (arith, e))), ((λ e. absurd (omega (arith, e))), tt)) (omega arith)

connection_channel-found_example : connection_channel conn 1 ≡ some old
connection_channel-found_example =
    connection_channel-found conn (young ∷ []) old [] refl conn-IsRegistry (omega arith)

connection_channel-missing_example : connection_channel conn 9 ≡ some old
connection_channel-missing_example =
    connection_channel-missing conn (young ∷ []) old 9 refl
      ((λ e. absurd (omega (arith, e))), ((λ e. absurd (omega (arith, e))), tt)) (omega arith)

take_line-both_example :
    (b' : AzBuffer) × (take_line env conn young (2 ^ 31) 0 (1 ∷ []) no_files
      ≡ some (
        append_to
            (append_to no_files (mk_path (108 ∷ []) (102 ∷ [])) (104 ∷ 58 ∷ 32 ∷ 104 ∷ 1 ∷ []))
            (47 ∷ 102 ∷ [])
            (1 ∷ []),
        b',
      ))
    × Holds b' []
unfolding wants_merge wants_separate stamp
take_line-both_example =
    take_line-both env conn young (2 ^ 31) 0 (1 ∷ []) no_files (108 ∷ []) (104 ∷ []) [] (104 ∷ [])
      refl refl refl refl refl refl refl refl waiting-Holds

feed-Conserves_example :
    (r : Files × AzBuffer) × (feed env conn apart 0
        ((0, 1 ∷ []) ∷ (2 ^ 31, 2 ∷ []) ∷ (0, 3 ∷ []) ∷ [])
        no_files
      ≡ some r)
    × Conserves (47 ∷ 102 ∷ []) no_files (104 ∷ []) (1 ∷ 2 ∷ 3 ∷ []) r
unfolding wants_merge wants_separate stamp
feed-Conserves_example =
    feed-Conserves env zeroes conn apart 0 ((0, 1 ∷ []) ∷ (2 ^ 31, 2 ∷ []) ∷ (0, 3 ∷ []) ∷ [])
      no_files (104 ∷ []) refl refl refl refl waiting-Holds (omega arith)

abbrev two_channels : Server
two_channels = record { files = no_files; conn = conn; sends = [] }

abbrev filled : AzBuffer
filled = record { buffer = 104 ∷ 1 ∷ 0 ∷ 0 ∷ []; cursor = 0; size = 4; used = 2 }

takes_part : take_line env conn young 0 5 (1 ∷ []) no_files ≡ some (no_files, filled)
unfolding take_line keep_part fetch_bytes unused_bytes resize read_at write_at
takes_part = refl

abbrev part_header : Header
part_header = record { code = 103; channel = 2; content_length = 13 }

arrives :
    stream (
      chunk 0 (103 ∷ 0 ∷ 2 ∷ 0 ∷ [])
      ∷ chunk 0 (0 ∷ 13 ∷ 0 ∷ 0 ∷ 0 ∷ 0 ∷ [])
      ∷ chunk 0 (0 ∷ 0 ∷ 0 ∷ 0 ∷ 0 ∷ 0 ∷ 5 ∷ 1 ∷ 9 ∷ [])
      ∷ [])
    ≡ frame (line_message 2 0 5 (1 ∷ [])) ++ (9 ∷ [])
unfolding store32 store64 store16 htonl htons bswap_64
arrives = refl

do_receive-line_example :
    (more : List Event) × (do_receive env 900 [] [] two_channels (
        chunk 0 (103 ∷ 0 ∷ 2 ∷ 0 ∷ [])
        ∷ chunk 0 (0 ∷ 13 ∷ 0 ∷ 0 ∷ 0 ∷ 0 ∷ [])
        ∷ chunk 0 (0 ∷ 0 ∷ 0 ∷ 0 ∷ 0 ∷ 0 ∷ 5 ∷ 1 ∷ 9 ∷ [])
        ∷ [])
      ≡ some (some (served (answered part_header young two_channels no_files filled) more)))
    × (stream more ≡ 9 ∷ [])
do_receive-line_example =
    do_receive-line env 900 [] [] two_channels [] young (old ∷ []) 0 5 (1 ∷ []) (9 ∷ [])
      (chunk 0 (103 ∷ 0 ∷ 2 ∷ 0 ∷ [])
        ∷ chunk 0 (0 ∷ 13 ∷ 0 ∷ 0 ∷ 0 ∷ 0 ∷ [])
        ∷ chunk 0 (0 ∷ 0 ∷ 0 ∷ 0 ∷ 0 ∷ 0 ∷ 5 ∷ 1 ∷ 9 ∷ [])
        ∷ [])
      refl conn-IsRegistry (omega arith) (omega arith) (omega arith) (omega arith) (omega arith)
      arrives takes_part

path_of : pathcat (108 ∷ []) (some (104 ∷ []) ∷ some (102 ∷ []) ∷ []) ≡ some (codes "l/h/f")
unfolding pathcat
path_of = refl

abbrev init_header : Header
init_header = record { code = 101; channel = 0; content_length = 5 }

handler_init_lem_example :
    (b : AzBuffer) × Holds b []
    × (handler_init env 700 init_header (init_content 0 (102 ∷ []) ++ (9 ∷ [])) two_channels
        ≡ some (
            connection_send
              (record two_channels {
                conn = record conn {
                  channel_list =
                      fresh_channel 700 3 (102 ∷ []) (codes "l/h/f") b none ∷ young ∷ old ∷ [];
                };
              })
              (reply scm_resp_ok 3
                (store64 (bswap_64 0) ++ asked_digest env (no_files (codes "l/h/f")) 0))))
    × IsRegistry (fresh_channel 700 3 (102 ∷ []) (codes "l/h/f") b none ∷ young ∷ old ∷ [])
unfolding c_str find_aggregate_context
handler_init_lem_example =
    handler_init_lem env zeroes 700 init_header 0 (102 ∷ []) (9 ∷ []) (108 ∷ []) (codes "l/h/f")
      none two_channels refl refl (omega arith) refl refl path_of refl conn-IsRegistry
      ((λ e. absurd (omega (arith, e))), ((λ e. absurd (omega (arith, e))), tt)) (omega arith)
