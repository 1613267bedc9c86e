-- ===== src/Aggregator/Handlers.antt =====
-- The message handlers of aggregator/main.c. A call of `sendall` is recorded with the bytes that it is given: the handlers do not look at what it returns.
pub mod Data
pub mod Reassembly
pub mod Replies
pub mod Opening
use compostela.Prelude.{
  ℕ, zero, suc, ◌+◌, ◌-◌, ◌%◌, ◌^◌, List, [], ◌∷◌, ◌++◌, Option, none, some, ◌>>=◌, ◌>>◌, guard,
  Bool, true, false, ◌==◌, leb, ltb, if◌then◌else◌, take, drop, length,
}
use compostela.Prelude.Words.{ℤ, pos, negsuc, is_pos, add64, sub64}
use compostela.Prelude.Memory.{read_at}
use compostela.Prelude.Text.{c_str}
use compostela.AzBuffer.{AzBuffer, unused_bytes, resize, fetch_bytes}
use compostela.Transport.{Event, Receiving, recvall}
use compostela.Message.{
  Message, Header, header_size, scm_msg_init, scm_msg_seek, scm_msg_data, scm_msg_rele, scm_resp_ok,
  scm_resp_ng, htonl, bswap_64, store64, load32, load64, load_header, image, swap_header,
}
use compostela.Supports.{Files, mhash_with_size, contents_of}
use compostela.Aggregator.Config.{AggregateContext}
use compostela.Aggregator.Channels.{
  Channel, Connection, channel_new, register_channel, connection_channel, delete_channel,
  set_buffer, set_context,
}
use compostela.Aggregator.Files.{
  Env, do_merge_file, do_append_file, do_trunc_file, find_aggregate_context,
}

-- What a handler changes.
pub record Server : Type 0 where
  pub files : Files
  pub conn : Connection
  pub sends : List (List ℕ)

-- A reply with its content; the length is the size that the reply was made with.
abbrev pub reply : ℕ → ℕ → List ℕ → Message
reply code channel content = record {
  code = code;
  channel = channel;
  content_length = length content;
  content = content;
}

-- `_sc_connection_send`.
unfoldable pub connection_send : Server → Message → Server
connection_send s msg = record s { sends = image (swap_header msg) ∷ s.sends }

abbrev pub zeros : List ℕ
zeros = 0 ∷ 0 ∷ 0 ∷ 0 ∷ []

unfoldable pub handler_dummy : Server → Server
unfolding connection_send
handler_dummy s = connection_send s (reply scm_resp_ng 0 [])

-- `attr & 0x80000000`.
abbrev pub top_bit : ℕ → Bool
top_bit attr = leb (2 ^ 31) attr

-- The digest of the file, where the follower asks for it.
unfoldable pub digest : Env → Files → List ℕ → ℕ → List ℕ
digest env files path attr =
    if top_bit attr
    then contents_of (mhash_with_size env.md5 files path (length (contents_of (files path))))
    else []

-- `INIT`: `self` is the address of the new channel. The reply tells its id (as an `int16_t`) and
-- how long the file is.
unfoldable pub handler_init : Env → ℕ → Header → List ℕ → Server → Option Server
unfolding digest connection_send
handler_init env self h content s = do
  guard (leb 4 h.content_length)
  attr ← load32 content
  name ← read_at content 4 (h.content_length - 4)
  made ← channel_new env.heap self env.logdir s.conn (c_str name)
  let registered = register_channel s.conn made
  let channel = registered.2
  aggr ← find_aggregate_context env env.contexts channel.filename_fullpath
  let conn = record (registered.1) {
    channel_list = set_context (registered.1).channel_list self aggr;
  }
  let position = length (contents_of (s.files channel.filename_fullpath))
  some (
      connection_send (record s { conn = conn })
        (reply scm_resp_ok (channel.id % 2 ^ 16) (
          store64 (bswap_64 position)
          ++ digest env s.files channel.filename_fullpath (htonl attr))))

-- A part of a line is kept in the channel's buffer, which grows to hold it.
unfoldable pub keep_part : Env → AzBuffer → List ℕ → Option AzBuffer
keep_part env buffer text =
    let len = length text in
    let grown =
      (if ltb (unused_bytes buffer) len
        then (resize env.heap buffer (add64 len buffer.size)).1
        else buffer) in
    do guard (leb len (unused_bytes grown)); stored ← fetch_bytes grown text len; some (stored.1)

-- `!aggr || aggr->f_merge` and `!aggr || aggr->f_separate`.
unfoldable pub wants_merge : Option AggregateContext → Bool
wants_merge none = true
wants_merge (some aggr) = aggr.f_merge

unfoldable pub wants_separate : Option AggregateContext → Bool
wants_separate none = true
wants_separate (some aggr) = aggr.f_separate

-- The two writes of a completed line, one after the other.
unfoldable pub merge_step :
    Env → Connection → Channel → ℕ → List ℕ → Files × AzBuffer → Option (Files × AzBuffer)
merge_step env conn channel ts text (files, buffer) =
    if wants_merge channel.aggregate_context
    then (do_merge_file env files conn.remote_addr channel.filename ts buffer text
          channel.aggregate_context
        >>= λ r. some (r.1, r.2))
    else some (files, buffer)

unfoldable pub separate_step : Env → Channel → List ℕ → Files × AzBuffer → Option (Files × AzBuffer)
separate_step env channel text (files, buffer) =
    if wants_separate channel.aggregate_context
    then (do_append_file env files channel.filename_fullpath buffer text >>= λ r. some (r.1, r.2))
    else some (files, buffer)

-- What a line, or a part of one, does to the files and to the channel's buffer.
unfoldable pub take_line :
    Env → Connection → Channel → ℕ → ℕ → List ℕ → Files → Option (Files × AzBuffer)
take_line env conn channel attr ts text files =
    if top_bit attr
    then (merge_step env conn channel ts text (files, channel.buffer)
        >>= separate_step env channel text)
    else (keep_part env channel.buffer text >>= λ buffer. some (files, buffer))

-- `DATA`: attributes (4 bytes), time (8 bytes), text.
unfoldable pub handler_data : Env → Header → List ℕ → Channel → Server → Option Server
unfolding connection_send
handler_data env h content channel s = do
  attr ← load32 content
  time ← load64 (drop 4 content)
  text ← read_at content 12 (sub64 h.content_length 12)
  line ← take_line env s.conn channel (htonl attr) (bswap_64 time) text s.files
  some (
      connection_send
        (record s {
          files = line.0;
          conn = record (s.conn) {
            channel_list = set_buffer (s.conn).channel_list channel.self line.1;
          };
        })
        (reply scm_resp_ok h.channel zeros))

unfoldable pub handler_rele : Header → Channel → Server → Option Server
unfolding connection_send
handler_rele h channel s = delete_channel s.conn channel.self >>= λ conn.
    some (connection_send (record s { conn = conn }) (reply scm_resp_ok h.channel zeros))

-- `SEEK`: the reply is sent as it stands in memory, not in network order.
unfoldable pub handler_seek : Header → List ℕ → Channel → Server → Option Server
handler_seek h content channel s = do
  offset ← load64 content
  some (record s {
    files = (do_trunc_file s.files channel.filename_fullpath (bswap_64 offset)).1;
    sends = image (reply scm_resp_ok h.channel zeros) ∷ s.sends;
  })
