-- ===== src/Follower/Run.antt =====
-- follower/main.c: `_init_file`, `_sc_follow_context_read_line`, `_sc_follow_context_proc_data` and
-- `_run_follow_context`, which take a context one step further. A result of `none` is a fault, a
-- receive that still waits, or the `exit` of `_init_file`.
pub mod Exchange
pub mod Delivery
pub mod Line
pub mod Draining
pub mod Refusal
pub mod Init
pub mod Sample
mod Tests
use compostela.Prelude.{
  ℕ, ◌+◌, ◌-◌, ◌^◌, List, [], ◌++◌, Option, none, some, ◌>>=◌, ◌>>◌, guard, Bool, not, ◌&&◌, ◌==◌,
  ltb, if◌then◌else◌, drop, length, str_eq,
}
use compostela.Prelude.Words.{ℤ, pos, negsuc, is_pos}
use compostela.Prelude.Memory.{write_at}
use compostela.AzBuffer.{AzBuffer, Read, unread_bytes, unused_bytes, fetch_file, read_line}
use compostela.AzBuffer
use compostela.Message.{
  Message, scm_msg_none, scm_msg_init, scm_msg_data, scm_resp_ok, htonl, bswap_64, store32, store64,
  load64,
}
use compostela.Message
use compostela.Supports.{mhash_with_size}
use compostela.Follower.Connection.{is_live}
use compostela.Follower.Context.{
  FollowContext, Net, Env, exchange, is_zero, open_file, err_must_reconnect, bufsize, text_offset,
}

-- The check of the aggregator's digest against the file. A file that cannot be opened has none, and
-- passes; a digest that differs ends the process.
unfoldable pub check_digest : Env → Option (List ℕ) → ℕ → List ℕ → Option (Unit {0})
check_digest env filename position digest =
    elim (filename >>= λ path.
    mhash_with_size env.md5 env.files path (if ltb position (2 ^ 63) then position else 0)) [
      | none ↦ some tt
      | some mhash ↦ guard (str_eq digest mhash)
    ]

-- `lseek(fd, position, SEEK_SET)`: the offset stays where it fails, as for a negative position.
unfoldable pub sought : Env → ℕ → ℕ → ℕ
sought env position offset =
    if ltb position (2 ^ 63) && env.seeks position then position else offset

-- What `_init_file` does with the reply: the channel and the position of the context, which need not
-- be where the descriptor is.
unfoldable pub accept_init : Env → FollowContext → Message → Option FollowContext
accept_init env cxt resp = do
  wire_pos ← load64 resp.content
  let position = bswap_64 wire_pos
  if ltb 8 resp.content_length
      then check_digest env cxt.filename position (drop 8 resp.content)
      else some tt
  some (record cxt {
    channel = resp.channel;
    position = position;
    offset = sought env position cxt.offset;
  })

-- `_init_file`: -1, -3 or -4 leave the context as it was.
unfoldable pub init_file : Env → FollowContext → Net → Option (ℤ × FollowContext × Net)
unfolding accept_init check_digest sought is_zero
init_file env cxt net = do
  name ← cxt.display_name
  elim (Message.new env.heap (length name + 4)) [
    | none ↦ some (negsuc 0, cxt, net)
    | some msg ↦ do
      x ← exchange env net (record msg {
        code = scm_msg_init;
        channel = 0;
        content = store32 (htonl (if cxt.regular && not cxt.ftimestamp then 2 ^ 31 else 0)) ++ name;
      })
      if not (is_zero x.sent)
          then some (negsuc 0, cxt, x.net)
          else if not (is_zero x.got)
          then some (negsuc 2, cxt, x.net)
          else do
            resp ← x.resp
            if resp.code == scm_resp_ok
                then (accept_init env cxt resp >>= λ cxt'. some (pos 0, cxt', x.net))
                else some (negsuc 3, cxt, x.net)
  ]

-- A line as it was read, and the context after it.
pub record ReadLine : Type 0 where
  pub ret : ℤ
  pub dst : List ℕ
  pub used : ℕ
  pub cxt : FollowContext

-- The count that a `read` returned moves the offset.
pub advance : ℕ → ℤ → ℕ
advance offset (pos n) = offset + n
advance offset (negsuc n) = offset

unfoldable pub buffer_line : FollowContext → ℕ → Option ReadLine
buffer_line cxt dsize = read_line cxt.buffer dsize >>= λ r.
    some (record { ret = r.ret; dst = r.dst; used = r.dused; cxt = record cxt { buffer = r.rest } })

-- `_sc_follow_context_read_line`: more of the file is read only where nothing waits.
unfoldable pub follow_read_line : Env → FollowContext → ℕ → Option ReadLine
unfolding buffer_line advance
follow_read_line env cxt dsize =
    if unread_bytes cxt.buffer == 0
    then (let empty = AzBuffer.reset cxt.buffer in
        do
          got ← fetch_file empty (env.reads cxt.offset) (unused_bytes empty)
          let cxt' = record cxt { buffer = got.1; offset = advance cxt.offset got.0 }
          if is_pos got.0
              then buffer_line cxt' dsize
              else some (record { ret = got.0; dst = []; used = 0; cxt = cxt' }))
    else buffer_line cxt dsize

-- What `_run_follow_context` returns: the result, the response, and the state after it.
pub record Ran : Type 0 where
  pub ret : ℤ
  pub resp : Option Message
  pub cxt : FollowContext
  pub net : Net

abbrev pub stops : ℤ → FollowContext → Net → Ran
stops ret cxt net = record { ret = ret; resp = none; cxt = cxt; net = net }

-- The content of a `DATA` message, before its text: attributes and time.
abbrev pub data_head : Bool → ℕ → List ℕ
data_head done time = store32 (htonl (if done then 2 ^ 31 else 0)) ++ store64 (bswap_64 time)

-- The second half: the message is sent, and kept for the next run unless the aggregator took it.
unfoldable pub proc_message : Env → FollowContext → Net → Option Ran
proc_message env cxt net = do
  x ← exchange env net cxt.message_buffer
  let cxt' = record cxt { message_buffer = x.msg }
  if is_zero x.sent && is_zero x.got
      then (do
        resp ← x.resp
        some (record {
          ret = pos 0;
          resp = some resp;
          cxt =
              if resp.code == scm_resp_ok
              then record cxt' { message_buffer = record (x.msg) { code = scm_msg_none } }
              else cxt';
          net = x.net;
        }))
      else some (stops err_must_reconnect cxt' x.net)

-- The first half, for a line that was read: the message that it becomes. The bytes of the line were
-- read into the content of the message buffer.
unfoldable pub store_line : Env → ReadLine → Net → Option (FollowContext × Net)
store_line env line net = do
  let cxt = line.cxt
  body ← write_at (cxt.message_buffer).content text_offset line.dst
  content ← write_at body 0 (data_head (is_pos line.ret) env.time)
  let kept = record cxt { message_buffer = record (cxt.message_buffer) { content = content } }
  init ← (if cxt.channel == 0 then init_file env kept net else some (pos 0, kept, net))
  let ready = init.1
  some (
    record ready {
      message_buffer = record (ready.message_buffer) {
        code = scm_msg_data;
        channel = ready.channel;
        content_length = text_offset + line.used;
      };
    },
    init.2,
  )

-- What is done with a line, or with the lack of one.
unfoldable pub take_read : Env → ReadLine → Net → Option Ran
take_read env line net = elim line.ret [
  | negsuc n ↦ some (stops (if env.errno_again then pos 1 else negsuc 0) line.cxt net)
  | pos n ↦
      if n == 0 && line.used == 0
      then some (stops (pos 1) line.cxt net)
      else (store_line env line net >>= λ (cxt, net'). proc_message env cxt net')
]

-- A context that has no message to send reads its next line.
unfoldable pub next_line : Env → FollowContext → Net → Option Ran
next_line env cxt net =
    follow_read_line env cxt (bufsize - text_offset) >>= λ line. take_read env line net

unfoldable pub run_follow_context : Env → FollowContext → Net → Option Ran
unfolding next_line take_read store_line proc_message is_zero is_live
run_follow_context env cxt net =
    if not (is_live net.conn.socket)
    then some (stops err_must_reconnect cxt net)
    else if not ((cxt.message_buffer).code == scm_msg_none)
    then proc_message env cxt net
    else if is_pos cxt.fd
    then next_line env cxt net
    else (let opened = open_file env cxt in
        if is_zero opened.0
        then (init_file env opened.1 net >>= λ init. next_line env init.1 init.2)
        else some (stops (pos 1) opened.1 net))
