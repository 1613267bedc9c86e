-- ===== src/Follower/Context.antt =====
-- follower/follow_context.c: the state of a file that is followed. A result of `none` is a fault, or
-- a receive that still waits.
use compostela.Prelude.{
  ℕ, zero, suc, List, [], ◌∷◌, ◌++◌, Option, none, some, ◌>>=◌, Bool, true, false, not, ◌&&◌,
  if◌then◌else◌,
}
use compostela.Prelude.Words.{ℤ, pos, negsuc, is_neg}
use compostela.AzBuffer.{AzBuffer, Heap, Read, unread_bytes, unused_bytes, fetch_file, read_line}
use compostela.AzBuffer
use compostela.Transport.{Sent, Event}
use compostela.Message.{
  Message, scm_msg_none, scm_msg_init, scm_msg_data, scm_msg_rele, scm_resp_ok, htonl, bswap_64,
  store32, store64, load64,
}
use compostela.Message
use compostela.Supports.{Files}
use compostela.Follower.Connection.{Connection, is_live, send_message, receive_message}

-- `sc_follow_context`, with the offset that the kernel keeps for its descriptor. The mode is what
-- `S_ISREG` says of it.
pub record FollowContext : Type 0 where
  pub channel : ℕ
  pub filename : Option (List ℕ)
  pub position : ℕ
  pub regular : Bool
  pub fd : ℤ
  pub offset : ℕ
  pub buffer : AzBuffer
  pub message_buffer : Message
  pub display_name : Option (List ℕ)
  pub ftimestamp : Bool

-- The connection that the contexts share, what the network will answer, and what went out.
pub record Net : Type 0 where
  pub conn : Connection
  pub answers : List Sent
  pub events : List Event
  pub wire : List ℕ

-- What a run takes from its surroundings: memory, the stack below it, the time, the digest, the
-- files by their paths, `open` with whether the file is a regular one, `read` at an offset, whether
-- `lseek` can go to a position that is not negative, and whether a `read` that fails does so with
-- `EAGAIN`.
pub record Env : Type 0 where
  pub heap : Heap
  pub stack : List ℕ
  pub time : ℕ
  pub md5 : List ℕ → List ℕ
  pub files : Files
  pub opens : List ℕ → Option (ℕ × Bool)
  pub reads : ℕ → ℕ → Option (List ℕ)
  pub seeks : ℕ → Bool
  pub errno_again : Bool

abbrev pub err_must_reconnect : ℤ
err_must_reconnect = pos 1001

abbrev pub bufsize : ℕ
bufsize = 8192

-- `sizeof(int32_t) + sizeof(int64_t)`: attributes and time, before the text.
abbrev pub text_offset : ℕ
text_offset = 12

-- `_sc_follow_context_init` and `sc_follow_context_new`, where memory is there.
unfoldable pub new : Heap → Option (List ℕ) → Option (List ℕ) → Bool → ℕ → Option FollowContext
new heap fname dispname ftimestamp bufsize = do
  buffer ← AzBuffer.new true heap bufsize
  msg ← Message.new heap bufsize
  some (record {
    channel = 0;
    filename = fname;
    position = 0;
    regular = false;
    fd = negsuc 0;
    offset = 0;
    buffer = buffer;
    message_buffer = record msg { code = scm_msg_none };
    display_name = dispname;
    ftimestamp = ftimestamp;
  })

-- `sc_follow_context_open_file`: a failed `open` leaves -1.
unfoldable pub open_file : Env → FollowContext → ℤ × FollowContext
unfolding is_live
open_file env cxt = if is_live cxt.fd then (negsuc 0, cxt) else elim (cxt.filename >>= env.opens) [
  | none ↦ (negsuc 0, record cxt { fd = negsuc 0 })
  | some (fd, regular) ↦ (pos 0, record cxt { fd = pos fd; regular = regular; offset = 0 })
]

unfoldable pub close_file : FollowContext → FollowContext
close_file cxt = record cxt { fd = negsuc 0; regular = false; position = 0 }

unfoldable pub reset : FollowContext → FollowContext
unfolding close_file
reset cxt =
    let closed = close_file cxt in
    record closed {
      buffer = AzBuffer.reset closed.buffer;
      message_buffer = record (closed.message_buffer) { code = scm_msg_none };
    }

-- A message goes out and its answer comes back: what both calls returned, 0 for the second where
-- it was not made.
pub record Exchange : Type 0 where
  pub sent : ℤ
  pub got : ℤ
  pub resp : Option Message
  pub msg : Message
  pub net : Net

unfoldable pub is_zero : ℤ → Bool
is_zero (pos zero) = true
is_zero (pos (suc n)) = false
is_zero (negsuc n) = false

unfoldable pub exchange : Env → Net → Message → Option Exchange
unfolding is_zero
exchange env net msg = do
  s ← send_message net.answers net.conn msg
  let net' : Net = record {
    conn = s.conn;
    answers = s.answers;
    events = net.events;
    wire = net.wire ++ s.wire;
  }
  if is_zero s.ret
      then (do
        r ← receive_message env.heap env.stack s.conn net.events
        some (record {
          sent = s.ret;
          got = r.ret;
          resp = r.msg;
          msg = s.msg;
          net = record net' { conn = r.conn; events = r.events };
        }))
      else some (record { sent = s.ret; got = pos 0; resp = none; msg = s.msg; net = net' })

-- `sc_follow_context_close`.
unfoldable pub close : Env → FollowContext → Net → Option (ℤ × Net)
unfolding is_live is_zero
close env cxt net =
    if not (is_live net.conn.socket)
    then some (err_must_reconnect, net)
    else if is_neg cxt.fd
    then some (negsuc 0, net)
    else do
      msg ← Message.new env.heap 4
      x ←
          exchange env net (record msg {
            code = scm_msg_rele;
            channel = cxt.channel;
            content = 0 ∷ 0 ∷ 0 ∷ 0 ∷ [];
          })
      some (if is_zero x.sent && is_zero x.got then pos 0 else err_must_reconnect, x.net)
