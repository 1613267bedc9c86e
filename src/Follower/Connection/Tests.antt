-- ===== src/Follower/Connection/Tests.antt =====
-- The connection of follower/connection.c, carrying a short message.
use compostela.Prelude.{ℕ, ◌<◌, ◌≡◌, refl, List, [], ◌∷◌, ◌++◌, some, arith, ◌⊎◌, ◌↔◌, true}
use compostela.Prelude.Words.{pos, negsuc}
use compostela.Prelude.Memory.{read_at}
use compostela.Transport.{Sent, took, broken, sendall, Event, chunk, again}
use compostela.Transport.Receive.{stream}
use compostela.Message.{
  Message, swap_header, image, header_bytes, sign_extend, store16, store32, htons, htonl,
}
use compostela.Message.Bytes.{IsValid}
use compostela.Follower.Connection.{
  Connection, SentMessage, send_message, send_result, Received, receive_message, no_socket, refused,
  open_conn, is_live,
}
use compostela.Follower.Connection.Framing.{frame, receive-send, trimmed}
use compostela.Follower.Connection.Opening.{open_conn-AllFail, send_message-partial}

abbrev conn : Connection
conn = record { socket = pos 4; host = 104 ∷ []; port = 8197 }

-- A `DATA` message on channel 1 with two bytes.
abbrev msg : Message
msg = record { code = 103; channel = 1; content_length = 2; content = 7 ∷ 9 ∷ 5 ∷ [] }

msg-IsValid : IsValid msg
msg-IsValid = record {
  code_in = omega arith;
  channel_in = omega arith;
  length_in = omega arith;
  room = omega arith;
}

abbrev whole : List Sent
whole = took 3 ∷ took 9 ∷ took 0 ∷ took 0 ∷ took 0 ∷ took 0 ∷ took 0 ∷ took 0 ∷ took 0 ∷ took 0 ∷ []

abbrev zeroes : ℕ → ℕ
zeroes n = 0

abbrev pieces : List Event
pieces = again ∷ chunk 0 (103 ∷ 0 ∷ []) ∷ chunk 1 (0 ∷ 0 ∷ 0 ∷ 2 ∷ 7 ∷ []) ∷ chunk 9 (5 ∷ []) ∷ []

receive-send_example :
    (r : Received) × (receive_message (some zeroes) [] conn pieces ≡ some r)
    × (r.ret ≡ pos 0)
    × (r.conn ≡ conn)
    × (r.msg ≡ some (trimmed msg))
    × (stream r.events ≡ 5 ∷ [])
receive-send_example = receive-send zeroes [] conn msg (5 ∷ []) pieces msg-IsValid refl

open_conn-AllFail_example :
    ((open_conn (some (no_socket ∷ refused ∷ [])) conn).1 ≡ conn)
    × (((open_conn (some (no_socket ∷ refused ∷ [])) conn).0 ≡ pos 0)
        ↔ (is_live conn.socket ≡ true))
open_conn-AllFail_example = open_conn-AllFail (no_socket ∷ refused ∷ []) conn tt

abbrev two_out : SentMessage
two_out = record {
  ret = pos 0;
  conn = conn;
  msg = swap_header msg;
  wire = 0 ∷ 103 ∷ [];
  answers = [];
}

stops_early : send_message (took 0 ∷ took 0 ∷ broken ∷ []) conn msg ≡ some two_out
unfolding send_message send_result image header_bytes sign_extend swap_header store16 store32 htons
    htonl sendall read_at
stops_early = refl

send_message-partial_example :
    (unsent : List ℕ) × (frame msg ≡ two_out.wire ++ unsent)
    × (((pos 0 ≡ pos 0) × (0 < 2) × (conn ≡ conn))
        ⊎ ((pos 0 ≡ negsuc 0) × (two_out.wire ≡ []) × (conn.socket ≡ negsuc 0)))
send_message-partial_example =
    send_message-partial (took 0 ∷ took 0 ∷ broken ∷ []) conn msg msg-IsValid (omega arith)
      stops_early
