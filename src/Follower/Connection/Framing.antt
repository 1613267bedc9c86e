-- ===== src/Follower/Connection/Framing.antt =====
-- The bytes on the wire between `sc_aggregator_connection_send_message` and
-- `sc_aggregator_connection_receive_message` of follower/connection.c.
use compostela.Prelude.{
  ℕ, zero, suc, ◌+◌, ◌-◌, ◌^◌, ◌≤◌, ◌<◌, ◌≡◌, refl, sym, ap, ◌∙◌, List, [], ◌++◌, some, arith,
  length, drop, take, true, ltb, if◌then◌else◌, ◌==◌, ◌||◌, length-append, take-append, drop-append,
  take-append_over, append-nil, append_assoc, drop_all, length-take,
}
use compostela.Prelude.Words.{pos, is_pos, add64}
use compostela.Prelude.Memory.{read_at, read_at-take}
use compostela.AzBuffer.{fill}
use compostela.AzBuffer.Holds.{length-fill}
use compostela.Transport.{Sent, Event, Receiving, recvall}
use compostela.Transport.Send.{AllTook, sendall_total}
use compostela.Transport.Receive.{stream, recvall_lem}
use compostela.Message.{
  Message, image, header_bytes, swap_header, load_header, header_size, sign_extend,
}
use compostela.Message.Bytes.{
  IsValid, header_of, load_header-header_bytes, length-header_bytes, header_bytes-be, be16, be32,
}
use compostela.Follower.Connection.{
  Connection, SentMessage, send_message, Received, receive_message, receive_content,
}

-- The bytes of a message on the wire.
abbrev pub frame : Message → List ℕ
frame m =
    (be16 m.code ++ (be16 m.channel ++ be32 m.content_length)) ++ take m.content_length m.content

-- What the code hands to `sendall` is the frame.
pub framed :
    (m : Message)
    → IsValid m
    → read_at (image (swap_header m)) 0 (add64 (sign_extend m.content_length) header_size)
      ≡ some (frame m)
unfolding image sign_extend swap_header
framed m v =
    ap (read_at (header_bytes (swap_header m) ++ m.content) 0) size
    ∙ read_at-take (header_bytes (swap_header m) ++ m.content) (8 + m.content_length) (
        omega (
          arith,
          length-append (header_bytes (swap_header m)) m.content,
          length-header_bytes (swap_header m),
          v.room,
        ))
    ∙ ap some (
        take-append_over (header_bytes (swap_header m)) m.content (8 + m.content_length)
          m.content_length (omega (arith, length-header_bytes (swap_header m)))
        ∙ ap (λ t. t ++ take m.content_length m.content) (header_bytes-be m v))
  where
    size :
        add64
          (if ltb m.content_length (2 ^ 31)
            then m.content_length
            else m.content_length + (2 ^ 64 - 2 ^ 32))
          8
        ≡ 8 + m.content_length
    size = ground (arith, v.length_in)

pub length-frame : (m : Message) → IsValid m → length (frame m) ≡ 8 + m.content_length
length-frame m v = omega (arith, length-take m.content_length m.content, v.room)

-- Over a connection that takes every byte, a message whose frame is shorter than 2 ^ 31 goes out as its code, its channel and its
-- length in network order, and then its content; the call returns 0 and keeps the connection.
pub send_message_lem :
    (answers : List Sent) (conn : Connection) (m : Message)
    → IsValid m
    → AllTook answers
    → 8 + m.content_length ≤ length answers
    → 8 + m.content_length < 2 ^ 31
    → (s : SentMessage) × (send_message answers conn m ≡ some s)
      × (s.ret ≡ pos 0)
      × (s.wire ≡ frame m)
      × (s.conn ≡ conn)
      × (s.msg ≡ swap_header m)
unfolding send_message
send_message_lem answers conn m v all enough small =
    let frame_len : length (frame m) ≡ 8 + m.content_length = length-frame m v in
    let sent =
      sendall_total answers (frame m) all (omega (arith, frame_len))
        (omega (arith, frame_len, small)) in
    (
      record {
        ret = pos 0;
        conn = conn;
        msg = swap_header m;
        wire = (sent.0).wire;
        answers = (sent.0).answers;
      },
      rw (framed m v, sent.1) (rw (sent.2) (ground (arith, frame_len))),
      refl,
      sent.3,
      refl,
      refl,
    )

counts : (n : ℕ) → (is_pos (pos n) || n == 0) ≡ true
counts zero = refl
counts (suc n) = refl

-- The message as the other side has it: a block of just its content.
abbrev pub trimmed : Message → Message
trimmed m = record m { content = take m.content_length m.content }

receive_content_runs :
    (junk : ℕ → ℕ) (conn : Connection) (m : Message) (events : List Event) {r : Receiving}
    → IsValid m
    → recvall events m.content_length ≡ some r
    → r.ret ≡ pos m.content_length
    → r.got ≡ take m.content_length m.content
    → receive_content (some junk) conn (header_of m) events
      ≡ some (record { ret = pos 0; conn = conn; msg = some (trimmed m); events = r.events })
unfolding receive_content
receive_content_runs junk conn m events {r} v runs counted got =
    rw (ltb-true, runs, counted, live, got, nothing_left, append-nil)
  where
    ltb-true : ltb m.content_length (2 ^ 31) ≡ true
    ltb-true = ground (arith, v.length_in)

    live : (is_pos (pos m.content_length) || m.content_length == 0) ≡ true
    live = counts m.content_length

    nothing_left : drop (length (take m.content_length m.content)) (fill junk m.content_length) ≡ []
    nothing_left = drop_all _ (fill junk m.content_length) (
        omega (
          arith,
          length-fill junk m.content_length,
          length-take m.content_length m.content,
          v.room,
        ))

receive_content_lem :
    (junk : ℕ → ℕ) (conn : Connection) (m : Message) (rest : List ℕ) (events : List Event)
    → IsValid m
    → stream events ≡ take m.content_length m.content ++ rest
    → (r : Received) × (receive_content (some junk) conn (header_of m) events ≡ some r)
      × (r.ret ≡ pos 0)
      × (r.conn ≡ conn)
      × (r.msg ≡ some (trimmed m))
      × (stream r.events ≡ rest)
receive_content_lem junk conn m rest events v e =
    let text : List ℕ = take m.content_length m.content in
    let text_len : length text ≡ m.content_length =
      omega (arith, length-take m.content_length m.content, v.room) in
    let r =
      recvall_lem events m.content_length (rw e (omega (arith, length-append text rest, text_len)))
        v.length_in in
    let got : (r.0).got ≡ text =
      r.3 ∙ ap (take m.content_length) e ∙ take-append text rest m.content_length (sym text_len) in
    (
      record { ret = pos 0; conn = conn; msg = some (trimmed m); events = (r.0).events },
      receive_content_runs junk conn m events v r.1 r.2 got,
      refl,
      refl,
      refl,
      r.4 ∙ ap (drop m.content_length) e ∙ drop-append text rest m.content_length (sym text_len),
    )

-- However the network cuts what was sent, a valid message that `send_message` framed is received
-- whole where there is memory for it: the call returns 0 with its code, channel and content, and
-- leaves what follows it.
pub receive-send :
    (junk : ℕ → ℕ) (stack : List ℕ) (conn : Connection) (m : Message) (rest : List ℕ)
    (events : List Event)
    → IsValid m
    → stream events ≡ frame m ++ rest
    → (r : Received) × (receive_message (some junk) stack conn events ≡ some r)
      × (r.ret ≡ pos 0)
      × (r.conn ≡ conn)
      × (r.msg ≡ some (trimmed m))
      × (stream r.events ≡ rest)
unfolding receive_message
receive-send junk stack conn m rest events v e =
    let text : List ℕ = take m.content_length m.content in
    let head : List ℕ = header_bytes (swap_header m) in
    let joined : stream events ≡ head ++ (text ++ rest) =
      e ∙ ap (λ t. (t ++ text) ++ rest) (sym (header_bytes-be m v)) ∙ append_assoc head text rest in
    let head_len : 8 ≡ length head = sym (length-header_bytes (swap_header m)) in
    let r =
      recvall_lem events 8 (rw joined (omega (arith, length-append head (text ++ rest), head_len)))
        (omega arith) in
    let got : (r.0).got ≡ head =
      r.3 ∙ ap (take 8) joined ∙ take-append head (text ++ rest) 8 head_len in
    let left : stream (r.0).events ≡ text ++ rest =
      r.4 ∙ ap (drop 8) joined ∙ drop-append head (text ++ rest) 8 head_len in
    let body = receive_content_lem junk conn m rest (r.0).events v left in
    let loaded : load_header ((r.0).got ++ drop (length (r.0).got) stack) ≡ some (header_of m) =
      ap (λ t. load_header (t ++ drop (length (r.0).got) stack)) got
      ∙ load_header-header_bytes m (drop (length (r.0).got) stack) v in
    (body.0, rw r.1 (rw r.2 (rw loaded body.1)), body.2, body.3, body.4, body.5)
