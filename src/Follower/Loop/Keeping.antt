-- ===== src/Follower/Loop/Keeping.antt =====
-- The parts of a context of follower/follow_context.c that its operations keep in order: the buffer,
-- and the block of the message.
use compostela.Prelude.{
  ℕ, ◌≡◌, sym, ap, ◌∙◌, subst, List, some, arith, length, Bool-cases, inl, inr, >>=-eq-some, ◌==◌,
}
use compostela.Prelude.Words.{is_pos, add64}
use compostela.Prelude.Memory.{read_at}
use compostela.AzBuffer.{AzBuffer, Heap, unread_bytes, unused_bytes, fetch_file, read_line}
use compostela.AzBuffer
use compostela.AzBuffer.Holds.{Holds, reset_lem}
use compostela.AzBuffer.Fetch.{fetch_file-Holds}
use compostela.AzBuffer.Refinement.Lines.{read_line-Holds}
use compostela.Transport.{Sent, sendall}
use compostela.Message.{Message, swap_header, image, sign_extend, header_size}
use compostela.Follower.Connection.{
  Connection, SentMessage, send_message, send_result, receive_message,
}
use compostela.Follower.Context.{FollowContext, Net, Env, Exchange, exchange, is_zero, bufsize}
use compostela.Follower.Run.{ReadLine, follow_read_line, buffer_line, advance}

-- The buffer holds something, and the block of the message has its size.
pub record IsSound (cxt : FollowContext) : Type 0 where
  pub bytes : List ℕ
  pub holds : Holds cxt.buffer bytes
  pub block : length (cxt.message_buffer).content ≡ bufsize

-- A context with the buffer and the message of another is as sound.
pub IsSound-same :
    (cxt cxt' : FollowContext)
    → cxt.buffer ≡ cxt'.buffer
    → cxt.message_buffer ≡ cxt'.message_buffer
    → IsSound cxt
    → IsSound cxt'
IsSound-same cxt cxt' b m s = record {
  bytes = s.bytes;
  holds = subst (λ g. Holds g s.bytes) b s.holds;
  block = ap (λ (n : Message). length n.content) (sym m) ∙ s.block;
}

buffer_line-IsSound :
    (cxt : FollowContext) (dsize : ℕ) {line : ReadLine}
    → IsSound cxt
    → buffer_line cxt dsize ≡ some line
    → IsSound line.cxt
unfolding buffer_line
buffer_line-IsSound cxt dsize {line} s e =
    let r = >>=-eq-some (read_line cxt.buffer dsize) _ e in
    let kept = read_line-Holds dsize s.holds r.1 in
    let after : FollowContext = record cxt { buffer = (r.0).rest } in
    let same : after ≡ line.cxt = ground (arith, r.2) in
    subst IsSound same (record { bytes = kept.0; holds = kept.1; block = s.block })

pub follow_read_line-IsSound :
    (env : Env) (cxt : FollowContext) (dsize : ℕ) {line : ReadLine}
    → IsSound cxt
    → follow_read_line env cxt dsize ≡ some line
    → IsSound line.cxt
unfolding follow_read_line
follow_read_line-IsSound env cxt dsize {line} s e =
    elim (Bool-cases (unread_bytes cxt.buffer == 0)) [
      | inr some_left ↦ buffer_line-IsSound cxt dsize s (rw some_left at e)
      | inl nothing ↦
          let empty : AzBuffer = AzBuffer.reset cxt.buffer in
          let got =
            >>=-eq-some (fetch_file empty (env.reads cxt.offset) (unused_bytes empty)) _
              (rw nothing at e) in
          let kept =
            fetch_file-Holds (env.reads cxt.offset) (unused_bytes empty) (reset_lem s.holds).0
              got.1 in
          let next : FollowContext = record cxt {
            buffer = (got.0).1;
            offset = advance cxt.offset (got.0).0;
          } in
          let sound : IsSound next = record { bytes = kept.0; holds = kept.1; block = s.block } in
          elim (Bool-cases (is_pos (got.0).0)) [
            | inl read ↦ buffer_line-IsSound next dsize sound (rw read at (got.2))
            | inr end ↦
                let same : next ≡ line.cxt = ground (arith, (rw end at (got.2))) in
                subst IsSound same sound
          ]
    ]

-- A message keeps its content on its way.
send_message-content :
    (answers : List Sent) (conn : Connection) (m : Message) {s : SentMessage}
    → send_message answers conn m ≡ some s
    → (s.msg).content ≡ m.content
unfolding send_message send_result swap_header
send_message-content answers conn m {s} e =
    let bytes =
      >>=-eq-some
        (read_at (image (swap_header m)) 0 (add64 (sign_extend m.content_length) header_size)) _
        e in
    let sent = >>=-eq-some (sendall answers bytes.0) _ bytes.2 in
    elim (Bool-cases (is_pos (sent.0).ret)) [
      | inl went ↦ ground (arith, (rw went at (sent.2)))
      | inr broke ↦ ground (arith, (rw broke at (sent.2)))
    ]

pub exchange-content :
    (env : Env) (net : Net) (m : Message) {x : Exchange}
    → exchange env net m ≡ some x
    → (x.msg).content ≡ m.content
unfolding exchange
exchange-content env net m {x} e =
    let s = >>=-eq-some (send_message net.answers net.conn m) _ e in
    let kept = send_message-content net.answers net.conn m s.1 in
    elim (Bool-cases (is_zero (s.0).ret)) [
      | inl went ↦
          let r =
            >>=-eq-some (receive_message env.heap env.stack (s.0).conn net.events) _
              (rw went at (s.2)) in
          let same : (s.0).msg ≡ x.msg = ground (arith, r.2) in
          ap (λ (n : Message). n.content) (sym same) ∙ kept
      | inr broke ↦
          let same : (s.0).msg ≡ x.msg = ground (arith, (rw broke at (s.2))) in
          ap (λ (n : Message). n.content) (sym same) ∙ kept
    ]
