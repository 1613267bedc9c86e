-- ===== src/Follower/Connection/Spending.antt =====
-- What the messages of follower/connection.c take of the answers of the network.
use compostela.Prelude.{
  ◌+◌, ◌≡◌, refl, ap, ◌∙◌, List, some, arith, length, >>=-eq-some, Bool-cases, inl, inr,
  length-take, subst,
}
use compostela.Prelude.Words.{is_pos}
use compostela.Transport.{Sent, Sending, sendall}
use compostela.Transport.Send.{AllTook, Spends, sendall-Spends}
use compostela.Message.{Message, swap_header}
use compostela.Message.Bytes.{IsValid}
use compostela.Follower.Connection.{Connection, SentMessage, send_message, send_result}
use compostela.Follower.Connection.Framing.{frame, framed}

send_result-answers :
    (conn : Connection) (m : Message) (s : Sending) → s.answers ≡ (send_result conn m s).answers
unfolding send_result
send_result-answers conn m s = elim (Bool-cases (is_pos s.ret)) [
  | inl e ↦ rw e refl
  | inr e ↦ rw e refl
]

pub send_message-Spends :
    (answers : List Sent) (conn : Connection) (m : Message) {s : SentMessage}
    → IsValid m
    → send_message answers conn m ≡ some s
    → AllTook answers
    → Spends (8 + m.content_length) answers s.answers
unfolding send_message
send_message-Spends answers conn m {s} v e all =
    let sent =
      >>=-eq-some (sendall answers (frame m)) (λ t. some (send_result conn (swap_header m) t))
        (rw (framed m v) at e) in
    let spent = sendall-Spends answers (frame m) sent.1 all in
    let result : send_result conn (swap_header m) sent.0 ≡ s = ground (arith, sent.2) in
    let same : (sent.0).answers ≡ s.answers =
      send_result-answers conn (swap_header m) sent.0
      ∙ ap (λ (r : SentMessage). r.answers) result in
    record {
      takes = subst AllTook same spent.takes;
      enough = omega (arith, spent.enough, ap length same, frame_len);
    }
  where
    frame_len : length (frame m) ≡ 8 + m.content_length
    frame_len = omega (arith, length-take m.content_length m.content, v.room)
