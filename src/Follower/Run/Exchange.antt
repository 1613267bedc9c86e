-- ===== src/Follower/Run/Exchange.antt =====
-- A message and its answer over the connection of follower/connection.c.
use compostela.Prelude.{ℕ, ◌+◌, ◌^◌, ◌<◌, ◌≤◌, ◌≡◌, ap, ◌∙◌, List, ◌++◌, some, length}
use compostela.Prelude.Words.{pos}
use compostela.Transport.Send.{AllTook, Spends}
use compostela.Transport.Receive.{stream}
use compostela.Message.{Message, swap_header}
use compostela.Message.Bytes.{IsValid}
use compostela.Follower.Connection.{SentMessage, send_message, Received, receive_message}
use compostela.Follower.Connection.Framing.{frame, trimmed, send_message_lem, receive-send}
use compostela.Follower.Connection.Spending.{send_message-Spends}
use compostela.Follower.Context.{Net, Env, Exchange, exchange, is_zero}

-- The network takes a message of `n` bytes of content and answers with a message.
pub record Carries (net : Net) (n : ℕ) (reply : Message) (rest : List ℕ) : Type 0 where
  pub takes : AllTook net.answers
  pub enough : 8 + n ≤ length net.answers
  pub valid : IsValid reply
  pub answered : stream net.events ≡ frame reply ++ rest

-- What an exchange that succeeds has done.
pub record Done (net : Net) (m reply : Message) (rest : List ℕ) (x : Exchange) : Type 0 where
  pub sent : x.sent ≡ pos 0
  pub got : x.got ≡ pos 0
  pub resp : x.resp ≡ some (trimmed reply)
  pub msg : x.msg ≡ swap_header m
  pub out : (x.net).wire ≡ net.wire ++ frame m
  pub conn : (x.net).conn ≡ net.conn
  pub left : stream (x.net).events ≡ rest
  pub spends : Spends (8 + m.content_length) net.answers (x.net).answers

exchange-runs :
    (env : Env) (net : Net) (m : Message) (s : SentMessage) (r : Received)
    → send_message net.answers net.conn m ≡ some s
    → s.ret ≡ pos 0
    → receive_message env.heap env.stack s.conn net.events ≡ some r
    → exchange env net m
      ≡ some (record {
        sent = s.ret;
        got = r.ret;
        resp = r.msg;
        msg = s.msg;
        net = record {
          conn = r.conn;
          answers = s.answers;
          events = r.events;
          wire = net.wire ++ s.wire;
        };
      })
unfolding exchange is_zero
exchange-runs env net m s r sends zeroed receives =
    rw (exchange, sends, ap is_zero zeroed, receives)

pub exchange_lem :
    (env : Env) (junk : ℕ → ℕ) (net : Net) (m reply : Message) (rest : List ℕ)
    → env.heap ≡ some junk
    → IsValid m
    → 8 + m.content_length < 2 ^ 31
    → Carries net m.content_length reply rest
    → (x : Exchange) × (exchange env net m ≡ some x) × Done net m reply rest x
exchange_lem env junk net m reply rest mem v small c =
    let s = send_message_lem net.answers net.conn m v c.takes c.enough small in
    let r = receive-send junk env.stack (s.0).conn reply rest net.events c.valid c.answered in
    (
      record {
        sent = (s.0).ret;
        got = (r.0).ret;
        resp = (r.0).msg;
        msg = (s.0).msg;
        net = record {
          conn = (r.0).conn;
          answers = (s.0).answers;
          events = (r.0).events;
          wire = net.wire ++ (s.0).wire;
        };
      },
      exchange-runs env net m s.0 r.0 s.1 s.2
          (ap (λ h. receive_message h env.stack (s.0).conn net.events) mem ∙ r.1),
      record {
        sent = s.2;
        got = r.2;
        resp = r.4;
        msg = s.5;
        out = ap (λ t. net.wire ++ t) s.3;
        conn = r.3 ∙ s.4;
        left = r.5;
        spends = send_message-Spends net.answers net.conn m v s.1 c.takes;
      },
    )
