-- ===== src/Follower/Run/Delivery.antt =====
-- How `_run_follow_context` of follower/main.c turns what is in the buffer of a context into
-- messages.
use compostela.Prelude.{
  take_all, leb, ℕ, ◌+◌, ◌≤◌, ◌^◌, ◌<◌, ◌≡◌, refl, sym, ap, ◌∙◌, List, ◌++◌, some, length, arith,
  take, drop, true, false, Bool, ◌==◌, length-append, append_assoc, if◌then◌else◌, take-append_over,
  take-append, drop-append, length-take,
}
use compostela.Prelude.Words.{ℤ, pos, is_pos}
use compostela.Prelude.Memory.{write_at}
use compostela.Transport.Send.{Spends}
use compostela.Transport.Receive.{stream}
use compostela.Message.{
  Message, swap_header, scm_msg_none, scm_msg_data, scm_resp_ok, store32, store64, store16,
}
use compostela.Message.Bytes.{IsValid, be16, be32}
use compostela.Follower.Connection.Framing.{frame, trimmed}
use compostela.Follower.Context.{FollowContext, Net, Env, Exchange, exchange, is_zero, text_offset}
use compostela.Follower.Run.{Ran, data_head, proc_message, store_line}
use compostela.Follower.Run.Exchange.{Carries, exchange_lem}

-- The message that carries a line, done or not.
abbrev pub carrier : Bool → ℕ → ℕ → List ℕ → Message
carrier done channel time text = record {
  code = scm_msg_data;
  channel = channel;
  content_length = text_offset + length text;
  content = data_head done time ++ text;
}

pub length-data_head : (done : Bool) (time : ℕ) → length (data_head done time) ≡ 12
unfolding store32 store64 store16
length-data_head done time = refl

-- A head written over the first bytes and a body behind it.
write_body :
    (content body : List ℕ)
    → 12 + length body ≤ length content
    → write_at content 12 body ≡ some (take 12 content ++ (body ++ drop (12 + length body) content))
unfolding write_at
write_body content body fits = ground (arith, fits)

write_head :
    (content head tail : List ℕ)
    → length head ≡ 12
    → 12 ≤ length content
    → write_at (take 12 content ++ tail) 0 head ≡ some (head ++ tail)
unfolding write_at
write_head content head tail h fits = rw (fits_head, drop-append (take 12 content) tail _ front)
  where
    front : 0 + length head ≡ length (take 12 content)
    front = omega (arith, h, length-take 12 content, fits)

    fits_head : leb (0 + length head) (length (take 12 content ++ tail)) ≡ true
    fits_head = ground (arith, length-append (take 12 content) tail, front)

-- The result of a run whose exchange succeeded.
abbrev pub ran : Message → FollowContext → Net → Ran
ran reply cxt net = record { ret = pos 0; resp = some (trimmed reply); cxt = cxt; net = net }

abbrev pub with_message : FollowContext → Message → FollowContext
with_message cxt m = record cxt { message_buffer = m }

abbrev pub idle : Message → Message
idle m = record m { code = scm_msg_none }

pub proc_message-runs :
    (env : Env) (cxt : FollowContext) (net : Net) (reply : Message) (x : Exchange)
    → exchange env net cxt.message_buffer ≡ some x
    → x.sent ≡ pos 0
    → x.got ≡ pos 0
    → x.resp ≡ some (trimmed reply)
    → proc_message env cxt net
      ≡ some (
          ran reply
            (if reply.code == scm_resp_ok
              then with_message cxt (idle x.msg)
              else with_message cxt x.msg)
            x.net)
unfolding proc_message is_zero
proc_message-runs env cxt net reply x runs sent got resp =
    rw (proc_message, runs, ap is_zero sent, ap is_zero got, resp)

-- Over a network that carries it, a message that waits is sent and its answer is looked at: on OK
-- the context has no message any more.
pub proc_message-Ok :
    (env : Env) (junk : ℕ → ℕ) (cxt : FollowContext) (net : Net) (reply : Message) (rest : List ℕ)
    → env.heap ≡ some junk
    → IsValid cxt.message_buffer
    → 8 + (cxt.message_buffer).content_length < 2 ^ 31
    → Carries net (cxt.message_buffer).content_length reply rest
    → reply.code ≡ scm_resp_ok
    → (r : Ran) × (proc_message env cxt net ≡ some r)
      × (r.ret ≡ pos 0)
      × ((r.net).wire ≡ net.wire ++ frame cxt.message_buffer)
      × (stream (r.net).events ≡ rest)
      × ((r.net).conn ≡ net.conn)
      × (r.cxt ≡ with_message cxt (idle (swap_header cxt.message_buffer)))
      × Spends (8 + (cxt.message_buffer).content_length) net.answers (r.net).answers
proc_message-Ok env junk cxt net reply rest mem v small c ok =
    let x = exchange_lem env junk net cxt.message_buffer reply rest mem v small c in
    let d = x.2 in
    (
      ran reply (with_message cxt (idle (x.0).msg)) (x.0).net,
      proc_message-runs env cxt net reply x.0 x.1 d.sent d.got d.resp ∙ taken (x.0).msg (x.0).net,
      refl,
      d.out,
      d.left,
      d.conn,
      ap (λ m. with_message cxt (idle m)) d.msg,
      d.spends,
    )
  where
    taken :
        (m : Message) (after : Net)
        → some (
            ran reply
              (if reply.code == scm_resp_ok then with_message cxt (idle m) else with_message cxt m)
              after)
          ≡ some (ran reply (with_message cxt (idle m)) after)
    taken m after = rw (ap (λ n. n == scm_resp_ok) ok) refl

-- The message that a line becomes in the block of the message buffer.
abbrev pub stored : FollowContext → Bool → ℕ → List ℕ → List ℕ → Message
stored cxt done time text dst = record {
  code = scm_msg_data;
  channel = cxt.channel;
  content_length = text_offset + length text;
  content = data_head done time ++ (dst ++ drop (12 + length dst) (cxt.message_buffer).content);
}

pub store_line-stored :
    (env : Env) (ret : ℤ) (dst : List ℕ) (used : ℕ) (cxt : FollowContext) (net : Net) (done : Bool)
    (text : List ℕ)
    → is_pos ret ≡ done
    → used ≡ length text
    → 0 < cxt.channel
    → 12 + length dst ≤ length (cxt.message_buffer).content
    → store_line env (record { ret = ret; dst = dst; used = used; cxt = cxt }) net
      ≡ some (with_message cxt (stored cxt done env.time text dst), net)
unfolding store_line
store_line-stored env ret dst used cxt net done text e u numbered fits =
    rw
      (
        write_body content dst fits,
        e,
        write_head content (data_head done env.time) tail (length-data_head done env.time)
            (omega (arith, fits)),
        nonzero,
        u,
      )
      refl
  where
    content : List ℕ
    content = (cxt.message_buffer).content

    tail : List ℕ
    tail = dst ++ drop (12 + length dst) content

    nonzero : (cxt.channel == 0) ≡ false
    nonzero = ground (arith, numbered)

pub frame-stored :
    (cxt : FollowContext) (done : Bool) (time : ℕ) (text dst pad : List ℕ)
    → dst ≡ text ++ pad
    → frame (stored cxt done time text dst) ≡ frame (carrier done cxt.channel time text)
frame-stored cxt done time text dst pad e =
    ap (λ t. (be16 scm_msg_data ++ (be16 cxt.channel ++ be32 (text_offset + length text))) ++ t)
      same
  where
    head : List ℕ
    head = data_head done time

    size : ℕ
    size = text_offset + length text

    front : (tail : List ℕ) → take size (head ++ tail) ≡ head ++ take (length text) tail
    front tail =
        take-append_over head tail size (length text) (omega (arith, length-data_head done time))

    bytes : List ℕ
    bytes = drop (12 + length dst) (cxt.message_buffer).content

    same : take size (head ++ (dst ++ bytes)) ≡ take size (head ++ text)
    same =
        front (dst ++ bytes)
        ∙ ap (λ t. head ++ take (length text) (t ++ bytes)) e
        ∙ ap (λ t. head ++ take (length text) t) (append_assoc text pad bytes)
        ∙ ap (λ t. head ++ t)
            (take-append text (pad ++ bytes) (length text) refl
              ∙ sym (take_all (length text) text (omega arith)))
        ∙ sym (front text)
