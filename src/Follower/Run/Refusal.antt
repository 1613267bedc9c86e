-- ===== src/Follower/Run/Refusal.antt =====
-- What `_run_follow_context` of follower/main.c does with a message that the aggregator refuses.
use compostela.Prelude.{
  ℕ, ◌^◌, ◌≤◌, ◌<◌, ◌≡◌, refl, ap, ◌∙◌, List, ◌++◌, none, some, length, arith, true, false, ◌==◌,
  if◌then◌else◌,
}
use compostela.Prelude.Words.{pos}
use compostela.Message.{Message, swap_header, htons, scm_msg_none, scm_resp_ok}
use compostela.Message.Bytes.{IsValid}
use compostela.Follower.Connection.{is_live, send_message}
use compostela.Follower.Connection.Framing.{frame}
use compostela.Follower.Connection.Opening.{send_message-twice}
use compostela.Follower.Context.{FollowContext, Net, Env, exchange, bufsize}
use compostela.Follower.Run.{Ran, proc_message, run_follow_context}
use compostela.Follower.Run.Exchange.{Carries, exchange_lem}
use compostela.Follower.Run.Delivery.{ran, with_message, idle, proc_message-runs}

run_pending :
    (env : Env) (cxt : FollowContext) (net : Net)
    → is_live net.conn.socket ≡ true
    → ((cxt.message_buffer).code == scm_msg_none) ≡ false
    → run_follow_context env cxt net ≡ proc_message env cxt net
unfolding run_follow_context
run_pending env cxt net live waits = rw (run_follow_context, live, waits) refl

proc_message-twice :
    (env : Env) (cxt : FollowContext) (net : Net) (m : Message)
    → send_message net.answers net.conn (swap_header m) ≡ none
    → proc_message env (with_message cxt (swap_header m)) net ≡ none
unfolding proc_message exchange
proc_message-twice env cxt net m e = rw (proc_message, e) refl

swapped_waits : (code : ℕ) → 0 < code → code < 2 ^ 16 → (htons code == scm_msg_none) ≡ false
unfolding htons
swapped_waits code h k = ground arith

code-swap_header : (m : Message) → (swap_header m).code ≡ htons m.code
unfolding swap_header
code-swap_header m = refl

-- A valid message that waits, with a content and a block of at most 8192 bytes for it: a run over a
-- network that carries it sends it, returns 0, and keeps it in network order if the answer is not OK.
-- The next run faults: it takes the reversed length of the message for the number of bytes to send.
pub run_follow_context-twice :
    (env : Env) (junk : ℕ → ℕ) (cxt : FollowContext) (net : Net) (reply : Message) (rest : List ℕ)
    → env.heap ≡ some junk
    → is_live net.conn.socket ≡ true
    → IsValid cxt.message_buffer
    → 0 < (cxt.message_buffer).code
    → 0 < (cxt.message_buffer).content_length
    → length (cxt.message_buffer).content ≤ bufsize
    → Carries net (cxt.message_buffer).content_length reply rest
    → (reply.code == scm_resp_ok) ≡ false
    → (r : Ran) × (run_follow_context env cxt net ≡ some r)
      × (r.ret ≡ pos 0)
      × ((r.net).wire ≡ net.wire ++ frame cxt.message_buffer)
      × (run_follow_context env r.cxt r.net ≡ none)
run_follow_context-twice env junk cxt net reply rest mem live v coded filled small carries refused =
    let m : Message = cxt.message_buffer in
    let x = exchange_lem env junk net m reply rest mem v (omega (arith, v.room, small)) carries in
    let d = x.2 in
    let kept : FollowContext = with_message cxt (x.0).msg in
    let again : run_follow_context env (with_message cxt (swap_header m)) (x.0).net ≡ none =
      run_pending env (with_message cxt (swap_header m)) (x.0).net
        (ap (λ c. is_live c.socket) d.conn ∙ live)
        (ap (λ c. c == scm_msg_none) (code-swap_header m) ∙ swapped_waits m.code coded v.code_in)
      ∙ proc_message-twice env cxt (x.0).net m
          (send_message-twice ((x.0).net).answers ((x.0).net).conn m v filled small) in
    (
      ran reply kept (x.0).net,
      run_pending env cxt net live (waits m.code coded)
          ∙ proc_message-runs env cxt net reply x.0 x.1 d.sent d.got d.resp
          ∙ refusal (x.0).msg (x.0).net,
      refl,
      d.out,
      ap (λ z. run_follow_context env (with_message cxt z) (x.0).net) d.msg ∙ again,
    )
  where
    waits : (code : ℕ) → 0 < code → (code == scm_msg_none) ≡ false
    waits code h = ground arith

    refusal :
        (m : Message) (after : Net)
        → some (
            ran reply
              (if reply.code == scm_resp_ok then with_message cxt (idle m) else with_message cxt m)
              after)
          ≡ some (ran reply (with_message cxt m) after)
    refusal m after = rw refused refl
