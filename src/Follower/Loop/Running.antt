-- ===== src/Follower/Loop/Running.antt =====
-- A run of a context of follower/main.c keeps the context in order, on every branch.
use compostela.Prelude.{
  ◌+◌, ◌≡◌, refl, ap, ◌∙◌, subst, some, not, arith, length, Bool-cases, inl, inr, >>=-eq-some, ◌==◌,
  ◌&&◌, if◌then◌else◌,
}
use compostela.Prelude.Words.{ℤ, pos, negsuc, is_pos}
use compostela.Prelude.Memory.{write_at, length-write_at}
use compostela.Message.{scm_resp_ok, scm_msg_none, scm_msg_data}
use compostela.Follower.Connection.{is_live}
use compostela.Follower.Context.{FollowContext, Net, Env, exchange, is_zero, open_file, bufsize}
use compostela.Follower.Run.{
  ReadLine, Ran, follow_read_line, init_file, data_head, store_line, proc_message, take_read,
  next_line, run_follow_context,
}
use compostela.Follower.Loop.Alike.{IsLike, init_file-IsLike, open_file-IsLike}
use compostela.Follower.Loop.Keeping.{
  IsSound, IsSound-same, follow_read_line-IsSound, exchange-content,
}

proc_message-IsSound :
    (env : Env) (cxt : FollowContext) (net : Net) {r : Ran}
    → IsSound cxt
    → proc_message env cxt net ≡ some r
    → IsSound r.cxt
unfolding proc_message
proc_message-IsSound env cxt net {r} s e =
    let x = >>=-eq-some (exchange env net cxt.message_buffer) _ e in
    let kept = exchange-content env net cxt.message_buffer x.1 in
    let cxt' : FollowContext = record cxt { message_buffer = (x.0).msg } in
    let sound : IsSound cxt' = record {
      bytes = s.bytes;
      holds = s.holds;
      block = ap length kept ∙ s.block;
    } in
    let idle : FollowContext = record cxt' {
      message_buffer = record ((x.0).msg) { code = scm_msg_none };
    } in
    let idle_sound : IsSound idle = record {
      bytes = s.bytes;
      holds = s.holds;
      block = ap length kept ∙ s.block;
    } in
    elim (Bool-cases (is_zero (x.0).sent && is_zero (x.0).got)) [
      | inr lost ↦
          let same : cxt' ≡ r.cxt = ground (arith, (rw lost at (x.2))) in subst IsSound same sound
      | inl done ↦
          let resp = >>=-eq-some (x.0).resp _ (rw done at (x.2)) in
          elim (Bool-cases ((resp.0).code == scm_resp_ok)) [
            | inl ok ↦
                let same : idle ≡ r.cxt = ground (arith, (rw ok at (resp.2))) in
                subst IsSound same idle_sound
            | inr refused ↦
                let same : cxt' ≡ r.cxt = ground (arith, (rw refused at (resp.2))) in
                subst IsSound same sound
          ]
    ]

store_line-IsSound :
    (env : Env) (line : ReadLine) (net : Net) {r : FollowContext × Net}
    → IsSound line.cxt
    → store_line env line net ≡ some r
    → IsSound r.0
unfolding store_line
store_line-IsSound env line net {r} s e =
    let cxt : FollowContext = line.cxt in
    let body = >>=-eq-some (write_at (cxt.message_buffer).content 12 line.dst) _ e in
    let content = >>=-eq-some (write_at body.0 0 (data_head (is_pos line.ret) env.time)) _ body.2 in
    let kept : FollowContext = record cxt {
      message_buffer = record (cxt.message_buffer) { content = content.0 };
    } in
    let block : length content.0 ≡ bufsize =
      length-write_at body.0 (data_head (is_pos line.ret) env.time) 0 content.1
      ∙ length-write_at (cxt.message_buffer).content line.dst 12 body.1
      ∙ s.block in
    let sound : IsSound kept = record { bytes = s.bytes; holds = s.holds; block = block } in
    let init =
      >>=-eq-some (if cxt.channel == 0 then init_file env kept net else some (pos 0, kept, net)) _
        content.2 in
    let like : IsLike kept (init.0).1 = elim (Bool-cases (cxt.channel == 0)) [
      | inl unknown ↦ init_file-IsLike env kept net (rw unknown at (init.1))
      | inr known ↦
          let same : kept ≡ (init.0).1 = ground (arith, (rw known at (init.1))) in
          subst (IsLike kept) same (refl, refl)
    ] in
    let ready = IsSound-same kept (init.0).1 like.0 like.1 sound in
    let after : FollowContext = record ((init.0).1) {
      message_buffer = record (((init.0).1).message_buffer) {
        code = scm_msg_data;
        channel = ((init.0).1).channel;
        content_length = 12 + line.used;
      };
    } in
    let same : after ≡ r.0 = ground (arith, init.2) in
    subst IsSound same (record { bytes = ready.bytes; holds = ready.holds; block = ready.block })

take_read-IsSound :
    (env : Env) (ret : ℤ) (line : ReadLine) (net : Net) {r : Ran}
    → line.ret ≡ ret
    → IsSound line.cxt
    → take_read env line net ≡ some r
    → IsSound r.cxt
unfolding take_read
take_read-IsSound env (pos n) line net {r} at_ s e = elim (Bool-cases (n == 0 && line.used == 0)) [
  | inl nothing ↦
      let same : line.cxt ≡ r.cxt = ground (arith, (rw nothing at (rw (take_read, at_) at e))) in
      subst IsSound same s
  | inr something ↦
      let stored =
        >>=-eq-some (store_line env line net) _ (rw something at (rw (take_read, at_) at e)) in
      proc_message-IsSound env (stored.0).0 (stored.0).1
        (store_line-IsSound env line net s stored.1) stored.2
]
take_read-IsSound env (negsuc n) line net {r} at_ s e =
    let same : line.cxt ≡ r.cxt = ground (arith, (rw (take_read, at_) at e)) in subst IsSound same s

next_line-IsSound :
    (env : Env) (cxt : FollowContext) (net : Net) {r : Ran}
    → IsSound cxt
    → next_line env cxt net ≡ some r
    → IsSound r.cxt
unfolding next_line
next_line-IsSound env cxt net {r} s e =
    let line = >>=-eq-some (follow_read_line env cxt 8180) (λ l. take_read env l net) e in
    take_read-IsSound env (line.0).ret line.0 net refl
      (follow_read_line-IsSound env cxt 8180 s line.1) line.2

-- Whatever the file and the network do, a run that comes to an end leaves a context in order.
pub run_follow_context-IsSound :
    (env : Env) (cxt : FollowContext) (net : Net) {r : Ran}
    → IsSound cxt
    → run_follow_context env cxt net ≡ some r
    → IsSound r.cxt
unfolding run_follow_context
run_follow_context-IsSound env cxt net {r} s e = elim (Bool-cases (not (is_live net.conn.socket))) [
  | inl dead ↦ let same : cxt ≡ r.cxt = ground (arith, (rw dead at e)) in subst IsSound same s
  | inr live ↦ elim (Bool-cases (not ((cxt.message_buffer).code == scm_msg_none))) [
    | inl waits ↦ proc_message-IsSound env cxt net s (rw waits at (rw live at e))
    | inr free ↦ elim (Bool-cases (is_pos cxt.fd)) [
      | inl open_already ↦
          next_line-IsSound env cxt net s (rw open_already at (rw free at (rw live at e)))
      | inr closed ↦
          let opened = open_file-IsLike env cxt in
          let sound = IsSound-same cxt (open_file env cxt).1 opened.0 opened.1 s in
          elim (Bool-cases (is_zero (open_file env cxt).0)) [
            | inr missing ↦
                let same : (open_file env cxt).1 ≡ r.cxt =
                  ground (arith, (rw missing at (rw closed at (rw free at (rw live at e))))) in
                subst IsSound same sound
            | inl there ↦
                let init =
                  >>=-eq-some (init_file env (open_file env cxt).1 net) _
                    (rw there at (rw closed at (rw free at (rw live at e)))) in
                let like = init_file-IsLike env (open_file env cxt).1 net init.1 in
                next_line-IsSound env (init.0).1 (init.0).2
                  (IsSound-same (open_file env cxt).1 (init.0).1 like.0 like.1 sound) init.2
          ]
    ]
  ]
]
