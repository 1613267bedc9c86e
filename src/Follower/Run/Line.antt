-- ===== src/Follower/Run/Line.antt =====
-- One run of `_run_follow_context` of follower/main.c with something to read in the buffer.
use compostela.Prelude.{
  ℕ, ◌+◌, ◌^◌, ◌≤◌, ◌<◌, ◌≡◌, refl, sym, ap, ◌∙◌, List, [], ◌∷◌, ◌++◌, some, length, arith, take,
  drop, true, false, Bool, ◌==◌, ◌&&◌, length-append, length-take, length-drop, min, subst,
}
use compostela.Prelude.Words.{pos, is_pos}
use compostela.AzBuffer.{AzBuffer, read_line, unread_bytes, Read}
use compostela.AzBuffer.Holds.{Holds, unread_bytes_lem}
use compostela.AzBuffer.ReadLine.{Lacks, terminator, read_line_complete, read_line-partial}
use compostela.Transport.Send.{Spends}
use compostela.Transport.Receive.{stream}
use compostela.Message.{Message, swap_header, scm_msg_none, scm_resp_ok}
use compostela.Message.Bytes.{IsValid}
use compostela.Follower.Connection.{is_live}
use compostela.Follower.Connection.Framing.{frame}
use compostela.Follower.Context.{FollowContext, Net, Env, bufsize}
use compostela.Follower.Run.{
  Ran, data_head, proc_message, store_line, take_read, next_line, buffer_line, follow_read_line,
  run_follow_context,
}
use compostela.Follower.Run.Exchange.{Carries}
use compostela.Follower.Run.Delivery.{
  carrier, stored, length-data_head, with_message, store_line-stored, frame-stored, idle,
  proc_message-Ok,
}

-- A context that follows an open file on a channel and has no message to send.
pub record IsReady (cxt : FollowContext) : Type 0 where
  pub no_message : (cxt.message_buffer).code ≡ scm_msg_none
  pub opened : is_pos cxt.fd ≡ true
  pub numbered : 0 < cxt.channel
  pub channel_in : cxt.channel < 2 ^ 16
  pub room : length (cxt.message_buffer).content ≡ bufsize

-- What a run has done that sent `text` and left `rest` in the buffer.
pub record Delivers (done : Bool) (time : ℕ) (text rest : List ℕ) (cxt : FollowContext) (net : Net)
    (r : Ran) : Type 0 where
  pub ret : r.ret ≡ pos 0
  pub wire : (r.net).wire ≡ net.wire ++ frame (carrier done cxt.channel time text)
  pub conn : (r.net).conn ≡ net.conn
  pub holds : Holds (r.cxt).buffer rest
  pub no_message : ((r.cxt).message_buffer).code ≡ scm_msg_none
  pub channel : (r.cxt).channel ≡ cxt.channel
  pub ready : IsReady r.cxt
  pub spends : Spends (20 + length text) net.answers (r.net).answers

-- A context that is ready and has bytes in its buffer reads from there.
run-reads :
    (env : Env) (cxt : FollowContext) (net : Net) (out : Read)
    → is_live net.conn.socket ≡ true
    → IsReady cxt
    → (unread_bytes cxt.buffer == 0) ≡ false
    → read_line cxt.buffer 8180 ≡ some out
    → run_follow_context env cxt net
      ≡ take_read env
          (record {
            ret = out.ret;
            dst = out.dst;
            used = out.dused;
            cxt = record cxt { buffer = out.rest };
          })
          net
unfolding run_follow_context next_line follow_read_line buffer_line
run-reads env cxt net out live ready some_bytes reads =
    rw
      (
        run_follow_context,
        live,
        ap (λ n. n == scm_msg_none) ready.no_message,
        ready.opened,
        some_bytes,
        reads,
      )
      refl

take_read-line :
    (env : Env) (n : ℕ) (dst : List ℕ) (used : ℕ) (cxt cxt' : FollowContext) (net : Net)
    → (n == 0 && used == 0) ≡ false
    → store_line env (record { ret = pos n; dst = dst; used = used; cxt = cxt }) net
      ≡ some (cxt', net)
    → take_read env (record { ret = pos n; dst = dst; used = used; cxt = cxt }) net
      ≡ proc_message env cxt' net
unfolding take_read
take_read-line env n dst used cxt cxt' net something stores = rw (something, stores) refl

stored-IsValid :
    (cxt : FollowContext) (done : Bool) (time : ℕ) (text pad dst : List ℕ)
    → IsReady cxt
    → dst ≡ text ++ pad
    → length dst ≤ 8180
    → IsValid (stored cxt done time text dst)
stored-IsValid cxt done time text pad dst ready e fits = record {
  code_in = omega arith;
  channel_in = ready.channel_in;
  length_in = omega (arith, ap length e, length-append text pad, fits);
  room = omega (
    arith,
    ap length e,
    length-append text pad,
    length-append (data_head done time) (dst ++ past),
    length-append dst past,
    length-data_head done time,
  );
}
  where
    past : List ℕ
    past = drop (12 + length dst) (cxt.message_buffer).content

-- The context after a line is ready for the next.
stored-IsReady :
    (cxt : FollowContext) (done : Bool) (time : ℕ) (text dst : List ℕ) (b : AzBuffer)
    → IsReady cxt
    → length dst ≤ 8180
    → IsReady (
        with_message
          (record cxt { buffer = b })
          (idle (swap_header (stored (record cxt { buffer = b }) done time text dst))))
unfolding swap_header
stored-IsReady cxt done time text dst b ready fits = record {
  no_message = refl;
  opened = ready.opened;
  numbered = ready.numbered;
  channel_in = ready.channel_in;
  room = omega (
    arith,
    ready.room,
    fits,
    length-append (data_head done time) (dst ++ past),
    length-append dst past,
    length-data_head done time,
    length-drop (12 + length dst) (cxt.message_buffer).content,
  );
}
  where
    past : List ℕ
    past = drop (12 + length dst) (cxt.message_buffer).content

run-Delivers :
    (env : Env) (junk : ℕ → ℕ) (cxt : FollowContext) (net : Net) (n : ℕ) (text pad left : List ℕ)
    (reply : Message) (rest : List ℕ) (dst : List ℕ) (used : ℕ) (b : AzBuffer)
    → env.heap ≡ some junk
    → is_live net.conn.socket ≡ true
    → IsReady cxt
    → (unread_bytes cxt.buffer == 0) ≡ false
    → read_line cxt.buffer 8180 ≡ some (record { ret = pos n; dst = dst; dused = used; rest = b })
    → dst ≡ text ++ pad
    → used ≡ length text
    → length dst ≤ 8180
    → Holds b left
    → (n == 0 && used == 0) ≡ false
    → Carries net (12 + length text) reply rest
    → reply.code ≡ scm_resp_ok
    → (r : Ran) × (run_follow_context env cxt net ≡ some r)
      × Delivers (is_pos (pos n)) env.time text left cxt net r
      × (stream (r.net).events ≡ rest)
run-Delivers env junk cxt net n text pad left reply rest dst used b mem live ready unread reads e u
      fits holds something carries ok =
    let after : FollowContext = record cxt { buffer = b } in
    let m : Message = stored after (is_pos (pos n)) env.time text dst in
    let sent =
      proc_message-Ok env junk (with_message after m) net reply rest mem
        (stored-IsValid cxt (is_pos (pos n)) env.time text pad dst ready e fits)
        (omega (arith, ap length e, length-append text pad, fits)) carries ok in
    let stores =
      store_line-stored env (pos n) dst used after net (is_pos (pos n)) text refl u ready.numbered
        (omega (arith, ready.room, fits)) in
    (
      sent.0,
      run-reads env cxt net (record { ret = pos n; dst = dst; dused = used; rest = b }) live ready
            unread reads
          ∙ take_read-line env n dst used after (with_message after m) net something stores
          ∙ sent.1,
      record {
        ret = sent.2;
        wire =
            sent.3
            ∙ ap (λ t. net.wire ++ t) (frame-stored after (is_pos (pos n)) env.time text dst pad e);
        conn = sent.5;
        holds = subst (λ c. Holds c.buffer left) (sym sent.6) holds;
        no_message = ap (λ c. (c.message_buffer).code) sent.6;
        channel = ap (λ c. c.channel) sent.6;
        ready =
            subst IsReady (sym sent.6)
              (stored-IsReady cxt (is_pos (pos n)) env.time text dst b ready (omega (arith, fits)));
        spends = subst (λ k. Spends k net.answers (sent.0.net).answers) (omega arith) sent.7;
      },
      sent.4,
    )

-- A line that is in the buffer as a whole: a run over a network that carries the message, and an
-- aggregator that answers OK, sends it with its newline and with the end of the line marked, on the
-- channel of the context, and leaves what follows the line in the buffer and no message behind.
pub run_follow_context_complete :
    (env : Env) (junk : ℕ → ℕ) (cxt : FollowContext) (net : Net) (text left : List ℕ)
    (reply : Message) (rest : List ℕ)
    → env.heap ≡ some junk
    → is_live net.conn.socket ≡ true
    → IsReady cxt
    → Holds cxt.buffer (text ++ (b'\n' ∷ left))
    → Lacks b'\n' text
    → length text < 8180
    → Carries net (12 + (length text + 1)) reply rest
    → reply.code ≡ scm_resp_ok
    → (r : Ran) × (run_follow_context env cxt net ≡ some r)
      × Delivers true env.time (text ++ (b'\n' ∷ [])) left cxt net r
      × (stream (r.net).events ≡ rest)
run_follow_context_complete env junk cxt net text left reply rest mem live ready h lacks fits
      carries ok =
    let line : List ℕ = text ++ (b'\n' ∷ []) in
    let size : length line ≡ length text + 1 = length-append text (b'\n' ∷ []) in
    let out = read_line_complete text left 8180 h lacks fits in
    run-Delivers env junk cxt net 1 line (terminator (length text + 1) 8180) left reply rest
      (out.0).dst (out.0).dused (out.0).rest mem live ready
      (ground (arith, unread_bytes_lem h, length-append text (b'\n' ∷ left)))
      (out.1
        ∙ ap
            (λ z.
              some
                (record { ret = z; dst = (out.0).dst; dused = (out.0).dused; rest = (out.0).rest }))
            out.2)
      out.3 (out.4 ∙ sym size) out.5 out.6 refl
      (subst (λ k. Carries net (12 + k) reply rest) (sym size) carries) ok

not_empty :
    (used : ℕ) (q : List ℕ)
    → used ≡ min 8180 (length q)
    → 0 < length q
    → (0 == 0 && used == 0) ≡ false
not_empty used q e h = ground (arith, positive)
  where
    positive : 0 < used
    positive = omega (arith, e, h)

-- A line whose end is not there yet, or that is longer than a message: a run sends its bytes, up to
-- 8180 of them, as a part of a line, and leaves the others in the buffer.
pub run_follow_context_partial :
    (env : Env) (junk : ℕ → ℕ) (cxt : FollowContext) (net : Net) (q : List ℕ) (reply : Message)
    (rest : List ℕ)
    → env.heap ≡ some junk
    → is_live net.conn.socket ≡ true
    → IsReady cxt
    → Holds cxt.buffer q
    → Lacks b'\n' (take 8180 q)
    → 0 < length q
    → Carries net (12 + length (take 8180 q)) reply rest
    → reply.code ≡ scm_resp_ok
    → (r : Ran) × (run_follow_context env cxt net ≡ some r)
      × Delivers false env.time (take 8180 q) (drop 8180 q) cxt net r
      × (stream (r.net).events ≡ rest)
run_follow_context_partial env junk cxt net q reply rest mem live ready h lacks some_bytes carries
      ok =
    let out = read_line-partial q 8180 h lacks some_bytes in
    run-Delivers env junk cxt net 0 (take 8180 q) (terminator (length (take 8180 q)) 8180)
      (drop 8180 q) reply rest (out.0).dst (out.0).dused (out.0).rest mem live ready
      (ground (arith, unread_bytes_lem h, some_bytes))
      (out.1
        ∙ ap
            (λ z.
              some
                (record { ret = z; dst = (out.0).dst; dused = (out.0).dused; rest = (out.0).rest }))
            out.2)
      out.3 (out.4 ∙ sym (length-take 8180 q)) out.5 out.6
      (not_empty (out.0).dused q out.4 some_bytes) carries ok
