-- ===== src/Follower/Run/Draining.antt =====
-- Runs of `_run_follow_context` of follower/main.c, one after the other, as long as there are whole
-- lines in the buffer of the context.
use compostela.Prelude.{
  ℕ, ◌+◌, ◌≤◌, ◌<◌, ◌≡◌, refl, sym, ap, ◌∙◌, List, [], ◌∷◌, ◌++◌, Option, some, ◌>>=◌, length,
  arith, true, subst, append-nil, append_assoc, length-append,
}
use compostela.AzBuffer.Holds.{Holds}
use compostela.AzBuffer.ReadLine.{Lacks}
use compostela.Transport.Send.{AllTook}
use compostela.Transport.Receive.{stream}
use compostela.Message.{Message, scm_resp_ok}
use compostela.Message.Bytes.{IsValid}
use compostela.Follower.Connection.{is_live}
use compostela.Follower.Connection.Framing.{frame}
use compostela.Follower.Context.{FollowContext, Net, Env}
use compostela.Follower.Run.{run_follow_context}
use compostela.Follower.Run.Delivery.{carrier}
use compostela.Follower.Run.Line.{IsReady, run_follow_context_complete}

-- A line with the time of the run that reads it, and the answer that the aggregator gives.
pub record Job : Type 0 where
  pub time : ℕ
  pub text : List ℕ
  pub reply : Message

abbrev pub line_of : Job → List ℕ
line_of job = job.text ++ (b'\n' ∷ [])

-- The runs, as `main` makes them: what a run returns is not kept.
pub drain : Env → List Job → FollowContext → Net → Option (FollowContext × Net)
drain env [] cxt net = some (cxt, net)
drain env (job ∷ jobs) cxt net =
    run_follow_context (record env { time = job.time }) cxt net >>= λ r. drain env jobs r.cxt r.net

-- The lines as they lie in the buffer, their messages, the answers, and what the network has to take.
abbrev pub lines : List Job → List ℕ
lines [] = []
lines (job ∷ jobs) = line_of job ++ lines jobs

abbrev pub messages : ℕ → List Job → List ℕ
messages channel [] = []
messages channel (job ∷ jobs) =
    frame (carrier true channel job.time (line_of job)) ++ messages channel jobs

abbrev pub replies : List Job → List ℕ
replies [] = []
replies (job ∷ jobs) = frame job.reply ++ replies jobs

abbrev pub cost : List Job → ℕ
cost [] = 0
cost (job ∷ jobs) = 20 + length (line_of job) + cost jobs

-- A line that fits a message, with an OK for an answer.
pub record IsJob (job : Job) : Type 0 where
  pub one_line : Lacks b'\n' job.text
  pub fits : length job.text < 8180
  pub valid : IsValid job.reply
  pub ok : (job.reply).code ≡ scm_resp_ok

abbrev pub AllJobs : List Job → Type 0
AllJobs [] = Unit {0}
AllJobs (job ∷ jobs) = IsJob job × AllJobs jobs

-- What the runs come to.
pub record Drained (cxt : FollowContext) (net : Net) (jobs : List Job) (left rest : List ℕ)
    (r : FollowContext × Net) : Type 0 where
  pub wire : (r.1).wire ≡ net.wire ++ messages cxt.channel jobs
  pub holds : Holds (r.0).buffer left
  pub ready : IsReady r.0
  pub answered : stream (r.1).events ≡ rest

-- However many whole lines are in the buffer: so many runs, over a network that takes every byte and
-- with an OK for each, send all of them, each in a message of its own with its newline, in the order
-- of the file; what follows the last is left, and the context is ready for it.
pub drain-Drained :
    (env : Env) (junk : ℕ → ℕ) (jobs : List Job) (cxt : FollowContext) (net : Net)
    (left rest : List ℕ)
    → env.heap ≡ some junk
    → is_live net.conn.socket ≡ true
    → IsReady cxt
    → AllJobs jobs
    → Holds cxt.buffer (lines jobs ++ left)
    → AllTook net.answers
    → cost jobs ≤ length net.answers
    → stream net.events ≡ replies jobs ++ rest
    → (r : FollowContext × Net) × (drain env jobs cxt net ≡ some r)
      × Drained cxt net jobs left rest r
unfolding drain
drain-Drained env junk [] cxt net left rest mem live ready proper h takes enough answered = (
  (cxt, net),
  refl,
  record { wire = sym (append-nil net.wire); holds = h; ready = ready; answered = answered },
)
drain-Drained env junk (job ∷ jobs) cxt net left rest mem live ready proper h takes enough
      answered =
    let size : length (line_of job) ≡ length job.text + 1 = length-append job.text (b'\n' ∷ []) in
    let split : (line_of job ++ lines jobs) ++ left ≡ job.text ++ (b'\n' ∷ (lines jobs ++ left)) =
      append_assoc (line_of job) (lines jobs) left
      ∙ append_assoc job.text (b'\n' ∷ []) (lines jobs ++ left) in
    let run =
      run_follow_context_complete (record env { time = job.time }) junk cxt net job.text
        (lines jobs ++ left) job.reply (replies jobs ++ rest) mem live ready
        (subst (Holds cxt.buffer) split h) proper.0.one_line proper.0.fits
        (record {
          takes = takes;
          enough = omega (arith, enough, size);
          valid = proper.0.valid;
          answered = answered ∙ append_assoc (frame job.reply) (replies jobs) rest;
        })
        proper.0.ok in
    let d = run.2 in
    let more =
      drain-Drained env junk jobs (run.0).cxt (run.0).net left rest mem
        (ap (λ c. is_live c.socket) d.conn ∙ live) d.ready proper.1 d.holds d.spends.takes
        (omega (arith, d.spends.enough, enough)) run.3 in
    (
      more.0,
      rw (run.1) more.1,
      record {
        wire =
            more.2.wire
            ∙ ap (λ c. (run.0).net.wire ++ messages c jobs) d.channel
            ∙ ap (λ t. t ++ messages cxt.channel jobs) d.wire
            ∙ append_assoc net.wire (frame (carrier true cxt.channel job.time (line_of job)))
                (messages cxt.channel jobs);
        holds = more.2.holds;
        ready = more.2.ready;
        answered = more.2.answered;
      },
    )
