-- ===== src/EndToEnd/Streams.antt =====
-- The two daemons together on a stream of lines: all that a follower (follower/main.c) has in its
-- buffer on its way to the file of the aggregator (aggregator/main.c).
use compostela.Prelude.{
  ℕ, ◌^◌, ◌≤◌, ◌<◌, ◌≡◌, ◌≢◌, refl, sym, ap, ap₂, ◌∙◌, List, [], ◌∷◌, ◌++◌, some, length, arith,
  true, map, length-append, append-nil,
}
use compostela.AzBuffer.Holds.{Holds}
use compostela.Transport.{Event}
use compostela.Transport.Send.{AllTook}
use compostela.Transport.Receive.{stream}
use compostela.Follower.Connection.{is_live}
use compostela.Follower.Connection.Framing.{frame}
use compostela.Follower.Context
use compostela.Follower.Context.{FollowContext, Net}
use compostela.Follower.Run.Line.{IsReady}
use compostela.Follower.Run.Draining.{
  Job, line_of, drain, lines, messages, replies, cost, AllJobs, Drained, drain-Drained,
}
use compostela.Aggregator.Channels.{Channel}
use compostela.Aggregator.Files.{Env}
use compostela.Aggregator.Files.Merging.{bytes_at}
use compostela.Aggregator.Handlers.{Server}
use compostela.Aggregator.Receive.Stream.{
  turns, framed_lines, all_text, AllFit, IsKept, turns-Received,
}
use compostela.EndToEnd.{carrier-line_message}

abbrev timed_line : Job → ℕ × List ℕ
timed_line job = (job.time, line_of job)

abbrev pub AllTimed : List Job → Type 0
AllTimed [] = Unit {0}
AllTimed (job ∷ jobs) = (job.time < 2 ^ 64) × AllTimed jobs

-- What the follower sends is what the aggregator takes for lines.
messages-framed_lines :
    (channel : ℕ) (jobs : List Job)
    → messages channel jobs ≡ framed_lines channel (map timed_line jobs)
messages-framed_lines channel [] = refl
messages-framed_lines channel (job ∷ jobs) =
    ap₂ (λ m t. frame m ++ t) (carrier-line_message channel job.time (line_of job))
      (messages-framed_lines channel jobs)

all_text-lines : (jobs : List Job) → all_text (map timed_line jobs) ≡ lines jobs
all_text-lines [] = refl
all_text-lines (job ∷ jobs) = ap (λ t. line_of job ++ t) (all_text-lines jobs)

length-map : (jobs : List Job) → length (map timed_line jobs) ≡ length jobs
length-map [] = refl
length-map (job ∷ jobs) = omega (arith, length-map jobs)

jobs-AllFit : (jobs : List Job) → AllJobs jobs → AllTimed jobs → AllFit (map timed_line jobs)
jobs-AllFit [] proper timed = tt
jobs-AllFit (job ∷ jobs) proper timed = (
  timed.0,
  omega (arith, proper.0.fits, length-append job.text (b'\n' ∷ [])),
  jobs-AllFit jobs proper.1 timed.1,
)

-- The file of the channel at the end: what it had, the part that waited, and all the lines.
pub record Written (s : Server) (channel : Channel) (q : List ℕ) (jobs : List Job) (s' : Server)
    : Type 0 where
  pub bytes :
      bytes_at s'.files channel.filename_fullpath
      ≡ (bytes_at s.files channel.filename_fullpath ++ q) ++ lines jobs
  pub others : (p : List ℕ) → channel.filename_fullpath ≢ p → s'.files p ≡ s.files p

-- A stream of lines, from end to end. A follower has whole lines in its buffer, one at least, and
-- what follows them; the network takes its bytes and brings an OK for each line. So many runs send
-- them all, and leave what follows. However the network cuts their messages on the way to an
-- aggregator that keeps the channel apart, so many turns of it make the file of the channel grow by
-- the part of a line that waited and exactly the bytes of the lines, in their order; no other file
-- changes.
pub stream_delivered :
    (follower : Context.Env) (junk : ℕ → ℕ) (cxt : FollowContext) (net : Net) (job : Job)
    (jobs : List Job) (left rest : List ℕ) (env : Env) (self : ℕ) (stack memory : List ℕ)
    (s : Server) (before : List Channel) (channel : Channel) (after : List Channel)
    (q more : List ℕ) (events : List Event)
    → follower.heap ≡ some junk
    → is_live net.conn.socket ≡ true
    → IsReady cxt
    → AllJobs (job ∷ jobs)
    → AllTimed (job ∷ jobs)
    → Holds cxt.buffer (lines (job ∷ jobs) ++ left)
    → AllTook net.answers
    → cost (job ∷ jobs) ≤ length net.answers
    → stream net.events ≡ replies (job ∷ jobs) ++ rest
    → IsKept env s before channel after q
    → channel.id ≡ cxt.channel
    → stream events ≡ messages cxt.channel (job ∷ jobs) ++ more
    → ((r : FollowContext × Net) × (drain follower (job ∷ jobs) cxt net ≡ some r)
        × Drained cxt net (job ∷ jobs) left rest r)
      × ((t : Server × List Event) × (turns env self stack memory (length (job ∷ jobs)) s events
            ≡ some t)
          × Written s channel q (job ∷ jobs) t.0
          × (stream t.1 ≡ more))
stream_delivered follower junk cxt net job jobs left rest env self stack memory s before channel
      after q more events mem live ready proper timed h takes enough answered kept same arrives =
    let all : List Job = job ∷ jobs in
    let framed : stream events ≡ framed_lines channel.id (map timed_line all) ++ more =
      arrives
      ∙ ap (λ c. messages c all ++ more) (sym same)
      ∙ ap (λ t. t ++ more) (messages-framed_lines channel.id all) in
    let took =
      turns-Received env self stack memory (map timed_line all) s before channel after q more events
        kept (jobs-AllFit all proper timed) framed in
    let path : List ℕ = channel.filename_fullpath in
    (
      drain-Drained follower junk all cxt net left rest mem live ready proper h takes enough
          answered,
      (
        took.0,
        ap (λ n. turns env self stack memory n s events) (sym (length-map all)) ∙ took.1,
        record {
          bytes =
              sym (append-nil (bytes_at (took.0).0.files path))
              ∙ took.2.bytes
              ∙ ap (λ t. (bytes_at s.files path ++ q) ++ t) (all_text-lines all);
          others = took.2.others;
        },
        took.2.left,
      ),
    )
