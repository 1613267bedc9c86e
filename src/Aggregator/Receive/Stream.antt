-- ===== src/Aggregator/Receive/Stream.antt =====
-- Turns of `do_receive` of aggregator/main.c, one after the other, on a stream of whole lines.
use compostela.Prelude.{
  ℕ, zero, suc, ◌+◌, ◌^◌, ◌≤◌, ◌<◌, ◌≡◌, refl, sym, ap, ◌∙◌, ◌≢◌, List, [], ◌∷◌, ◌++◌, Option, none,
  some, ◌>>=◌, length, arith, true, false, subst, append-nil, append_assoc,
}
use compostela.AzBuffer.{AzBuffer}
use compostela.AzBuffer.Holds.{Holds}
use compostela.Supports.{Files, append_to}
use compostela.Transport.{Event}
use compostela.Transport.Receive.{stream}
use compostela.Follower.Connection.Framing.{frame}
use compostela.Message.{Header}
use compostela.Message.Bytes.{header_of}
use compostela.Aggregator.Channels.{Channel, set_buffer}
use compostela.Aggregator.Channels.Registry.{IsRegistry}
use compostela.Aggregator.Channels.Buffers.{set_buffer-found, set_buffer-IsRegistry}
use compostela.Aggregator.Files.{Env}
use compostela.Aggregator.Files.Merging.{bytes_at, bytes_at-append_to, append_to-other}
use compostela.Aggregator.Handlers.{Server, connection_send, wants_merge, wants_separate}
use compostela.Aggregator.Handlers.Data.{take_line-separate}
use compostela.Aggregator.Handlers.Replies.{answered}
use compostela.Aggregator.Receive.{Turn, served, dropped, do_receive, bufsize}
use compostela.Aggregator.Receive.Line.{line_message, do_receive-line}

-- What follows a turn: the next, where the connection goes on.
pub goes_on : Option (Option Turn) → Option (Server × List Event)
goes_on none = none
goes_on (some none) = none
goes_on (some (some (served s events))) = some (s, events)
goes_on (some (some (dropped events))) = none

-- So many turns on a connection. Where one faults, waits or ends the connection there is no result.
pub turns : Env → ℕ → List ℕ → List ℕ → ℕ → Server → List Event → Option (Server × List Event)
turns env self stack memory zero s events = some (s, events)
turns env self stack memory (suc n) s events =
    goes_on (do_receive env self stack memory s events) >>= λ r.
    turns env self stack memory n r.0 r.1

-- Lines with their times, as they come on a channel.
abbrev pub framed_lines : ℕ → List (ℕ × List ℕ) → List ℕ
framed_lines id [] = []
framed_lines id ((time, text) ∷ more) =
    frame (line_message id (2 ^ 31) time text) ++ framed_lines id more

abbrev pub all_text : List (ℕ × List ℕ) → List ℕ
all_text [] = []
all_text ((time, text) ∷ more) = text ++ all_text more

abbrev pub AllFit : List (ℕ × List ℕ) → Type 0
AllFit [] = Unit {0}
AllFit ((time, text) ∷ more) = (time < 2 ^ 64) × (12 + length text ≤ bufsize) × AllFit more

-- The parts of a line that wait: none, behind the end of a line.
abbrev pub waiting : List ℕ → List (ℕ × List ℕ) → List ℕ
waiting q [] = q
waiting q (line ∷ more) = []

-- A channel that is only kept apart, in its place, with a buffer in order.
pub record IsKept (env : Env) (s : Server) (before : List Channel) (channel : Channel)
    (after : List Channel) (q : List ℕ) : Type 0 where
  pub here : (s.conn).channel_list ≡ before ++ (channel ∷ after)
  pub registry : IsRegistry (before ++ (channel ∷ after))
  pub numbered : 0 < channel.id
  pub small : channel.id < 2 ^ 15
  pub apart : wants_merge channel.aggregate_context ≡ false
  pub separate : wants_separate channel.aggregate_context ≡ true
  pub opens : env.creatable channel.filename_fullpath ≡ true
  pub holds : Holds channel.buffer q

-- What the turns leave: the file with the text behind what it had and what waited, no other file
-- changed, and the channel in its place.
pub record Received (env : Env) (s : Server) (before : List Channel) (channel : Channel)
    (after : List Channel) (q : List ℕ) (lines : List (ℕ × List ℕ)) (more : List ℕ)
    (r : Server × List Event) : Type 0 where
  pub buffer : AzBuffer
  pub kept : IsKept env r.0 before (record channel { buffer = buffer }) after (waiting q lines)
  pub bytes :
      bytes_at (r.0).files channel.filename_fullpath ++ waiting q lines
      ≡ (bytes_at s.files channel.filename_fullpath ++ q) ++ all_text lines
  pub others : (p : List ℕ) → channel.filename_fullpath ≢ p → (r.0).files p ≡ s.files p
  pub left : stream r.1 ≡ more

-- The channel after a line, still in its place.
answered-IsKept :
    (env : Env) (s : Server) (before : List Channel) (channel : Channel) (after : List Channel)
    (q : List ℕ) (h : Header) (files : Files) (b : AzBuffer)
    → Holds b []
    → IsKept env s before channel after q
    → IsKept env (answered h channel s files b) before (record channel { buffer = b }) after []
unfolding connection_send
answered-IsKept env s before channel after q h files b holds k =
    let found = set_buffer-found before channel after b k.registry.apart in
    record {
      here = ap (λ li. set_buffer li channel.self b) k.here ∙ found;
      registry =
          subst IsRegistry found
            (set_buffer-IsRegistry (before ++ (channel ∷ after)) channel.self b k.registry);
      numbered = k.numbered;
      small = k.small;
      apart = k.apart;
      separate = k.separate;
      opens = k.opens;
      holds = holds;
    }

-- One line.
receive_one :
    (env : Env) (self : ℕ) (stack memory : List ℕ) (s : Server) (before : List Channel)
    (channel : Channel) (after : List Channel) (q : List ℕ) (time : ℕ) (text more : List ℕ)
    (events : List Event)
    → IsKept env s before channel after q
    → time < 2 ^ 64
    → 12 + length text ≤ bufsize
    → stream events ≡ frame (line_message channel.id (2 ^ 31) time text) ++ more
    → (r : Server × List Event) × (goes_on (do_receive env self stack memory s events) ≡ some r)
      × Received env s before channel after q ((time, text) ∷ []) more r
unfolding goes_on connection_send
receive_one env self stack memory s before channel after q time text more events k timed fits
      arrives =
    let wrote =
      take_line-separate env s.conn channel (2 ^ 31) time text s.files q refl k.apart k.separate
        k.opens k.holds in
    let turn =
      do_receive-line env self stack memory s before channel after (2 ^ 31) time text more events
        k.here k.registry k.numbered k.small (omega arith) timed fits arrives wrote.1 in
    let files : Files = append_to s.files channel.filename_fullpath (q ++ text) in
    let s' : Server =
      answered (header_of (line_message channel.id (2 ^ 31) time text)) channel s files wrote.0 in
    (
      (s', turn.0),
      ap goes_on turn.1,
      record {
        buffer = wrote.0;
        kept =
            answered-IsKept env s before channel after q
              (header_of (line_message channel.id (2 ^ 31) time text)) files wrote.0 wrote.2 k;
        bytes =
            append-nil (bytes_at files channel.filename_fullpath)
            ∙ bytes_at-append_to s.files channel.filename_fullpath (q ++ text)
            ∙ sym (append_assoc (bytes_at s.files channel.filename_fullpath) q text)
            ∙ ap (λ t. (bytes_at s.files channel.filename_fullpath ++ q) ++ t)
                (sym (append-nil text));
        others = λ p ne. append_to-other s.files channel.filename_fullpath (q ++ text) p ne;
        left = turn.2;
      },
    )

waiting_nil : (lines : List (ℕ × List ℕ)) → waiting [] lines ≡ []
waiting_nil [] = refl
waiting_nil (line ∷ lines) = refl

-- A line and what comes behind it.
one_then :
    {env : Env} {s : Server} {before : List Channel} {channel : Channel} {after : List Channel}
    {q : List ℕ} {time : ℕ} {text : List ℕ} {lines : List (ℕ × List ℕ)} {next more : List ℕ}
    {r1 r : Server × List Event}
    (first : Received env s before channel after q ((time, text) ∷ []) next r1)
    → Received env r1.0 before (record channel { buffer = first.buffer }) after [] lines more r
    → Received env s before channel after q ((time, text) ∷ lines) more r
one_then {env} {s} {before} {channel} {after} {q} {time} {text} {lines} {next} {more} {r1} {r} first
      rest =
    let path : List ℕ = channel.filename_fullpath in
    let had : List ℕ = bytes_at s.files path ++ q in
    record {
      buffer = rest.buffer;
      kept =
          subst (IsKept env r.0 before (record channel { buffer = rest.buffer }) after)
            (waiting_nil lines) rest.kept;
      bytes =
          ap (λ w. bytes_at (r.0).files path ++ w) (sym (waiting_nil lines))
          ∙ rest.bytes
          ∙ ap (λ t. t ++ all_text lines) (first.bytes ∙ ap (λ t. had ++ t) (append-nil text))
          ∙ append_assoc had text (all_text lines);
      others = λ p ne. rest.others p ne ∙ first.others p ne;
      left = rest.left;
    }

-- Any number of lines, each with an end, that come for a channel that is only kept apart, cut by
-- the network in any way: so many turns put all of them at the end of the file of the channel, in
-- their order, behind the part of a line that waited; no other file changes, and nothing waits
-- behind the last. What follows on the stream is left.
pub turns-Received :
    (env : Env) (self : ℕ) (stack memory : List ℕ) (lines : List (ℕ × List ℕ)) (s : Server)
    (before : List Channel) (channel : Channel) (after : List Channel) (q more : List ℕ)
    (events : List Event)
    → IsKept env s before channel after q
    → AllFit lines
    → stream events ≡ framed_lines channel.id lines ++ more
    → (r : Server × List Event) × (turns env self stack memory (length lines) s events ≡ some r)
      × Received env s before channel after q lines more r
unfolding turns
turns-Received env self stack memory [] s before channel after q more events k fit arrives = (
  (s, events),
  refl,
  record {
    buffer = channel.buffer;
    kept = k;
    bytes = sym (append-nil (bytes_at s.files channel.filename_fullpath ++ q));
    others = λ p ne. refl;
    left = arrives;
  },
)
turns-Received env self stack memory ((time, text) ∷ lines) s before channel after q more events k
      fit arrives =
    let one =
      receive_one env self stack memory s before channel after q time text
        (framed_lines channel.id lines ++ more) events k fit.0 fit.1
        (arrives
          ∙ append_assoc (frame (line_message channel.id (2 ^ 31) time text))
              (framed_lines channel.id lines) more) in
    let first = one.2 in
    let rest =
      turns-Received env self stack memory lines (one.0).0 before
        (record channel { buffer = first.buffer }) after [] more (one.0).1 first.kept fit.2
        first.left in
    (rest.0, rw (one.1) rest.1, one_then first rest.2)
