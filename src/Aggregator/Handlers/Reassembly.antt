-- ===== src/Aggregator/Handlers/Reassembly.antt =====
-- A whole sequence of `DATA` messages on a channel of aggregator/main.c, into the channel's own file.
use compostela.Prelude.{
  ℕ, ◌+◌, ◌^◌, ◌<◌, ◌≡◌, refl, sym, ap, ◌∙◌, ◌≢◌, List, [], ◌∷◌, ◌++◌, Option, some, ◌>>=◌, true,
  false, arith, Bool-cases, inl, inr, length, append_assoc, length-append, append-nil,
}
use compostela.AzBuffer.{AzBuffer}
use compostela.AzBuffer.Holds.{Holds}
use compostela.Supports.{Files, append_to}
use compostela.Aggregator.Channels.{Channel, Connection}
use compostela.Aggregator.Files.{Env}
use compostela.Aggregator.Files.Merging.{bytes_at, bytes_at-append_to, append_to-other}
use compostela.Aggregator.Handlers.{take_line, top_bit, wants_merge, wants_separate}
use compostela.Aggregator.Handlers.Data.{take_line-part, take_line-separate}

-- The messages of a channel, in their order: attributes and text.
abbrev pub texts : List (ℕ × List ℕ) → List ℕ
texts [] = []
texts ((attr, text) ∷ more) = text ++ texts more

pub feed : Env → Connection → Channel → ℕ → List (ℕ × List ℕ) → Files → Option (Files × AzBuffer)
feed env conn channel ts [] files = some (files, channel.buffer)
feed env conn channel ts ((attr, text) ∷ more) files =
    take_line env conn channel attr ts text files >>= λ r.
    feed env conn (record channel { buffer = r.1 }) ts more r.0

-- What a sequence of messages leaves: the bytes of the file and the part that waits are, together,
-- what they were and all the texts behind; no other file changes.
pub record Conserves (path : List ℕ) (files : Files) (q text : List ℕ) (r : Files × AzBuffer)
    : Type 0 where
  pub waiting : List ℕ
  pub holds : Holds r.1 waiting
  pub bytes : bytes_at r.0 path ++ waiting ≡ (bytes_at files path ++ q) ++ text
  pub others : (p : List ℕ) → path ≢ p → r.0 p ≡ files p

part_then :
    {path : List ℕ} {files : Files} {q : List ℕ} {r : Files × AzBuffer} (text more : List ℕ)
    → Conserves path files (q ++ text) more r
    → Conserves path files q (text ++ more) r
part_then {path} {files} {q} text more c = record {
  waiting = c.waiting;
  holds = c.holds;
  bytes =
      c.bytes
      ∙ ap (λ t. t ++ more) (sym (append_assoc (bytes_at files path) q text))
      ∙ append_assoc (bytes_at files path ++ q) text more;
  others = c.others;
}

end_then :
    {path : List ℕ} {files : Files} {q : List ℕ} {r : Files × AzBuffer} (text more : List ℕ)
    → Conserves path (append_to files path (q ++ text)) [] more r
    → Conserves path files q (text ++ more) r
end_then {path} {files} {q} text more c = record {
  waiting = c.waiting;
  holds = c.holds;
  bytes =
      c.bytes
      ∙ ap (λ t. t ++ more)
          (append-nil (bytes_at (append_to files path (q ++ text)) path)
            ∙ bytes_at-append_to files path (q ++ text)
            ∙ sym (append_assoc (bytes_at files path) q text))
      ∙ append_assoc (bytes_at files path ++ q) text more;
  others = λ p ne. c.others p ne ∙ append_to-other files path (q ++ text) p ne;
}

-- In a channel that is only kept apart, whose file can be opened, with memory for the buffer, whatever the cut of the lines into messages, every
-- message is taken, and the file of the channel and the part that waits in its buffer together
-- grow by exactly the texts of the messages, in their order. No other file changes.
pub feed-Conserves :
    (env : Env) (junk : ℕ → ℕ) (conn : Connection) (channel : Channel) (ts : ℕ)
    (messages : List (ℕ × List ℕ)) (files : Files) (q : List ℕ)
    → env.heap ≡ some junk
    → wants_merge channel.aggregate_context ≡ false
    → wants_separate channel.aggregate_context ≡ true
    → env.creatable channel.filename_fullpath ≡ true
    → Holds channel.buffer q
    → length (texts messages) + channel.buffer.size < 2 ^ 63
    → (r : Files × AzBuffer) × (feed env conn channel ts messages files ≡ some r)
      × Conserves channel.filename_fullpath files q (texts messages) r
unfolding feed
feed-Conserves env junk conn channel ts [] files q mem apart separate opens h small = (
  (files, channel.buffer),
  refl,
  record {
    waiting = q;
    holds = h;
    bytes = sym (append-nil (bytes_at files channel.filename_fullpath ++ q));
    others = λ p ne. refl;
  },
)
feed-Conserves env junk conn channel ts ((attr, text) ∷ more) files q mem apart separate opens h
      small =
    let total : length (text ++ texts more) ≡ length text + length (texts more) =
      length-append text (texts more) in
    elim (Bool-cases (top_bit attr)) [
      | inr part ↦
          let kept =
            take_line-part env junk conn channel attr ts text files part mem h
              (omega (arith, total)) in
          let rest =
            feed-Conserves env junk conn (record channel { buffer = kept.0 }) ts more files
              (q ++ text) mem apart separate opens kept.2 (omega (arith, total, kept.3)) in
          (rest.0, rw kept.1 rest.1, part_then text (texts more) rest.2)
      | inl end ↦
          let wrote =
            take_line-separate env conn channel attr ts text files q end apart separate opens h in
          let rest =
            feed-Conserves env junk conn (record channel { buffer = wrote.0 }) ts more
              (append_to files channel.filename_fullpath (q ++ text)) [] mem apart separate opens
              wrote.2 (omega (arith, total, wrote.3)) in
          (rest.0, rw wrote.1 rest.1, end_then text (texts more) rest.2)
    ]
