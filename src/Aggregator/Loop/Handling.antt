-- ===== src/Aggregator/Loop/Handling.antt =====
-- Whatever a message is, the handlers of aggregator/main.c leave the channels in order.
use compostela.Prelude.{
  ℕ, ◌+◌, ◌^◌, ◌≤◌, ◌<◌, ◌≡◌, refl, sym, ◌∙◌, subst, List, [], ◌++◌, Option, some, arith, length,
  Bool-cases, inl, inr, >>=-eq-some,
}
use compostela.Prelude.Words.{ℤ}
use compostela.AzBuffer.{AzBuffer}
use compostela.AzBuffer.Holds.{Holds}
use compostela.Supports.{Files}
use compostela.Aggregator.Config.{AggregateContext}
use compostela.Aggregator.Channels.{Channel, Connection}
use compostela.Aggregator.Files.{Env, do_merge_file, do_append_file, flushed, stamp, mk_path}
use compostela.Aggregator.Files.Merging.{flushed_lem}
use compostela.Aggregator.Handlers.{
  take_line, merge_step, separate_step, top_bit, wants_merge, wants_separate,
}
use compostela.Aggregator.Handlers.Data.{take_line-part}

-- A buffer that holds something, in a block of the same size.
abbrev IsLike : AzBuffer → AzBuffer → Type 0
IsLike b b' = ((q : List ℕ) × Holds b' q) × (b'.size ≡ b.size)

flushed-Holds :
    {b : AzBuffer} (q : List ℕ) {r : List ℕ × AzBuffer}
    → Holds b q
    → flushed b ≡ some r
    → IsLike b r.1
flushed-Holds {b} q {r} h e =
    let it = flushed_lem q h in
    let same : it.0 ≡ r.1 = ground (arith, it.1, e) in subst (IsLike b) same (([], it.2), it.3)

do_append_file-Holds :
    (env : Env) (files : Files) (path text : List ℕ) {b : AzBuffer} (q : List ℕ)
    {r : ℤ × Files × AzBuffer}
    → Holds b q
    → do_append_file env files path b text ≡ some r
    → IsLike b r.2
unfolding do_append_file
do_append_file-Holds env files path text {b} q {r} h e = elim (Bool-cases (env.creatable path)) [
  | inl opens ↦
      let flush = >>=-eq-some (flushed b) _ (rw opens at e) in
      let same : (flush.0).1 ≡ r.2 = ground (arith, flush.2) in
      subst (IsLike b) same (flushed-Holds q h flush.1)
  | inr shut ↦ let same : b ≡ r.2 = ground (arith, shut, e) in subst (IsLike b) same ((q, h), refl)
]

do_merge_file-Holds :
    (env : Env) (files : Files) (host : Option (List ℕ)) (path : List ℕ) (ts : ℕ) (text : List ℕ)
    (aggr : Option AggregateContext) {b : AzBuffer} (q : List ℕ) {r : ℤ × Files × AzBuffer}
    → Holds b q
    → do_merge_file env files host path ts b text aggr ≡ some r
    → IsLike b r.2
unfolding do_merge_file
do_merge_file-Holds env files host path ts text aggr {b} q {r} h e =
    let dir = >>=-eq-some env.logdir _ e in
    let time = >>=-eq-some (stamp env ts aggr) _ dir.2 in
    elim (Bool-cases (env.creatable (mk_path dir.0 path))) [
      | inl opens ↦
          let name = >>=-eq-some host _ (rw opens at (time.2)) in
          let flush = >>=-eq-some (flushed b) _ name.2 in
          let same : (flush.0).1 ≡ r.2 = ground (arith, flush.2) in
          subst (IsLike b) same (flushed-Holds q h flush.1)
      | inr shut ↦
          let same : b ≡ r.2 = ground (arith, shut, time.2) in subst (IsLike b) same ((q, h), refl)
    ]

merge_step-Holds :
    (env : Env) (conn : Connection) (channel : Channel) (ts : ℕ) (text : List ℕ) (files : Files)
    {b : AzBuffer} (q : List ℕ) {r : Files × AzBuffer}
    → Holds b q
    → merge_step env conn channel ts text (files, b) ≡ some r
    → IsLike b r.1
unfolding merge_step
merge_step-Holds env conn channel ts text files {b} q {r} h e =
    elim (Bool-cases (wants_merge channel.aggregate_context)) [
      | inl wanted ↦
          let done =
            >>=-eq-some
              (do_merge_file env files conn.remote_addr channel.filename ts b text
                channel.aggregate_context)
              (λ o. some (o.1, o.2)) (sym (rw wanted refl) ∙ e) in
          let same : (done.0).2 ≡ r.1 = ground (arith, done.2) in
          subst (IsLike b) same (
            do_merge_file-Holds env files conn.remote_addr channel.filename ts text
              channel.aggregate_context q h done.1)
      | inr unwanted ↦
          let same : b ≡ r.1 = ground (arith, unwanted, e) in subst (IsLike b) same ((q, h), refl)
    ]

separate_step-Holds :
    (env : Env) (channel : Channel) (text : List ℕ) (files : Files) {b : AzBuffer} (q : List ℕ)
    {r : Files × AzBuffer}
    → Holds b q
    → separate_step env channel text (files, b) ≡ some r
    → IsLike b r.1
unfolding separate_step
separate_step-Holds env channel text files {b} q {r} h e =
    elim (Bool-cases (wants_separate channel.aggregate_context)) [
      | inl wanted ↦
          let done =
            >>=-eq-some (do_append_file env files channel.filename_fullpath b text)
              (λ o. some (o.1, o.2)) (sym (rw wanted refl) ∙ e) in
          let same : (done.0).2 ≡ r.1 = ground (arith, done.2) in
          subst (IsLike b) same
            (do_append_file-Holds env files channel.filename_fullpath text q h done.1)
      | inr unwanted ↦
          let same : b ≡ r.1 = ground (arith, unwanted, e) in subst (IsLike b) same ((q, h), refl)
    ]

-- A line, or a part of one, leaves a buffer that holds something, and grows by its length at most,
-- whatever files can be opened.
pub take_line-Holds :
    (env : Env) (junk : ℕ → ℕ) (conn : Connection) (channel : Channel) (attr ts : ℕ) (text : List ℕ)
    (files : Files) (q : List ℕ) {r : Files × AzBuffer}
    → env.heap ≡ some junk
    → Holds channel.buffer q
    → length text + channel.buffer.size < 2 ^ 63
    → take_line env conn channel attr ts text files ≡ some r
    → ((q' : List ℕ) × Holds r.1 q') × (r.1.size ≤ channel.buffer.size + length text)
unfolding take_line
take_line-Holds env junk conn channel attr ts text files q {r} mem h small e =
    elim (Bool-cases (top_bit attr)) [
      | inl end ↦
          let both =
            >>=-eq-some (merge_step env conn channel ts text (files, channel.buffer))
              (separate_step env channel text) (sym (rw end refl) ∙ e) in
          let one = merge_step-Holds env conn channel ts text files q h both.1 in
          let two = separate_step-Holds env channel text (both.0).0 (one.0).0 (one.0).1 both.2 in
          (two.0, omega (arith, one.1, two.1))
      | inr part ↦
          let kept = take_line-part env junk conn channel attr ts text files part mem h small in
          let same : kept.0 ≡ r.1 = ground (arith, kept.1, e) in
          subst
            (λ (b : AzBuffer).
              ((q' : List ℕ) × Holds b q') × (b.size ≤ channel.buffer.size + length text))
            same ((q ++ text, kept.2), kept.3)
    ]
