-- ===== src/Aggregator/Handlers/Data.antt =====
-- How `handler_data` of aggregator/main.c puts lines together again from their parts.
use compostela.Prelude.{
  ℕ, ◌+◌, ◌-◌, ◌^◌, ◌≤◌, ◌<◌, ◌≡◌, subst, List, [], ◌∷◌, ◌++◌, some, ◌>>=◌, true, false, leb, ltb,
  arith, Bool-cases, inl, inr, length, take, take_all, min,
}
use compostela.Prelude.Words.{add64}
use compostela.AzBuffer.{AzBuffer, unused_bytes, resize, fetch_bytes}
use compostela.AzBuffer.Holds.{Holds, unused_bytes_lem}
use compostela.AzBuffer.Fetch.{fetch_bytes_lem, resize_lem}
use compostela.Supports.{Files, append_to}
use compostela.Aggregator.Channels.{Channel, Connection}
use compostela.Aggregator.Files.{Env, mk_path, stamp}
use compostela.Aggregator.Files.Merging.{do_append_file_lem, do_merge_file_lem}
use compostela.Aggregator.Handlers.{
  keep_part, take_line, top_bit, wants_merge, wants_separate, merge_step, separate_step,
}

stored_all :
    {b : AzBuffer} {q : List ℕ} (text : List ℕ)
    → Holds b q
    → b.used + length text ≤ b.size
    → (b' : AzBuffer) × ((fetch_bytes b text (length text) >>= λ r. some (r.1)) ≡ some b')
      × Holds b' (q ++ text)
      × (b'.size ≡ b.size)
stored_all {b} {q} text h fits =
    let done = fetch_bytes_lem text (length text) h (omega arith) in
    let all : take (min (b.size - b.used) (length text)) text ≡ text =
      take_all _ text (omega arith) in
    (done.0, rw (done.1), subst (λ t. Holds done.0 (q ++ t)) all done.2, done.3)

-- With memory at hand, a part of a line is kept behind the parts before it, whatever its length:
-- the buffer grows where it has to, and the assertion behind that holds.
pub keep_part_lem :
    (env : Env) (junk : ℕ → ℕ) (text : List ℕ) {b : AzBuffer} {q : List ℕ}
    → env.heap ≡ some junk
    → Holds b q
    → length text + b.size < 2 ^ 63
    → (b' : AzBuffer) × (keep_part env b text ≡ some b')
      × Holds b' (q ++ text)
      × (b'.size ≤ b.size + length text)
unfolding keep_part
keep_part_lem env junk text {b} {q} mem h small =
    elim (Bool-cases (ltb (unused_bytes b) (length text))) [
      | inl short ↦
          let newsize : ℕ = length text + b.size in
          let grown = resize_lem junk newsize h (omega (arith, h.room)) small in
          let wide : AzBuffer = (resize (some junk) b newsize).1 in
          let done = stored_all text grown.1 (omega (arith, grown.2, grown.4, h.room)) in
          (
            done.0,
            rw
                (
                  short,
                  mem,
                  exact,
                  leb_room wide (omega (arith, unused_bytes_lem grown.1, grown.2, grown.4, h.room)),
                )
                done.1,
            done.2,
            omega (arith, done.3, grown.2),
          )
      | inr roomy ↦
          let fits : length text ≤ unused_bytes b = ground (arith, roomy) in
          let done = stored_all text h (omega (arith, fits, unused_bytes_lem h)) in
          (done.0, rw (roomy, leb_room b fits) done.1, done.2, omega (arith, done.3))
    ]
  where
    exact : add64 (length text) b.size ≡ length text + b.size
    exact = omega arith

    leb_room :
        (g : AzBuffer) → length text ≤ unused_bytes g → leb (length text) (unused_bytes g) ≡ true
    leb_room g le = ground arith

-- The attributes of a part of a line, and of the end of one.
abbrev pub IsPart : ℕ → Type 0
IsPart attr = top_bit attr ≡ false

abbrev pub IsEnd : ℕ → Type 0
IsEnd attr = top_bit attr ≡ true

-- A part of a line changes no file: where there is memory, it is kept behind the parts that the
-- buffer of the channel holds, and the buffer grows by its length at most.
pub take_line-part :
    (env : Env) (junk : ℕ → ℕ) (conn : Connection) (channel : Channel) (attr ts : ℕ) (text : List ℕ)
    (files : Files) {q : List ℕ}
    → IsPart attr
    → env.heap ≡ some junk
    → Holds channel.buffer q
    → length text + channel.buffer.size < 2 ^ 63
    → (b' : AzBuffer) × (take_line env conn channel attr ts text files ≡ some (files, b'))
      × Holds b' (q ++ text)
      × (b'.size ≤ channel.buffer.size + length text)
unfolding take_line
take_line-part env junk conn channel attr ts text files part mem h small =
    let kept = keep_part_lem env junk text mem h small in
    (kept.0, rw (part, kept.1), kept.2, kept.3)

-- In a channel that is only kept apart, the end of a line puts the whole line, the parts that
-- came before and then its end, at the end of the channel's own file, and leaves no part behind.
pub take_line-separate :
    (env : Env) (conn : Connection) (channel : Channel) (attr ts : ℕ) (text : List ℕ)
    (files : Files) (q : List ℕ)
    → IsEnd attr
    → wants_merge channel.aggregate_context ≡ false
    → wants_separate channel.aggregate_context ≡ true
    → env.creatable channel.filename_fullpath ≡ true
    → Holds channel.buffer q
    → (b' : AzBuffer) × (take_line env conn channel attr ts text files
        ≡ some (append_to files channel.filename_fullpath (q ++ text), b'))
      × Holds b' []
      × (b'.size ≡ channel.buffer.size)
unfolding take_line merge_step separate_step
take_line-separate env conn channel attr ts text files q end apart separate opens h =
    let wrote = do_append_file_lem env files channel.filename_fullpath text q opens h in
    (wrote.0, rw (end, apart, separate, wrote.1), wrote.2, wrote.3)

merge_step_lem :
    (env : Env) (conn : Connection) (channel : Channel) (ts : ℕ) (text : List ℕ) (files : Files)
    (dir name time q : List ℕ)
    → wants_merge channel.aggregate_context ≡ true
    → env.logdir ≡ some dir
    → conn.remote_addr ≡ some name
    → stamp env ts channel.aggregate_context ≡ some time
    → env.creatable (mk_path dir channel.filename) ≡ true
    → Holds channel.buffer q
    → (b' : AzBuffer) × (merge_step env conn channel ts text (files, channel.buffer)
        ≡ some (
          append_to files
              (mk_path dir channel.filename)
              (name ++ (time ++ (b':' ∷ b' ' ∷ q ++ text))),
          b',
        ))
      × Holds b' []
unfolding merge_step
merge_step_lem env conn channel ts text files dir name time q merge root host stamped opens h =
    let one =
      do_merge_file_lem env files dir name channel.filename ts time text channel.aggregate_context q
        root stamped opens h in
    (one.0, rw (merge, host, one.1), one.2)

separate_step_lem :
    (env : Env) (channel : Channel) (text : List ℕ) (files : Files) {b : AzBuffer} (q : List ℕ)
    → wants_separate channel.aggregate_context ≡ true
    → env.creatable channel.filename_fullpath ≡ true
    → Holds b q
    → (b' : AzBuffer) × (separate_step env channel text (files, b)
        ≡ some (append_to files channel.filename_fullpath (q ++ text), b'))
      × Holds b' []
unfolding separate_step
separate_step_lem env channel text files q separate opens h =
    let two = do_append_file_lem env files channel.filename_fullpath text q opens h in
    (two.0, rw (separate, two.1), two.2)

-- In a channel that is merged and kept apart, as it is by default, the end of a line puts the whole
-- line into the merged file only: the channel's own file gets the end without the parts before.
pub take_line-both :
    (env : Env) (conn : Connection) (channel : Channel) (attr ts : ℕ) (text : List ℕ)
    (files : Files) (dir name time q : List ℕ)
    → IsEnd attr
    → wants_merge channel.aggregate_context ≡ true
    → wants_separate channel.aggregate_context ≡ true
    → env.logdir ≡ some dir
    → conn.remote_addr ≡ some name
    → stamp env ts channel.aggregate_context ≡ some time
    → env.creatable (mk_path dir channel.filename) ≡ true
    → env.creatable channel.filename_fullpath ≡ true
    → Holds channel.buffer q
    → let merged =
        append_to files
          (mk_path dir channel.filename)
          (name ++ (time ++ (b':' ∷ b' ' ∷ q ++ text))) in
      (b' : AzBuffer) × (take_line env conn channel attr ts text files
        ≡ some (append_to merged channel.filename_fullpath text, b'))
      × Holds b' []
unfolding take_line
take_line-both env conn channel attr ts text files dir name time q end merge separate root host
      stamped opens opens' h =
    let one =
      merge_step_lem env conn channel ts text files dir name time q merge root host stamped opens
        h in
    let merged : Files =
      append_to files (mk_path dir channel.filename)
        (name ++ (time ++ (b':' ∷ b' ' ∷ q ++ text))) in
    let two = separate_step_lem env channel text merged [] separate opens' one.2 in
    (two.0, rw (end, one.1) two.1, two.2)
