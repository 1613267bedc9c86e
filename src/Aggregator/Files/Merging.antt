-- ===== src/Aggregator/Files/Merging.antt =====
-- What the file helpers of aggregator/main.c write, and when.
use compostela.Prelude.{
  ℕ, suc, ◌≡◌, refl, ◌≢◌, List, [], ◌∷◌, ◌++◌, Option, some, true, false, ◌==◌, arith, length,
  append-nil, str_eq, str_eq_refl, str_eq_sound, Bool-cases, inl, inr,
}
use compostela.Prelude.Words.{pos}
use compostela.AzBuffer.{AzBuffer, reset}
use compostela.AzBuffer.Holds.{Holds, unread_bytes_lem, read_at-Holds, reset_lem}
use compostela.Supports.{Files, append_to, contents_of}
use compostela.Aggregator.Config.{AggregateContext}
use compostela.Aggregator.Files.{Env, mk_path, flushed, stamp, do_merge_file, do_append_file}

-- The bytes of a file: none, where there is no file.
abbrev pub bytes_at : Files → List ℕ → List ℕ
bytes_at files path = contents_of (files path)

pub bytes_at-append_to :
    (files : Files) (path bytes : List ℕ)
    → bytes_at (append_to files path bytes) path ≡ bytes_at files path ++ bytes
unfolding append_to
bytes_at-append_to files path bytes = rw (str_eq_refl path)

pub append_to-other :
    (files : Files) (path bytes p : List ℕ) → path ≢ p → append_to files path bytes p ≡ files p
unfolding append_to
append_to-other files path bytes p ne = elim (Bool-cases (str_eq path p)) [
  | inl same ↦ absurd (ne (str_eq_sound path p same))
  | inr other ↦ rw other
]

suc_ne : (n : ℕ) → (suc n == 0) ≡ false
suc_ne n = ground arith

size-reset : (b : AzBuffer) → (reset b).size ≡ b.size
unfolding reset
size-reset b = refl

-- What is flushed is what the buffer holds.
pub flushed_lem :
    {b : AzBuffer} (q : List ℕ)
    → Holds b q
    → (b' : AzBuffer) × (flushed b ≡ some (q, b')) × Holds b' [] × (b'.size ≡ b.size)
unfolding flushed
flushed_lem {b} [] h = (b, rw (unread_bytes_lem h), h, refl)
flushed_lem {b} (c ∷ q) h =
    let whole : Holds b ((c ∷ q) ++ []) = rw append-nil h in
    (
      reset b,
      rw (unread_bytes_lem h) (rw (suc_ne (length q), read_at-Holds (c ∷ q) [] whole)),
      (reset_lem h).0,
      size-reset b,
    )

-- `_do_append_file` writes what the buffer holds and then the text, and empties the buffer.
pub do_append_file_lem :
    (env : Env) (files : Files) (path : List ℕ) (text : List ℕ) {b : AzBuffer} (q : List ℕ)
    → env.creatable path ≡ true
    → Holds b q
    → (b' : AzBuffer) × (do_append_file env files path b text
        ≡ some (pos 0, append_to files path (q ++ text), b'))
      × Holds b' []
      × (b'.size ≡ b.size)
unfolding do_append_file
do_append_file_lem env files path text q opens h =
    let flush = flushed_lem q h in (flush.0, rw (opens, flush.1), flush.2, flush.3)

-- `_do_merge_file` writes the host, the time where it is asked for, a colon and a blank, what the
-- buffer holds and then the text, all to the merged file of the channel, and empties the buffer.
pub do_merge_file_lem :
    (env : Env) (files : Files) (dir name path : List ℕ) (ts : ℕ) (time text : List ℕ)
    (aggr : Option AggregateContext) {b : AzBuffer} (q : List ℕ)
    → env.logdir ≡ some dir
    → stamp env ts aggr ≡ some time
    → env.creatable (mk_path dir path) ≡ true
    → Holds b q
    → (b' : AzBuffer) × (do_merge_file env files (some name) path ts b text aggr
        ≡ some (
          pos 0,
          append_to files (mk_path dir path) (name ++ (time ++ (b':' ∷ b' ' ∷ q ++ text))),
          b',
        ))
      × Holds b' []
      × (b'.size ≡ b.size)
unfolding do_merge_file
do_merge_file_lem env files dir name path ts time text aggr q root stamped opens h =
    let flush = flushed_lem q h in (flush.0, rw (stamped, root, opens, flush.1), flush.2, flush.3)
