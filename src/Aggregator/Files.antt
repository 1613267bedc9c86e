-- ===== src/Aggregator/Files.antt =====
-- The files that the aggregator writes: the helpers of aggregator/main.c between the handlers and
-- the file system. Directories are not modelled: `_create_dir` makes those of the path. A write to a
-- regular file takes all of its bytes.
pub mod Merging
use compostela.Prelude.{
  ℕ, ◌+◌, List, [], ◌∷◌, ◌++◌, Option, none, some, ◌>>=◌, Bool, true, false, take, ◌==◌,
  if◌then◌else◌,
}
use compostela.Prelude.Words.{ℤ, pos, negsuc}
use compostela.Prelude.Memory.{read_at}
use compostela.AzBuffer.{AzBuffer, Heap, unread_bytes}
use compostela.AzBuffer
use compostela.Supports.{Files, append_to, w3cdatetime, path_room}
use compostela.Aggregator.Config.{AggregateContext}

-- What the aggregator takes from its surroundings: whether a path can be opened for writing, the
-- text of a time by `strftime`, the digest, and the pattern match of `fnmatch`.
pub record Env : Type 0 where
  pub heap : Heap
  pub creatable : List ℕ → Bool
  pub strftime : ℕ → List ℕ
  pub md5 : List ℕ → List ℕ
  pub fnmatch : List ℕ → List ℕ → Bool
  pub logdir : Option (List ℕ)
  pub contexts : List AggregateContext

-- `__mk_path`.
pub mk_path : List ℕ → List ℕ → List ℕ
mk_path parent fname = take path_room (parent ++ (b'/' ∷ fname))

-- What is stored in the buffer, which is written and reset.
pub flushed : AzBuffer → Option (List ℕ × AzBuffer)
flushed buffer =
    if unread_bytes buffer == 0
    then some ([], buffer)
    else (read_at buffer.buffer buffer.cursor (unread_bytes buffer) >>= λ bytes.
        some (bytes, AzBuffer.reset buffer))

-- The time behind the host, where the context asks for it.
unfoldable pub stamp : Env → ℕ → Option AggregateContext → Option (List ℕ)
stamp env ts none = some []
stamp env ts (some aggr) =
    if aggr.f_timestamp
    then (w3cdatetime (env.strftime ts) >>= λ text. some (b' ' ∷ text))
    else some []

-- Everything that `_do_merge_file` writes, in its order, is one append to the merged file.
unfoldable pub do_merge_file :
    Env
    → Files
    → Option (List ℕ)
    → List ℕ
    → ℕ
    → AzBuffer
    → List ℕ
    → Option AggregateContext
    → Option (ℤ × Files × AzBuffer)
do_merge_file env files host path ts buffer bytes aggr = do
  dir ← env.logdir
  let fullp = mk_path dir path
  time ← stamp env ts aggr
  if env.creatable fullp
      then (do
        name ← host
        flush ← flushed buffer
        some (
          pos 0,
          append_to files fullp (name ++ (time ++ (b':' ∷ b' ' ∷ flush.0 ++ bytes))),
          flush.1,
        ))
      else some (negsuc 0, files, buffer)

unfoldable pub do_append_file :
    Env → Files → List ℕ → AzBuffer → List ℕ → Option (ℤ × Files × AzBuffer)
do_append_file env files path buffer bytes =
    if env.creatable path
    then (flushed buffer >>= λ flush.
        some (pos 0, append_to files path (flush.0 ++ bytes), flush.1))
    else some (negsuc 0, files, buffer)

-- `_do_trunc_file` moves the offset of a descriptor that it closes: the file stays as it is.
unfoldable pub do_trunc_file : Files → List ℕ → ℕ → ℤ × Files
do_trunc_file files path offset = elim (files path) [
  | none ↦ (negsuc 0, files)
  | some bytes ↦ (pos 0, files)
]

-- `__find_aggregate_context`: a context without a path is a null pointer that `fnmatch` reads.
unfoldable pub find_aggregate_context :
    Env → List AggregateContext → List ℕ → Option (Option AggregateContext)
find_aggregate_context env [] fname = some none
find_aggregate_context env (cxt ∷ li) fname =
    let more = find_aggregate_context env li fname in
    cxt.path >>= λ pattern. if env.fnmatch pattern fname then some (some cxt) else more
