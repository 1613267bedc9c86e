-- ===== src/Supports.antt =====
-- common/supports.c, the text and file helpers (its socket loops are in Transport).
pub mod Paths
mod Tests
use compostela.Prelude.{
  ℕ, zero, suc, ◌+◌, ◌-◌, ◌*◌, List, [], ◌∷◌, ◌++◌, Option, none, some, ◌>>=◌, length, take, drop,
  leb, ltb, ◌==◌, if◌then◌else◌, Bool, true, false, ◌&&◌, str_eq, get_elem?, not,
}
use compostela.Prelude.Memory.{mem_chr, write_at}
use compostela.AzBuffer.{fill}
use compostela.Prelude.Text.{is_digit}

-- `PATH_MAX - 1`: the longest string that a path buffer holds.
abbrev pub path_room : ℕ
path_room = 4095

-- `*(q - 1) == '/'`; `none` is a read before the buffer.
pub ends_in_slash : List ℕ → Option Bool
ends_in_slash [] = none
ends_in_slash (c ∷ []) = some (c == b'/')
ends_in_slash (c ∷ d ∷ cs) = ends_in_slash (d ∷ cs)

-- The buffer with the slash added where it lacks one; the NUL behind it must fit too.
pub with_slash : List ℕ → Option (List ℕ)
with_slash buf = do
  slash ← ends_in_slash buf
  if slash
      then some buf
      else if leb (length buf + 1) path_room
      then some (buf ++ (b'/' ∷ []))
      else none

-- The loop of `pathcat` over its arguments, up to the null pointer. `q` runs past the end where an
-- argument does not fit, and the string is cut there.
pub pathcat_loop : List ℕ → List (Option (List ℕ)) → Option (List ℕ)
pathcat_loop buf [] = some buf
pathcat_loop buf (none ∷ more) = some buf
pathcat_loop buf (some s ∷ more) = with_slash buf >>= λ q.
    let rest = pathcat_loop (q ++ s) more in
    if leb (length q + length s) path_room then rest else some (take path_room (q ++ s))

-- A first part that fills the buffer leaves no room for a NUL.
unfoldable pub pathcat : List ℕ → List (Option (List ℕ)) → Option (List ℕ)
unfolding pathcat_loop with_slash ends_in_slash
pathcat p parts = if ltb (length p) path_room then pathcat_loop p parts else none

-- `strcat(p, s)` in a block: it starts at the first NUL of the block.
pub strcat : List ℕ → List ℕ → Option (List ℕ)
strcat mem s = mem_chr 0 mem >>= λ k. write_at mem k (s ++ (0 ∷ []))

-- `strdup_pathcat`: the block that it returns. The slash is written over the NUL of the copy.
unfoldable pub strdup_pathcat : (ℕ → ℕ) → List ℕ → List ℕ → Option (List ℕ)
unfolding ends_in_slash strcat
strdup_pathcat junk p0 p1 = do
  slash ← ends_in_slash p0
  copied ←
      write_at (fill junk (length p0 + length p1 + 1 + (if slash then 0 else 1))) 0 (p0 ++ (0 ∷ []))
  joined ← if slash then some copied else write_at copied (length p0) (b'/' ∷ [])
  strcat joined p1

-- A byte at the end of a text, counted from its end; `none` is a read before it.
from_end : List ℕ → ℕ → Option ℕ
from_end text k = if leb k (length text) then get_elem? text (length text - k) else none

-- `__w3cdatetime` on what `strftime` wrote: a colon is put before the last two digits. The result
-- is the bytes of the buffer that the returned count covers.
unfoldable pub w3cdatetime : List ℕ → Option (List ℕ)
unfolding from_end is_digit
w3cdatetime text = do
  last ← from_end text 1
  if is_digit last
      then (from_end text 2 >>= λ second.
          if is_digit second
          then some (take (length text - 2) text ++ (b':' ∷ second ∷ last ∷ []))
          else some (text ++ (0 ∷ [])))
      else some (text ++ (0 ∷ []))

-- A file system: the bytes of the file at a path. `none` is a path with no file.
abbrev pub Files : Type 0
Files = List ℕ → Option (List ℕ)

abbrev pub contents_of : Option (List ℕ) → List ℕ
contents_of none = []
contents_of (some bytes) = bytes

-- Bytes written at the end of a file that `open` has created where it was missing.
unfoldable pub append_to : Files → List ℕ → List ℕ → Files
append_to files path bytes p =
    if str_eq path p then some (contents_of (files path) ++ bytes) else files p

-- `mhash_with_size`: the digest of the first `fsize` bytes of the file, or of all there are.
-- `none` is a file that cannot be opened.
unfoldable pub mhash_with_size : (List ℕ → List ℕ) → Files → List ℕ → ℕ → Option (List ℕ)
mhash_with_size md5 files path fsize = elim (files path) [
  | none ↦ none
  | some bytes ↦ some (md5 (take fsize bytes))
]
