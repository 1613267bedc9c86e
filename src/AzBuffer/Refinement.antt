-- ===== src/AzBuffer/Refinement.antt =====
-- The buffer of common/azbuffer.c as a queue of bytes: every program of its operations, but the push
-- in front, gives what the same program gives on the queue.
pub mod Agreement
pub mod Lines
pub mod Programs
use compostela.Prelude.{
  ℕ, zero, suc, ◌+◌, ◌-◌, ◌^◌, ◌≤◌, ◌<◌, ◌≡◌, refl, sym, ap, ◌∙◌, subst, List, [], ◌∷◌, ◌++◌,
  Option, none, some, ◌>>=◌, arith, Bool, true, false, ltb, leb, ◌==◌, if◌then◌else◌, length, take,
  drop, min, Bool-cases, Option-cases, inl, inr, take_all, length-eq-zero, >>=-eq-some, append-nil,
  take-append-drop, length-take, length-drop,
}
use compostela.Prelude.Words.{ℤ, pos, negsuc, to_int}
use compostela.Prelude.Memory.{mem_chr, read_at}
use compostela.AzBuffer.{
  AzBuffer, new, Source, Read, read, resize, fetch_bytes, fetch_file, read_line, line_length,
  line_ret, reset, unread_bytes,
}
use compostela.AzBuffer.Holds.{Holds, new_lem, reset_lem, unread_bytes_lem}
use compostela.AzBuffer.Fetch.{
  fetch_bytes_lem, fetch_file_lem, fetch_file_error, resize_lem, read_lem,
}
use compostela.AzBuffer.ReadLine.{read_line-step, read_line-empty, terminator}

-- A call of an operation. What `read(2)` has for a fetch is `none`, an error, or bytes of which it
-- gives no more than it is asked for.
pub data Op : Type 0 where
  fetch : List ℕ → Op
  fetch_from : Option (List ℕ) → ℕ → Op
  take_bytes : ℕ → ℕ → Op
  take_line : ℕ → Op
  grow : ℕ → Op
  clear : Op

-- What a caller sees of a call: the result and the bytes that came out.
abbrev pub Output : Type 0
Output = ℤ × List ℕ

abbrev pub source_of : Option (List ℕ) → Source
source_of none n = none
source_of (some bytes) n = some (take n bytes)

pub seen : Read → Output × AzBuffer
seen out = ((out.ret, out.dst), out.rest)

pub run_op : (ℕ → ℕ) → Op → AzBuffer → Option (Output × AzBuffer)
run_op junk (Op.fetch bytes) b = fetch_bytes b bytes (length bytes) >>= λ r. some ((r.0, []), r.1)
run_op junk (Op.fetch_from got size) b =
    fetch_file b (source_of got) size >>= λ r. some ((r.0, []), r.1)
run_op junk (Op.take_bytes len dsize) b = read b len dsize >>= λ out. some (seen out)
run_op junk (Op.take_line dsize) b = read_line b dsize >>= λ out. some (seen out)
run_op junk (Op.grow newsize) b =
    some (((resize (some junk) b newsize).0, []), (resize (some junk) b newsize).1)
run_op junk Op.clear b = some ((pos 0, []), reset b)

pub run : (ℕ → ℕ) → List Op → AzBuffer → Option (List Output × AzBuffer)
run junk [] b = some ([], b)
run junk (op ∷ ops) b = do
  r ← run_op junk op b
  more ← run junk ops r.1
  some (r.0 ∷ more.0, more.1)

-- The queue: the bytes in it, and how much may be put in behind the `used` bytes that were put in
-- since it was last reset.
pub record Queue : Type 0 where
  pub bytes : List ℕ
  pub used : ℕ
  pub size : ℕ

abbrev pub put : Queue → List ℕ → Queue
put s new_bytes = record s { bytes = s.bytes ++ new_bytes; used = s.used + length new_bytes }

-- The first line of the queue, or what there is of it in the first `dsize` bytes.
abbrev pub line_end : Option ℕ → List ℕ → ℕ
line_end none window = length window
line_end (some k) window = k + 1

abbrev pub first_line : List ℕ → ℕ → List ℕ
first_line q dsize = take (line_end (mem_chr b'\n' (take dsize q)) (take dsize q)) q

abbrev pub line_code : Option ℕ → ℤ
line_code none = pos 0
line_code (some k) = pos 1

unfoldable pub spec_op : Op → Queue → Output × Queue
spec_op (Op.fetch bytes) s =
    let stored = take (s.size - s.used) bytes in ((pos (length stored), []), put s stored)
spec_op (Op.fetch_from none size) s = ((negsuc 0, []), s)
spec_op (Op.fetch_from (some bytes) size) s =
    let stored = take (min (s.size - s.used) size) bytes in
    ((pos (length stored), []), put s stored)
spec_op (Op.take_bytes len dsize) s =
    if ltb dsize len
    then ((negsuc 0, []), s)
    else if ltb (length s.bytes) len
    then ((negsuc 1, []), s)
    else ((to_int len, take len s.bytes), record s { bytes = drop len s.bytes })
spec_op (Op.take_line dsize) s =
    if length s.bytes == 0
    then ((negsuc 0, []), s)
    else let line = first_line s.bytes dsize in
      (
        (line_code (mem_chr b'\n' (take dsize s.bytes)), line ++ terminator (length line) dsize),
        record s { bytes = drop (length line) s.bytes },
      )
spec_op (Op.grow newsize) s =
    if ltb newsize s.used then ((negsuc 999, []), s) else ((pos 0, []), record s { size = newsize })
spec_op Op.clear s = ((pos 0, []), record s { bytes = []; used = 0 })

unfoldable pub replay : List Op → Queue → List Output × Queue
replay [] s = ([], s)
replay (op ∷ ops) s = let r = spec_op op s in let more = replay ops r.1 in (r.0 ∷ more.0, more.1)

-- No block is asked for that is larger than half the address space.
abbrev pub IsProper : Op → Type 0
IsProper (Op.grow newsize) = newsize < 2 ^ 63
IsProper (Op.fetch bytes) = Unit {0}
IsProper (Op.fetch_from got size) = Unit {0}
IsProper (Op.take_bytes len dsize) = Unit {0}
IsProper (Op.take_line dsize) = Unit {0}
IsProper Op.clear = Unit {0}

abbrev pub AllProper : List Op → Type 0
AllProper [] = Unit {0}
AllProper (op ∷ ops) = IsProper op × AllProper ops

-- The buffer stands for the queue.
pub record Represents (b : AzBuffer) (s : Queue) : Type 0 where
  pub holds : Holds b s.bytes
  pub same_used : b.used ≡ s.used
  pub same_size : b.size ≡ s.size

-- An operation on the buffer gives what it gives on the queue.
abbrev pub Agrees : (ℕ → ℕ) → Op → AzBuffer → Queue → Type 0
Agrees junk op b s =
    (b' : AzBuffer) × (run_op junk op b ≡ some ((spec_op op s).0, b'))
    × Represents b' (spec_op op s).1
