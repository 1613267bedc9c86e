-- ===== src/AzBuffer/ReadLine.antt =====
-- `az_buffer_read_line` of common/azbuffer.c.
use compostela.Prelude.{
  ℕ, ◌+◌, ◌-◌, ◌≤◌, ◌<◌, ◌≡◌, refl, sym, ap, subst, ◌∙◌, List, [], ◌∷◌, ◌++◌, false, Option, none,
  some, arith, ltb, length, take, drop, length-append, take-append-drop, append_assoc, length-take,
  min, ◌==◌, ◌≢◌, if◌then◌else◌,
}
use compostela.Prelude.Words.{pos, negsuc, to_int}
use compostela.Prelude.Memory.{mem_chr}
use compostela.AzBuffer.{AzBuffer, read, Read, read_line, line_length, line_ret}
use compostela.AzBuffer.Holds.{Holds, unread_bytes_lem, read_at-Holds}
use compostela.AzBuffer.Fetch.{read_lem}

-- The byte `c` does not occur.
abbrev pub Lacks : ℕ → List ℕ → Type 0
Lacks c [] = Unit {0}
Lacks c (b ∷ bs) = (b ≢ c) × Lacks c bs

pub Lacks-append : (c : ℕ) (a b : List ℕ) → Lacks c a → Lacks c b → Lacks c (a ++ b)
Lacks-append c [] b h k = k
Lacks-append c (x ∷ a) b h k = (h.0, Lacks-append c a b h.1 k)

-- `memchr` finds the end of a text without the byte.
pub mem_chr-found :
    (c : ℕ) (text rest : List ℕ)
    → Lacks c text
    → mem_chr c (text ++ (c ∷ rest)) ≡ some (length text)
unfolding mem_chr
mem_chr-found c [] rest h = ground arith
mem_chr-found c (b ∷ text) rest h = ground (arith, mem_chr-found c text rest h.1)

pub mem_chr-none : (c : ℕ) (text : List ℕ) → Lacks c text → mem_chr c text ≡ none
unfolding mem_chr
mem_chr-none c [] h = refl
mem_chr-none c (b ∷ text) h = ground (arith, mem_chr-none c text h.1)

-- The string's end, where there is room for it.
abbrev pub terminator : ℕ → ℕ → List ℕ
terminator len dsize = if ltb len dsize then 0 ∷ [] else []

-- One step of the code: the part of the queue that it looks at is `window`, and `line` is what it
-- then takes.
pub read_line-step :
    {b : AzBuffer} (window rest line left : List ℕ) (dsize : ℕ) (p : Option ℕ)
    → Holds b (window ++ rest)
    → (window ++ rest ≡ line ++ left)
    → 0 < length (window ++ rest)
    → length window ≡ min (length (window ++ rest)) dsize
    → mem_chr b'\n' window ≡ p
    → line_length p (length window) ≡ length line
    → length line ≤ dsize
    → (out : Read) × (read_line b dsize ≡ some out)
      × (out.ret ≡ line_ret p)
      × (out.dst ≡ line ++ terminator (length line) dsize)
      × (out.dused ≡ length line)
      × Holds out.rest left
unfolding read_line
read_line-step {b} window rest line left dsize p h e nonempty cut found len fits = (
  record {
    ret = line_ret p;
    dst = line ++ terminator (length line) dsize;
    dused = length line;
    rest = taken.0.rest;
  },
  rw (unread_bytes_lem h, Bool-false)
      (rw (count, read_at-Holds window rest h) (rw (found, len) (rw (taken.1, taken.3)))),
  refl,
  refl,
  refl,
  taken.5,
)
  where
    taken :
        (out : Read) × (read b (length line) dsize ≡ some out)
        × (out.ret ≡ to_int (length line))
        × (out.dst ≡ line)
        × (out.dused ≡ length line)
        × Holds out.rest left
    taken = read_lem line left (length line) dsize (subst (Holds b) e h) refl fits

    Bool-false : (length (window ++ rest) == 0) ≡ false
    Bool-false = ground arith

    count :
        (if ltb dsize (length (window ++ rest)) then dsize else length (window ++ rest))
        ≡ length window
    count = ground arith

-- What is written to the destination fits it.
terminator-fits :
    (line : List ℕ) (dsize : ℕ)
    → length line ≤ dsize
    → length (line ++ terminator (length line) dsize) ≤ dsize
terminator-fits line dsize h = ground (arith, length-append line (terminator (length line) dsize))

-- If a newline is stored within the first `dsize` bytes, `az_buffer_read_line` returns 1, takes
-- the bytes up to and including the first newline, closes the string where there is room, writes
-- no more than `dsize` bytes, and leaves all that follows the newline.
pub read_line_complete :
    {b : AzBuffer} (text rest : List ℕ) (dsize : ℕ)
    → Holds b (text ++ (b'\n' ∷ rest))
    → Lacks b'\n' text
    → length text < dsize
    → (out : Read) × (read_line b dsize ≡ some out)
      × (out.ret ≡ pos 1)
      × (out.dst ≡ (text ++ (b'\n' ∷ [])) ++ terminator (length text + 1) dsize)
      × (out.dused ≡ length text + 1)
      × (length out.dst ≤ dsize)
      × Holds out.rest rest
unfolding line_ret line_length
read_line_complete {b} text rest dsize h lacks lt =
    let line : List ℕ = text ++ (b'\n' ∷ []) in
    let line_len : length line ≡ length text + 1 = omega (arith, length-append text (b'\n' ∷ [])) in
    let size : length (text ++ (b'\n' ∷ rest)) ≡ length text + 1 + length rest =
      omega (arith, length-append text (b'\n' ∷ rest)) in
    let k : ℕ = min (length rest) (dsize - (length text + 1)) in
    let window : List ℕ = text ++ (b'\n' ∷ take k rest) in
    let joined : window ++ drop k rest ≡ text ++ (b'\n' ∷ rest) =
      append_assoc text (b'\n' ∷ take k rest) (drop k rest)
      ∙ ap (λ t. text ++ (b'\n' ∷ t)) (take-append-drop k rest) in
    let window_len : length window ≡ length text + 1 + k =
      omega (arith, length-append text (b'\n' ∷ take k rest), length-take k rest) in
    let step =
      read_line-step window (drop k rest) line rest dsize (some (length text))
        (subst (Holds b) (sym joined) h) (joined ∙ sym (append_assoc text (b'\n' ∷ []) rest))
        (rw joined (omega (arith, size))) (rw (joined, size) (omega (arith, window_len)))
        (mem_chr-found b'\n' text (take k rest) lacks) (sym line_len) (omega (arith, line_len)) in
    (
      step.0,
      step.1,
      step.2,
      step.3 ∙ ap (λ n. line ++ terminator n dsize) line_len,
      step.4 ∙ line_len,
      rw step.3 (terminator-fits line dsize (omega (arith, line_len))),
      step.5,
    )

-- If none of the first `dsize` stored bytes is a newline, `az_buffer_read_line` returns 0 and takes
-- those bytes, or all there are if they are fewer.
pub read_line-partial :
    {b : AzBuffer} (q : List ℕ) (dsize : ℕ)
    → Holds b q
    → Lacks b'\n' (take dsize q)
    → 0 < length q
    → (out : Read) × (read_line b dsize ≡ some out)
      × (out.ret ≡ pos 0)
      × (out.dst ≡ take dsize q ++ terminator (length (take dsize q)) dsize)
      × (out.dused ≡ min dsize (length q))
      × (length out.dst ≤ dsize)
      × Holds out.rest (drop dsize q)
unfolding line_ret line_length
read_line-partial {b} q dsize h lacks lt =
    let joined : take dsize q ++ drop dsize q ≡ q = take-append-drop dsize q in
    let step =
      read_line-step (take dsize q) (drop dsize q) (take dsize q) (drop dsize q) dsize none
        (subst (Holds b) (sym joined) h) refl (rw joined lt)
        (rw joined (omega (arith, length-take dsize q))) (mem_chr-none b'\n' (take dsize q) lacks)
        refl (omega (arith, length-take dsize q)) in
    (
      step.0,
      step.1,
      step.2,
      step.3,
      step.4 ∙ length-take dsize q,
      rw step.3 (terminator-fits (take dsize q) dsize (omega (arith, length-take dsize q))),
      step.5,
    )

-- With nothing stored it returns -1, and takes nothing.
pub read_line-empty :
    {b : AzBuffer} (dsize : ℕ)
    → Holds b []
    → read_line b dsize ≡ some (record { ret = negsuc 0; dst = []; dused = 0; rest = b })
unfolding read_line
read_line-empty dsize h = rw (unread_bytes_lem h)
