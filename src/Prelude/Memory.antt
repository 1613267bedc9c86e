-- ===== src/Prelude/Memory.antt =====
-- Blocks of memory as lists of bytes: `memcpy`, `memmove` and `memchr` with their bounds. An
-- access that leaves the block is `none`; the null pointer is the empty block.
use compostela.Prelude.{
  length-take, length-drop, ◌≤◌, ℕ, suc, ◌+◌, ◌<◌, ◌≡◌, ap, List, [], ◌∷◌, ◌++◌, Option, none, some,
  arith, leb, ◌==◌, if◌then◌else◌, length, take, drop, length-append, take-append, drop-append,
  drop-append_over,
}

-- `n` bytes read at offset `i`.
unfoldable pub read_at : List ℕ → ℕ → ℕ → Option (List ℕ)
read_at mem i n = if leb (i + n) (length mem) then some (take n (drop i mem)) else none

-- The bytes `bs` written at offset `i`.
unfoldable pub write_at : List ℕ → ℕ → List ℕ → Option (List ℕ)
write_at mem i bs =
    if leb (i + length bs) (length mem)
    then some (take i mem ++ (bs ++ drop (i + length bs) mem))
    else none

-- The index of the first byte `c`: `memchr` over a readable block.
unfoldable pub mem_chr : ℕ → List ℕ → Option ℕ
mem_chr c [] = none
mem_chr c (b ∷ bs) =
    if b == c then some 0 else elim (mem_chr c bs) [ none ↦ none | some k ↦ some (suc k) ]

-- A read of exactly the middle part of a block.
pub read_at-middle :
    (a q c : List ℕ) (i n : ℕ) → i ≡ length a → n ≡ length q → read_at (a ++ (q ++ c)) i n ≡ some q
unfolding read_at
read_at-middle a q c i n hi hn = ground (
  arith,
  length-append a (q ++ c),
  length-append q c,
  drop-append a (q ++ c) i hi,
  take-append q c n hn,
)

-- A write over exactly the middle part of a block.
pub write_at-middle :
    (a old c bs : List ℕ) (i : ℕ)
    → i ≡ length a
    → length bs ≡ length old
    → write_at (a ++ (old ++ c)) i bs ≡ some (a ++ (bs ++ c))
unfolding write_at
write_at-middle a old c bs i hi hn = ground (
  arith,
  length-append a (old ++ c),
  length-append old c,
  take-append a (old ++ c) i hi,
  drop-append_over a (old ++ c) (i + length bs) (length bs),
  drop-append old c (length bs),
)

-- A write that ends past the block faults.
pub write_at-none :
    (mem bs : List ℕ) (i : ℕ) → length mem < i + length bs → write_at mem i bs ≡ none
unfolding write_at
write_at-none mem bs i h = ground arith

pub read_at-none : (mem : List ℕ) (i n : ℕ) → length mem < i + n → read_at mem i n ≡ none
unfolding read_at
read_at-none mem i n h = ground arith

pub read_at-take : (mem : List ℕ) (n : ℕ) → n ≤ length mem → read_at mem 0 n ≡ some (take n mem)
unfolding read_at
read_at-take mem n h = ground arith

pub write_at-some :
    (mem bs : List ℕ) (i : ℕ)
    → i + length bs ≤ length mem
    → write_at mem i bs ≡ some (take i mem ++ (bs ++ drop (i + length bs) mem))
unfolding write_at
write_at-some mem bs i h = ground arith

pub length-read_at :
    (mem : List ℕ) (i n : ℕ) {bytes : List ℕ} → read_at mem i n ≡ some bytes → length bytes ≡ n
unfolding read_at
length-read_at mem i n e = ground (arith, length-take n (drop i mem), length-drop i mem)

-- What was read lies inside the block.
pub read_at-within :
    (mem : List ℕ) (i n : ℕ) {bytes : List ℕ}
    → read_at mem i n ≡ some bytes
    → i + length bytes ≤ length mem
unfolding read_at
read_at-within mem i n e = ground (arith, length-take n (drop i mem), length-drop i mem)

-- What was written lay inside the block, which keeps its length.
pub write_at-within :
    (mem bs : List ℕ) (i : ℕ) {out : List ℕ}
    → write_at mem i bs ≡ some out
    → i + length bs ≤ length mem
unfolding write_at
write_at-within mem bs i e = ground (arith, e)

pub length-write_at :
    (mem bs : List ℕ) (i : ℕ) {out : List ℕ}
    → write_at mem i bs ≡ some out
    → length out ≡ length mem
length-write_at mem bs i {out} e =
    let within : i + length bs ≤ length mem = write_at-within mem bs i e in
    let it : take i mem ++ (bs ++ drop (i + length bs) mem) ≡ out =
      ground (arith, write_at-some mem bs i within, e) in
    omega (
      arith,
      ap length it,
      within,
      length-append (take i mem) (bs ++ drop (i + length bs) mem),
      length-append bs (drop (i + length bs) mem),
      length-take i mem,
      length-drop (i + length bs) mem,
    )
