-- ===== src/AzBuffer.antt =====
-- common/azbuffer.c: the byte buffer that every stream of the two daemons is read through.
-- The struct's two pointers are the block (`buffer`, its bytes) and an offset into it (`cursor`).
-- `az_buffer_f` of the source is `f` here. A result of `none` is an access out of the block.
pub mod Holds
pub mod Fetch
pub mod ReadLine
pub mod Shift
pub mod PushBack
pub mod Refinement
mod Tests
use compostela.Prelude.{
  ℕ, zero, suc, ◌+◌, ◌-◌, List, [], ◌∷◌, ◌++◌, Bool, Option, none, some, ltb, leb, ◌==◌,
  if◌then◌else◌, length, take, ◌>>=◌, ◌>>◌, guard,
}
use compostela.Prelude.Words.{ℤ, pos, negsuc, add64, sub64, signed64, to_int}
use compostela.Prelude.Memory.{read_at, write_at, mem_chr}

-- `struct _az_buffer`.
pub record AzBuffer : Type 0 where
  pub buffer : List ℕ
  pub cursor : ℕ
  pub size : ℕ
  pub used : ℕ

-- What `malloc` or `realloc` does next: it has no memory, or the fresh bytes hold any values.
abbrev pub Heap : Type 0
Heap = Option (ℕ → ℕ)

unfoldable pub fill : (ℕ → ℕ) → ℕ → List ℕ
fill junk zero = []
fill junk (suc n) = junk n ∷ fill junk n

-- The block of `malloc(size)`.
pub block : Heap → ℕ → List ℕ
block none size = []
block (some junk) size = fill junk size

-- `none` is the null pointer: no memory for the struct.
unfoldable pub new : Bool → Heap → ℕ → Option AzBuffer
unfolding block fill
new struct heap size =
    if struct
    then some (record { buffer = block heap size; cursor = 0; size = size; used = 0 })
    else none

unfoldable pub unused_bytes : AzBuffer → ℕ
unused_bytes b = sub64 b.size b.used

unfoldable pub unread_bytes : AzBuffer → ℕ
unread_bytes b = sub64 b.used b.cursor

-- What a read returns, the bytes it stored from `dst[0]` on, and the buffer after it.
pub record Read : Type 0 where
  pub ret : ℤ
  pub dst : List ℕ
  pub dused : ℕ
  pub rest : AzBuffer

unfoldable pub read : AzBuffer → ℕ → ℕ → Option Read
unfolding unread_bytes
read b len dsize =
    if ltb dsize len
    then some (record { ret = negsuc 0; dst = []; dused = 0; rest = b })
    else if ltb (unread_bytes b) len
    then some (record { ret = negsuc 1; dst = []; dused = 0; rest = b })
    else do
      bytes ← read_at b.buffer b.cursor len
      some (record {
        ret = to_int len;
        dst = bytes;
        dused = len;
        rest = record b { cursor = b.cursor + len };
      })

-- A failed `realloc` leaves the null pointer in both pointers.
unfoldable pub resize : Heap → AzBuffer → ℕ → ℤ × AzBuffer
unfolding fill
resize heap b newsize = if ltb newsize b.used then (negsuc 999, b) else elim heap [
  | none ↦ (negsuc 0, record b { buffer = []; size = 0; cursor = 0 })
  | some junk ↦ (
    pos 0,
    record b {
      buffer = take newsize b.buffer ++ fill junk (newsize - length b.buffer);
      size = newsize;
    },
  )
]

unfoldable pub fetch_bytes : AzBuffer → List ℕ → ℕ → Option (ℤ × AzBuffer)
unfolding unused_bytes
fetch_bytes b bytes len =
    let unused = unused_bytes b in
    let count = if ltb len unused then len else unused in
    do
      src ← read_at bytes 0 count
      mem ← write_at b.buffer b.used src
      some (signed64 count, record b { buffer = mem; used = b.used + count })

-- `read(2)` on a descriptor: given the count asked for, `none` is -1 and the empty list is 0.
abbrev pub Source : Type 0
Source = ℕ → Option (List ℕ)

-- `if (cb > 0) { used += cb; } return cb`.
fetched : AzBuffer → Option (List ℕ) → Option (ℤ × AzBuffer)
fetched b none = some (negsuc 0, b)
fetched b (some []) = some (pos 0, b)
fetched b (some (c ∷ cs)) = do
  mem ← write_at b.buffer b.used (c ∷ cs)
  some (pos (length (c ∷ cs)), record b { buffer = mem; used = b.used + length (c ∷ cs) })

unfoldable pub fetch_file : AzBuffer → Source → ℕ → Option (ℤ × AzBuffer)
unfolding unused_bytes fetched
fetch_file b fd size =
    let unused = unused_bytes b in
    let count = if ltb size unused then size else unused in fetched b (fd count)

-- `len = p ? p - cursor + 1 : len`.
pub line_length : Option ℕ → ℕ → ℕ
line_length none len = len
line_length (some k) len = k + 1

pub line_ret : Option ℕ → ℤ
line_ret none = pos 0
line_ret (some k) = pos 1

unfoldable pub read_line : AzBuffer → ℕ → Option Read
read_line b dsize =
    let unread = unread_bytes b in
    if unread == 0
    then some (record { ret = negsuc 0; dst = []; dused = 0; rest = b })
    else let len = (if ltb dsize unread then dsize else unread) in
      do
        window ← read_at b.buffer b.cursor len
        let p = mem_chr b'\n' window
        r ← read b (line_length p len) dsize
        some (record {
          ret = line_ret p;
          dst = r.dst ++ (if ltb (line_length p len) dsize then 0 ∷ [] else []);
          dused = line_length p len;
          rest = r.rest;
        })

-- The shift of what is stored, and the copy of `src` in front of it. The shift moves `used` bytes
-- from the cursor on.
pub shifted : AzBuffer → ℕ → Option (List ℕ)
shifted b r =
    if b.used == 0
    then some b.buffer
    else do bytes ← read_at b.buffer b.cursor b.used; write_at b.buffer (b.cursor + r) bytes

-- The rest of the push once there is room: `n` bytes were read before it, `u` are unread.
pub pushed : AzBuffer → ℕ → ℕ → List ℕ → ℕ → Option (ℤ × AzBuffer)
pushed b n u src ssize =
    let r = (if b.used == 0 then 0 else if ltb n ssize then ssize - n else 0) in
    let back = (if ltb (ssize - r) n then ssize - r else n) in
    do
      moved ← shifted b r
      guard (leb back b.cursor)
      bytes ← read_at src 0 ssize
      mem ← write_at moved (b.cursor - back) bytes
      some (
        pos 0,
        record b {
          buffer = mem;
          cursor = b.cursor - back;
          used = add64 u (if ltb n ssize then ssize else n);
        },
      )

-- The result of the resize is not looked at.
unfoldable pub push_back : Heap → AzBuffer → Option (List ℕ) → ℕ → Option (ℤ × AzBuffer)
push_back heap b none ssize = some (pos 0, b)
push_back heap b (some src) ssize =
    if ssize == 0
    then some (pos 0, b)
    else let u = unread_bytes b in
      let grown =
        (if ltb b.size (add64 ssize u)
          then (resize heap b (add64 b.size (add64 ssize ssize))).1
          else b) in
      pushed grown b.cursor u src ssize

unfoldable pub reset : AzBuffer → AzBuffer
reset b = record b { cursor = 0; used = 0 }
