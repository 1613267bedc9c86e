-- ===== src/AzBuffer/Fetch.antt =====
-- Filling and growing the buffer of common/azbuffer.c: `az_buffer_fetch_bytes`,
-- `az_buffer_fetch_file`, `az_buffer_resize`, and `az_buffer_read`.
use compostela.Prelude.{
  ℕ, ◌+◌, ◌-◌, ◌^◌, ◌≤◌, ◌<◌, ◌≡◌, refl, sym, ap, subst, ◌∙◌, >>=-eq-some, List, [], ◌∷◌, ◌++◌,
  Option, none, some, arith, ltb, length, take, drop, length-append, take-append-drop, append_assoc,
  append-nil, length-take, length-drop, min, false, if◌then◌else◌, take-append_over,
}
use compostela.Prelude.Words.{ℤ, pos, negsuc, to_int, sub64}
use compostela.Prelude.Memory.{read_at, write_at, write_at-middle, read_at-take, write_at-within}
use compostela.AzBuffer.{
  AzBuffer, fill, Source, fetched, unread_bytes, read, Read, resize, fetch_bytes, fetch_file,
}
use compostela.AzBuffer.Holds.{
  Holds, unread_bytes_lem, length-buffer, length-fill, read_at-Holds, advance-Holds,
}

-- The block after `bs` was stored behind what is used.
abbrev pub stored : {b : AzBuffer} {q : List ℕ} → Holds b q → List ℕ → List ℕ
stored {b} {q} h bs = h.before ++ (q ++ (bs ++ drop (length bs) h.after))

write-stored :
    {b : AzBuffer} {q : List ℕ} (h : Holds b q) (bs : List ℕ)
    → length bs ≤ length h.after
    → write_at b.buffer b.used bs ≡ some (stored h bs)
write-stored {b} {q} h bs fits =
    ap (λ m. write_at m b.used bs) regroup
    ∙ write_at-middle (h.before ++ q) (take (length bs) h.after) (drop (length bs) h.after) bs
        b.used (omega (arith, length-append h.before q, h.start, h.stop))
        (omega (arith, length-take (length bs) h.after))
    ∙ ap some (append_assoc h.before q (bs ++ drop (length bs) h.after))
  where
    regroup : b.buffer ≡ (h.before ++ q) ++ (take (length bs) h.after ++ drop (length bs) h.after)
    regroup =
        h.layout
        ∙ sym (append_assoc h.before q h.after)
        ∙ ap (λ t. (h.before ++ q) ++ t) (sym (take-append-drop (length bs) h.after))

stored-Holds :
    {b : AzBuffer} {q : List ℕ} (h : Holds b q) (bs : List ℕ) (n : ℕ)
    → length bs ≤ length h.after
    → n ≡ length bs
    → Holds (record b { buffer = stored h bs; used = b.used + n }) (q ++ bs)
stored-Holds {b} {q} h bs n fits e = record {
  before = h.before;
  after = drop (length bs) h.after;
  layout = ap (λ t. h.before ++ t) (sym (append_assoc q bs (drop (length bs) h.after)));
  start = h.start;
  stop = omega (arith, length-append q bs, h.stop);
  room = omega (arith, length-drop (length bs) h.after, h.room);
  small = h.small;
}

-- The count that a fetch asks for: the room left, or `len` if that is less.
clip-sub64 :
    (size used len : ℕ)
    → used ≤ size
    → size < 2 ^ 63
    → (if ltb len (sub64 size used) then len else sub64 size used) ≡ min (size - used) len
clip-sub64 size used len h k = ground arith

-- `az_buffer_fetch_bytes` stores as many of the `len` bytes as there is room for, behind what is
-- stored, and returns their number. Nothing is written out of the block.
pub fetch_bytes_lem :
    {b : AzBuffer} {q : List ℕ} (bytes : List ℕ) (len : ℕ)
    → Holds b q
    → len ≤ length bytes
    → let n = min (b.size - b.used) len in
      (b' : AzBuffer) × (fetch_bytes b bytes len ≡ some (pos n, b'))
      × Holds b' (q ++ take n bytes)
      × (b'.size ≡ b.size)
      × (b'.used ≡ b.used + n)
unfolding fetch_bytes
fetch_bytes_lem {b} {q} bytes len h le = (
  record b { buffer = stored h (take n bytes); used = b.used + n },
  rw (clip-sub64 b.size b.used len (omega (arith, h.room)) h.small) (
      rw
        (
          read_at-take bytes n (omega arith),
          write-stored h (take n bytes) (omega (arith, taken, h.room)),
        )
        (ground (arith, h.small))),
  stored-Holds h (take n bytes) n (omega (arith, taken, h.room)) (sym taken),
  refl,
  refl,
)
  where
    n : ℕ
    n = min (b.size - b.used) len

    taken : length (take n bytes) ≡ n
    taken = omega (arith, length-take n bytes)

-- What the descriptor is asked for: the room left, or `size` if that is less.
fetch_file_asks :
    {b : AzBuffer} {q : List ℕ} (fd : Source) (size : ℕ) (got : Option (List ℕ))
    → Holds b q
    → fd (min (b.size - b.used) size) ≡ got
    → fetch_file b fd size ≡ fetched b got
unfolding fetch_file
fetch_file_asks {b} fd size got h e =
    rw (clip-sub64 b.size b.used size (omega (arith, h.room)) h.small, e)

-- `az_buffer_fetch_file` asks for the room left, or for `size` if that is less. What `read`
-- delivers, no more than it was asked for, is stored behind what is stored, and its number is
-- returned; at the end of the file, 0, nothing is stored.
pub fetch_file_lem :
    {b : AzBuffer} {q : List ℕ} (fd : Source) (size : ℕ) (bytes : List ℕ)
    → Holds b q
    → fd (min (b.size - b.used) size) ≡ some bytes
    → length bytes ≤ min (b.size - b.used) size
    → (b' : AzBuffer) × (fetch_file b fd size ≡ some (pos (length bytes), b'))
      × Holds b' (q ++ bytes)
      × (b'.size ≡ b.size)
      × (b'.used ≡ b.used + length bytes)
unfolding fetched
fetch_file_lem {b} {q} fd size [] h e le =
    (b, fetch_file_asks fd size _ h e, rw append-nil h, refl, omega arith)
fetch_file_lem {b} {q} fd size (c ∷ cs) h e le = (
  record b { buffer = stored h (c ∷ cs); used = b.used + length (c ∷ cs) },
  fetch_file_asks fd size _ h e ∙ rw (write-stored h (c ∷ cs) (omega (arith, h.room))),
  stored-Holds h (c ∷ cs) (length (c ∷ cs)) (omega (arith, h.room)) refl,
  refl,
  refl,
)

fetched-Holds :
    {b : AzBuffer} {q : List ℕ} (got : Option (List ℕ)) {r : ℤ × AzBuffer}
    → Holds b q
    → fetched b got ≡ some r
    → (q' : List ℕ) × Holds r.1 q'
unfolding fetched
fetched-Holds {b} {q} none {r} h e =
    let same : b ≡ r.1 = ground (arith, e) in (q, subst (λ g. Holds g q) same h)
fetched-Holds {b} {q} (some []) {r} h e =
    let same : b ≡ r.1 = ground (arith, e) in (q, subst (λ g. Holds g q) same h)
fetched-Holds {b} {q} (some (c ∷ cs)) {r} h e =
    let mem = >>=-eq-some (write_at b.buffer b.used (c ∷ cs)) _ e in
    let fits : b.used + length (c ∷ cs) ≤ b.size =
      omega (arith, write_at-within b.buffer (c ∷ cs) b.used mem.1, length-buffer h) in
    let wrote = write-stored h (c ∷ cs) (omega (arith, fits, h.room)) in
    let block : stored h (c ∷ cs) ≡ mem.0 = ground (arith, wrote, mem.1) in
    let same : record b { buffer = mem.0; used = b.used + length (c ∷ cs) } ≡ r.1 =
      ground (arith, mem.2) in
    (
      q ++ (c ∷ cs),
      subst (λ g. Holds g (q ++ (c ∷ cs)))
          (ap (λ m. record b { buffer = m; used = b.used + length (c ∷ cs) }) block ∙ same)
          (stored-Holds h (c ∷ cs) (length (c ∷ cs)) (omega (arith, fits, h.room)) refl),
    )

-- An error of `read` is passed on, and changes nothing.
pub fetch_file_error :
    {b : AzBuffer} {q : List ℕ} (fd : Source) (size : ℕ)
    → Holds b q
    → fd (min (b.size - b.used) size) ≡ none
    → fetch_file b fd size ≡ some (negsuc 0, b)
unfolding fetched
fetch_file_error fd size h e = fetch_file_asks fd size none h e

-- `az_buffer_resize` to no less than is used keeps what is stored, and gives a block of the new
-- size; without memory it fails with -1, and below what is used with -1000 and no change.
pub resize_lem :
    {b : AzBuffer} {q : List ℕ} (junk : ℕ → ℕ) (newsize : ℕ)
    → Holds b q
    → b.used ≤ newsize
    → newsize < 2 ^ 63
    → ((resize (some junk) b newsize).0 ≡ pos 0)
      × Holds (resize (some junk) b newsize).1 q
      × ((resize (some junk) b newsize).1.size ≡ newsize)
      × ((resize (some junk) b newsize).1.cursor ≡ b.cursor)
      × ((resize (some junk) b newsize).1.used ≡ b.used)
unfolding resize
resize_lem {b} {q} junk newsize h le small = rw ltb-false (refl, grown, refl, refl, refl)
  where
    ltb-false : ltb newsize b.used ≡ false
    ltb-false = ground arith

    fresh : List ℕ
    fresh = fill junk (newsize - length b.buffer)

    kept : ℕ
    kept = newsize - b.used

    grown : Holds (record b { buffer = take newsize b.buffer ++ fresh; size = newsize }) q
    grown = record {
      before = h.before;
      after = take kept h.after ++ fresh;
      layout =
          ap (λ t. take newsize t ++ fresh) h.layout
          ∙ ap (λ t. t ++ fresh)
              (take-append_over h.before (q ++ h.after) newsize (newsize - b.cursor)
                  (omega (arith, h.start, h.stop))
                ∙ ap (λ t. h.before ++ t)
                    (take-append_over q h.after (newsize - b.cursor) kept (omega (arith, h.stop))))
          ∙ append_assoc h.before (q ++ take kept h.after) fresh
          ∙ ap (λ t. h.before ++ t) (append_assoc q (take kept h.after) fresh);
      start = h.start;
      stop = h.stop;
      room = omega (
        arith,
        length-append (take kept h.after) fresh,
        length-take kept h.after,
        length-fill junk (newsize - length b.buffer),
        length-buffer h,
        h.room,
      );
      small = small;
    }

-- `az_buffer_read` takes the next `len` bytes out, in order, if so many are stored and fit.
pub read_lem :
    {b : AzBuffer} (q r : List ℕ) (len dsize : ℕ)
    → Holds b (q ++ r)
    → len ≡ length q
    → len ≤ dsize
    → (out : Read) × (read b len dsize ≡ some out)
      × (out.ret ≡ to_int len)
      × (out.dst ≡ q)
      × (out.dused ≡ len)
      × Holds out.rest r
unfolding read
read_lem {b} q r len dsize h e le = (
  record { ret = to_int len; dst = q; dused = len; rest = record b { cursor = b.cursor + len } },
  ground (arith, found, enough),
  refl,
  refl,
  refl,
  rw e (advance-Holds q r h),
)
  where
    found : read_at b.buffer b.cursor len ≡ some q
    found = rw e (read_at-Holds q r h)

    enough : unread_bytes b ≡ len + length r
    enough = omega (arith, unread_bytes_lem h, length-append q r)

-- Whatever the descriptor delivers, a fetch that does not leave the block leaves a buffer that holds
-- something.
pub fetch_file-Holds :
    {b : AzBuffer} {q : List ℕ} (fd : Source) (size : ℕ) {r : ℤ × AzBuffer}
    → Holds b q
    → fetch_file b fd size ≡ some r
    → (q' : List ℕ) × Holds r.1 q'
fetch_file-Holds {b} {q} fd size {r} h e =
    fetched-Holds (fd (min (b.size - b.used) size)) h (sym (fetch_file_asks fd size _ h refl) ∙ e)
