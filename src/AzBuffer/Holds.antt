-- ===== src/AzBuffer/Holds.antt =====
-- What a buffer of common/azbuffer.c stands for: the queue of the bytes that are stored and not
-- yet read.
use compostela.Prelude.{
  ℕ, zero, suc, ◌+◌, ◌-◌, ◌^◌, ◌≤◌, ◌<◌, ◌≡◌, refl, sym, ap, ◌∙◌, List, [], ◌++◌, true, some, arith,
  length, take, drop, length-append, take-append-drop, append_assoc, length-take, length-drop,
}
use compostela.Prelude.Memory.{read_at, read_at-middle}
use compostela.AzBuffer.{AzBuffer, fill, new, unused_bytes, unread_bytes, reset}

-- The buffer `b` holds the bytes `q`: they lie between the cursor and the end of what is used.
-- No block is larger than half the address space.
pub record Holds (b : AzBuffer) (q : List ℕ) : Type 0 where
  pub before : List ℕ
  pub after : List ℕ
  pub layout : b.buffer ≡ before ++ (q ++ after)
  pub start : b.cursor ≡ length before
  pub stop : b.used ≡ b.cursor + length q
  pub room : b.size ≡ b.used + length after
  pub small : b.size < 2 ^ 63

pub length-fill : (junk : ℕ → ℕ) (n : ℕ) → length (fill junk n) ≡ n
unfolding fill
length-fill junk zero = refl
length-fill junk (suc n) = ap suc (length-fill junk n)

pub length-buffer : {b : AzBuffer} {q : List ℕ} → Holds b q → length b.buffer ≡ b.size
length-buffer {b} {q} h = omega (
  arith,
  ap length h.layout,
  length-append h.before (q ++ h.after),
  length-append q h.after,
  h.start,
  h.stop,
  h.room,
)

-- The two counts of a valid buffer do not wrap.
pub unread_bytes_lem : {b : AzBuffer} {q : List ℕ} → Holds b q → unread_bytes b ≡ length q
unfolding unread_bytes
unread_bytes_lem h = omega (arith, h.stop, h.room, h.small)

pub unused_bytes_lem : {b : AzBuffer} {q : List ℕ} → Holds b q → unused_bytes b + b.used ≡ b.size
unfolding unused_bytes
unused_bytes_lem h = omega (arith, h.room, h.small)

-- A buffer whose numbers are in order holds what lies between them.
pub record IsValid (b : AzBuffer) : Type 0 where
  pub read_in : b.cursor ≤ b.used
  pub used_in : b.used ≤ b.size
  pub whole : length b.buffer ≡ b.size
  pub addressable : b.size < 2 ^ 63

pub IsValid-Holds :
    (b : AzBuffer) → IsValid b → Holds b (take (b.used - b.cursor) (drop b.cursor b.buffer))
IsValid-Holds b v = record {
  before = take b.cursor b.buffer;
  after = drop (b.used - b.cursor) (drop b.cursor b.buffer);
  layout = sym (
      ap (λ t. take b.cursor b.buffer ++ t)
        (take-append-drop (b.used - b.cursor) (drop b.cursor b.buffer))
      ∙ take-append-drop b.cursor b.buffer);
  start = omega (arith, length-take b.cursor b.buffer);
  stop = omega (
    arith,
    length-take (b.used - b.cursor) (drop b.cursor b.buffer),
    length-drop b.cursor b.buffer,
  );
  room = omega (
    arith,
    length-drop (b.used - b.cursor) (drop b.cursor b.buffer),
    length-drop b.cursor b.buffer,
  );
  small = v.addressable;
}

-- `az_buffer_new` with memory at hand gives an empty buffer of the size asked for.
pub new_lem :
    (junk : ℕ → ℕ) (size : ℕ)
    → size < 2 ^ 63
    → (b : AzBuffer) × (new true (some junk) size ≡ some b) × Holds b [] × (unused_bytes b ≡ size)
unfolding new unused_bytes
new_lem junk size h = (
  record { buffer = fill junk size; cursor = 0; size = size; used = 0 },
  refl,
  record {
    before = [];
    after = fill junk size;
    layout = refl;
    start = refl;
    stop = omega arith;
    room = omega (arith, length-fill junk size);
    small = h;
  },
  omega arith,
)

-- `az_buffer_reset` forgets what is stored, and gives the whole block back.
pub reset_lem :
    {b : AzBuffer} {q : List ℕ} → Holds b q → Holds (reset b) [] × (unused_bytes (reset b) ≡ b.size)
unfolding reset unused_bytes
reset_lem {b} h = (
  record {
    before = [];
    after = b.buffer;
    layout = refl;
    start = refl;
    stop = omega arith;
    room = omega (arith, length-buffer h);
    small = h.small;
  },
  omega (arith, h.small),
)

-- The stored bytes are what a read at the cursor finds.
pub read_at-Holds :
    {b : AzBuffer} (q r : List ℕ) → Holds b (q ++ r) → read_at b.buffer b.cursor (length q) ≡ some q
read_at-Holds {b} q r h =
    ap (λ m. read_at m b.cursor (length q))
      (h.layout ∙ ap (λ t. h.before ++ t) (append_assoc q r h.after))
    ∙ read_at-middle h.before q (r ++ h.after) b.cursor (length q) h.start refl

-- Moving the cursor past `q` leaves the rest.
pub advance-Holds :
    {b : AzBuffer} (q r : List ℕ)
    → Holds b (q ++ r)
    → Holds (record b { cursor = b.cursor + length q }) r
advance-Holds {b} q r h = record {
  before = h.before ++ q;
  after = h.after;
  layout =
      h.layout
      ∙ ap (λ t. h.before ++ t) (append_assoc q r h.after)
      ∙ sym (append_assoc h.before q (r ++ h.after));
  start = omega (arith, length-append h.before q, h.start);
  stop = omega (arith, length-append q r, h.stop);
  room = h.room;
  small = h.small;
}
