-- ===== src/AzBuffer/Shift.antt =====
-- The shift and the copy that `az_buffer_push_back` of common/azbuffer.c makes.
use compostela.Prelude.{
  ℕ, ◌+◌, ◌-◌, ◌^◌, ◌≤◌, ◌<◌, ◌≡◌, refl, sym, ap, ◌∙◌, List, [], ◌++◌, false, none, some, arith,
  ltb, length, take, drop, length-append, take-append-drop, append_assoc, append-nil, length-take,
  length-drop, min, ◌==◌, ◌≢◌, if◌then◌else◌, Option-cases, inl, inr, take_all, length-eq-zero, ap₂,
}
use compostela.Prelude.Words.{add64}
use compostela.Prelude.Memory.{
  read_at, write_at, write_at-middle, write_at-some, read_at-middle, length-read_at, read_at-take,
  write_at-none,
}
use compostela.AzBuffer.{AzBuffer, shifted}
use compostela.AzBuffer.Holds.{Holds, length-buffer}

pub shifted-none : (b : AzBuffer) (r : ℕ) → b.used ≡ 0 → shifted b r ≡ some b.buffer
unfolding shifted
shifted-none b r z = ground arith

pub shifted-faults :
    (b : AzBuffer) (r : ℕ)
    → b.used ≢ 0
    → length b.buffer < b.cursor + r + b.used
    → shifted b r ≡ none
unfolding shifted
shifted-faults b r nz over = elim (Option-cases (read_at b.buffer b.cursor b.used)) [
  | inl e ↦ rw (nonzero, e)
  | inr (bytes, e) ↦
      rw (nonzero, e)
        (write_at-none b.buffer bytes (b.cursor + r)
          (omega (arith, length-read_at b.buffer b.cursor b.used e)))
]
  where
    nonzero : (b.used == 0) ≡ false
    nonzero = ground arith

pub read_at-all : (src : List ℕ) → read_at src 0 (length src) ≡ some src
read_at-all src =
    read_at-take src (length src) (omega arith) ∙ ap some (take_all (length src) src (omega arith))

module _ {g : AzBuffer} {q : List ℕ} (h : Holds g q) (src : List ℕ) (r : ℕ) where
  -- What the shift moves: what is stored, and as many bytes behind it as were read.
  abbrev pub moving : List ℕ
  moving = q ++ take g.cursor h.after

  abbrev pub front : List ℕ
  front = take (g.cursor + r) g.buffer

  abbrev pub behind : List ℕ
  behind = drop (g.cursor + r + length moving) g.buffer

  pub length-moving : g.cursor + g.used ≤ g.size → length moving ≡ g.used
  length-moving fits =
      omega (
        arith,
        length-append q (take g.cursor h.after),
        length-take g.cursor h.after,
        h.stop,
        h.room,
      )

  regroup : g.buffer ≡ h.before ++ (moving ++ drop g.cursor h.after)
  regroup =
      h.layout
      ∙ ap (λ t. h.before ++ (q ++ t)) (sym (take-append-drop g.cursor h.after))
      ∙ ap (λ t. h.before ++ t)
          (sym (append_assoc q (take g.cursor h.after) (drop g.cursor h.after)))

  pub shifted_lem :
      g.used ≢ 0 → g.cursor + r + g.used ≤ g.size → shifted g r ≡ some (front ++ (moving ++ behind))
  unfolding shifted
  shifted_lem nz fits = rw (nonzero, found) written
    where
      e : length moving ≡ g.used
      e = length-moving (omega arith)

      nonzero : (g.used == 0) ≡ false
      nonzero = ground arith

      found : read_at g.buffer g.cursor g.used ≡ some moving
      found =
          ap (λ m. read_at m g.cursor g.used) regroup
          ∙ read_at-middle h.before moving (drop g.cursor h.after) g.cursor g.used h.start (sym e)

      written : write_at g.buffer (g.cursor + r) moving ≡ some (front ++ (moving ++ behind))
      written = write_at-some g.buffer moving (g.cursor + r) (omega (arith, e, length-buffer h))

  length-front : g.cursor + r ≤ g.size → length front ≡ g.cursor + r
  length-front fits = omega (arith, length-take (g.cursor + r) g.buffer, length-buffer h)

  -- `src` goes in front of what was moved, over the end of `front`.
  pub placed :
      (m : ℕ)
      → g.cursor + r + g.used ≤ g.size
      → m + length src ≡ g.cursor + r
      → write_at (front ++ (moving ++ behind)) m src
        ≡ some (take m front ++ (src ++ (moving ++ behind)))
  placed m fits e =
      ap (λ t. write_at t m src)
        (ap (λ t. t ++ (moving ++ behind)) (sym (take-append-drop m front))
          ∙ append_assoc (take m front) (drop m front) (moving ++ behind))
      ∙ write_at-middle (take m front) (drop m front) (moving ++ behind) src m
          (omega (arith, length-take m front, length-front (omega arith)))
          (omega (arith, length-drop m front, length-front (omega arith)))

  pub placed-Holds :
      (m : ℕ)
      → g.cursor + r + g.used ≤ g.size
      → m + length src ≡ g.cursor + r
      → Holds
          (record g {
            buffer = take m front ++ (src ++ (moving ++ behind));
            cursor = m;
            used = length q + (g.cursor + r);
          })
          (src ++ q)
  placed-Holds m fits e = record {
    before = take m front;
    after = take g.cursor h.after ++ behind;
    layout =
        ap (λ t. take m front ++ t)
          (ap (λ t. src ++ t) (append_assoc q (take g.cursor h.after) behind)
            ∙ sym (append_assoc src q (take g.cursor h.after ++ behind)));
    start = omega (arith, length-take m front, length-front (omega arith));
    stop = omega (arith, length-append src q);
    room = omega (
      arith,
      length-append (take g.cursor h.after) behind,
      length-take g.cursor h.after,
      length-drop (g.cursor + r + length moving) g.buffer,
      length-moving (omega arith),
      length-buffer h,
      h.room,
      h.stop,
    );
    small = h.small;
  }

-- The empty, unread buffer has `src` copied to its start.
pub fresh_placed :
    {g : AzBuffer} {q : List ℕ} (h : Holds g q) (src : List ℕ)
    → g.used ≡ 0
    → length src ≤ g.size
    → write_at g.buffer 0 src ≡ some (src ++ drop (length src) h.after)
fresh_placed {g} {q} h src z fits =
    ap (λ m. write_at m 0 src)
      (h.layout
        ∙ ap₂ (λ s t. s ++ (t ++ h.after))
            (length-eq-zero h.before (omega (arith, h.start, h.stop)))
            (length-eq-zero q (omega (arith, h.stop)))
        ∙ sym (take-append-drop (length src) h.after))
    ∙ write_at-middle [] (take (length src) h.after) (drop (length src) h.after) src 0 refl
        (omega (arith, length-take (length src) h.after, h.room))

pub fresh_placed-Holds :
    {g : AzBuffer} {q : List ℕ} (h : Holds g q) (src : List ℕ) (n : ℕ)
    → g.used ≡ 0
    → length src ≤ g.size
    → n ≡ length src
    → Holds
        (record g { buffer = src ++ drop (length src) h.after; cursor = 0; used = n })
        (src ++ q)
fresh_placed-Holds {g} {q} h src n z fits e = record {
  before = [];
  after = drop (length src) h.after;
  layout = ap (λ t. t ++ drop (length src) h.after) (sym right_unit);
  start = refl;
  stop = omega (arith, length-append src q, h.stop);
  room = omega (arith, length-drop (length src) h.after, h.room);
  small = h.small;
}
  where
    right_unit : src ++ q ≡ src
    right_unit = ap (λ t. src ++ t) (length-eq-zero q (omega (arith, h.stop))) ∙ append-nil src

-- The numbers of the push: how far the stored bytes move, and how far the cursor goes back.
pub shift_count :
    (used n ssize : ℕ)
    → used ≢ 0
    → (if used == 0 then 0 else if ltb n ssize then ssize - n else 0) ≡ ssize - n
shift_count used n ssize nz = ground arith

pub back_count :
    (n ssize : ℕ) → (if ltb (ssize - (ssize - n)) n then ssize - (ssize - n) else n) ≡ min ssize n
back_count n ssize = ground arith

pub used_count :
    (n u ssize : ℕ)
    → ssize + u < 2 ^ 63
    → n + u < 2 ^ 63
    → add64 u (if ltb n ssize then ssize else n) ≡ u + (n + (ssize - n))
used_count n u ssize h k = ground arith
