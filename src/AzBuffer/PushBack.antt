-- ===== src/AzBuffer/PushBack.antt =====
-- `az_buffer_push_back` of common/azbuffer.c.
use compostela.Prelude.{
  subst, ℕ, ◌+◌, ◌-◌, ◌^◌, ◌≤◌, ◌<◌, ◌≡◌, refl, List, ◌++◌, true, false, none, some, arith, ltb,
  length, take, drop, min, max, ◌==◌, le→leb, take_all,
}
use native.Mathlib.Decide.{ℕ_discrete}
use compostela.Prelude.Words.{pos, add64}
use compostela.Prelude.Memory.{read_at-take}
use compostela.AzBuffer.{resize, AzBuffer, Heap, shifted, pushed, push_back}
use compostela.AzBuffer.Holds.{Holds, unread_bytes_lem, length-buffer}
use compostela.AzBuffer.Fetch.{resize_lem}
use compostela.AzBuffer.Shift.{
  moving, front, behind, shifted-none, shifted-faults, read_at-all, shifted_lem, placed,
  placed-Holds, fresh_placed, fresh_placed-Holds, shift_count, back_count, used_count,
}

-- With room for the shift, the push puts `src` in front of what is stored.
pushed-Holds :
    {g : AzBuffer} {q : List ℕ} (src : List ℕ)
    → Holds g q
    → length src + length q ≤ g.size
    → max (length src) g.cursor + g.used ≤ g.size
    → (b' : AzBuffer) × (pushed g g.cursor (length q) src (length src) ≡ some (pos 0, b'))
      × Holds b' (src ++ q)
unfolding pushed
pushed-Holds {g} {q} src h fits wide = elim (ℕ_discrete g.used 0) [
  | yes z ↦ (
    record g { buffer = src ++ drop (length src) h.after; cursor = 0; used = length src },
    ground (
      arith,
      shifted-none g 0 z,
      read_at-take src (length src),
      take_all (length src) src,
      fresh_placed h src z (omega arith),
      h.small,
      h.stop,
    ),
    fresh_placed-Holds h src (length src) z (omega arith) refl,
  )
  | no nz ↦ (
    record g {
      buffer = take m (front h src r) ++ (src ++ (moving h src r ++ behind h src r));
      cursor = m;
      used = length q + (g.cursor + r);
    },
    rw (
      shift_count g.used g.cursor (length src) nz,
      back_count g.cursor (length src),
      shifted_lem h src r nz (omega arith),
      le→leb (min (length src) g.cursor) g.cursor (omega arith),
      read_at-all src,
      back_to,
      placed h src r m (omega arith) (omega arith),
      used_count g.cursor (length q) (length src) (omega (arith, h.small))
          (omega (arith, h.small, h.stop, h.room)),
    ),
    placed-Holds h src r m (omega arith) (omega arith),
  )
]
  where
    r : ℕ
    r = length src - g.cursor

    m : ℕ
    m = g.cursor - length src

    back_to : g.cursor - min (length src) g.cursor ≡ m
    back_to = omega arith

-- Pushing back non-empty bytes that fit beside what is stored, where the shift of `used` bytes
-- stays in the block, puts them in front of what is stored.
pub push_back-Holds :
    {b : AzBuffer} {q : List ℕ} (heap : Heap) (src : List ℕ)
    → Holds b q
    → 0 < length src
    → length src + length q ≤ b.size
    → max (length src) b.cursor + b.used ≤ b.size
    → (b' : AzBuffer) × (push_back heap b (some src) (length src) ≡ some (pos 0, b'))
      × Holds b' (src ++ q)
unfolding push_back
push_back-Holds {b} {q} heap src h nonempty fits wide =
    let done = pushed-Holds src h fits wide in
    (done.0, rw (unread_bytes_lem h, nonzero, roomy) done.1, done.2)
  where
    nonzero : (length src == 0) ≡ false
    nonzero = ground arith

    roomy : ltb b.size (add64 (length src) (length q)) ≡ false
    roomy = ground (arith, h.small)

-- Bytes that do not fit make the buffer grow first, and then the push always succeeds, if there is
-- memory for a block of `size + 2 * ssize`.
push_back-grows :
    {b : AzBuffer} {q : List ℕ} (junk : ℕ → ℕ) (src : List ℕ)
    → Holds b q
    → b.size < length src + length q
    → b.size + (length src + length src) < 2 ^ 63
    → (b' : AzBuffer) × (push_back (some junk) b (some src) (length src) ≡ some (pos 0, b'))
      × Holds b' (src ++ q)
unfolding push_back
push_back-grows {b} {q} junk src h crowded small =
    let newsize : ℕ = b.size + (length src + length src) in
    let big = resize_lem junk newsize h (omega (arith, h.room)) small in
    let grown : AzBuffer = (resize (some junk) b newsize).1 in
    let done =
      pushed-Holds src big.1 (omega (arith, big.2))
        (omega (arith, big.2, big.3, big.4, h.room, h.stop)) in
    (
      done.0,
      rw (unread_bytes_lem h, nonzero, crowd, exact)
          (subst (λ c. pushed grown c (length q) src (length src) ≡ some (pos 0, done.0)) big.3
            done.1),
      done.2,
    )
  where
    nonzero : (length src == 0) ≡ false
    nonzero = ground (arith, h.stop, h.room)

    crowd : ltb b.size (add64 (length src) (length q)) ≡ true
    crowd = ground (arith, h.small, h.stop, h.room)

    exact : add64 b.size (add64 (length src) (length src)) ≡ b.size + (length src + length src)
    exact = omega arith

-- The shift moves `used` bytes and not the unread ones: where bytes were read before, and fewer
-- than `used` lie behind the place that the unread ones move to, it leaves the block.
pub push_back-faults :
    {b : AzBuffer} {q : List ℕ} (heap : Heap) (src : List ℕ)
    → Holds b q
    → 0 < length src
    → 0 < b.used
    → length src + length q ≤ b.size
    → b.size < max (length src) b.cursor + b.used
    → push_back heap b (some src) (length src) ≡ none
unfolding push_back pushed
push_back-faults {b} {q} heap src h nonempty nz fits over = rw (
  unread_bytes_lem h,
  nonzero,
  roomy,
  shift_count b.used b.cursor (length src) (λ e. omega arith),
  overrun,
)
  where
    nonzero : (length src == 0) ≡ false
    nonzero = ground arith

    roomy : ltb b.size (add64 (length src) (length q)) ≡ false
    roomy = ground (arith, h.small)

    overrun : shifted b (length src - b.cursor) ≡ none
    overrun =
        shifted-faults b (length src - b.cursor) (λ e. omega arith) (omega (arith, length-buffer h))
