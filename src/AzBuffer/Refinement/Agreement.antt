-- ===== src/AzBuffer/Refinement/Agreement.antt =====
-- The operations of common/azbuffer.c that fill, empty and resize a buffer, against the queue.
use compostela.Prelude.{
  ℕ, ◌-◌, ◌^◌, ◌≤◌, ◌<◌, ◌≡◌, refl, sym, ap, ◌∙◌, subst, List, [], ◌++◌, Option, none, some, arith,
  true, false, ltb, leb, length, take, drop, min, Bool-cases, inl, inr, take_all, >>=-eq-some,
  take-append-drop, length-take,
}
use compostela.Prelude.Words.{pos, negsuc, to_int}
use compostela.Prelude.Memory.{read_at}
use compostela.AzBuffer.{AzBuffer, Read, read, resize, reset, unread_bytes}
use compostela.AzBuffer.Holds.{Holds, reset_lem, unread_bytes_lem}
use compostela.AzBuffer.Fetch.{
  fetch_bytes_lem, fetch_file_lem, fetch_file_error, resize_lem, read_lem,
}
use compostela.AzBuffer.Refinement.{
  Op, Output, source_of, seen, run_op, Queue, spec_op, Represents, Agrees,
}

take-min :
    (bytes : List ℕ) (room room' : ℕ)
    → room ≡ room'
    → take (min room (length bytes)) bytes ≡ take room' bytes
take-min bytes room room' e = elim (Bool-cases (leb room (length bytes))) [
  | inl within ↦
      let same : min room (length bytes) ≡ room' = ground (arith, within, e) in
      ap (λ n. take n bytes) same
  | inr beyond ↦
      let all : length bytes ≤ room = ground (arith, beyond) in
      take_all (min room (length bytes)) bytes (omega (arith, all))
      ∙ sym (take_all room' bytes (omega (arith, all, e)))
]

pub fetch-Agrees :
    (junk : ℕ → ℕ) (bytes : List ℕ) {b : AzBuffer} (s : Queue)
    → Represents b s
    → Agrees junk (Op.fetch bytes) b s
unfolding run_op spec_op
fetch-Agrees junk bytes {b} s r =
    let done = fetch_bytes_lem bytes (length bytes) r.holds (omega arith) in
    let n : ℕ = min (b.size - b.used) (length bytes) in
    let stored : take n bytes ≡ take (s.size - s.used) bytes =
      take-min bytes (b.size - b.used) (s.size - s.used)
        (omega (arith, r.same_size, r.same_used)) in
    let count : n ≡ length (take (s.size - s.used) bytes) =
      omega (arith, length-take (s.size - s.used) bytes, r.same_size, r.same_used) in
    (
      done.0,
      rw (done.1, count) refl,
      record {
        holds = subst (λ t. Holds done.0 (s.bytes ++ t)) stored done.2;
        same_used = omega (arith, done.4, r.same_used, count);
        same_size = done.3 ∙ r.same_size;
      },
    )

pub fetch_from-Agrees :
    (junk : ℕ → ℕ) (got : Option (List ℕ)) (size : ℕ) {b : AzBuffer} (s : Queue)
    → Represents b s
    → Agrees junk (Op.fetch_from got size) b s
unfolding run_op spec_op
fetch_from-Agrees junk none size {b} s r =
    (b, rw (fetch_file_error (source_of none) size r.holds refl) refl, r)
fetch_from-Agrees junk (some bytes) size {b} s r =
    let room : min (b.size - b.used) size ≡ min (s.size - s.used) size =
      omega (arith, r.same_size, r.same_used) in
    let stored : List ℕ = take (min (s.size - s.used) size) bytes in
    let done =
      fetch_file_lem (source_of (some bytes)) size stored r.holds
        (ap (λ n. some (take n bytes)) room)
        (omega (arith, room, length-take (min (s.size - s.used) size) bytes)) in
    (
      done.0,
      rw (done.1) refl,
      record {
        holds = done.2;
        same_used = omega (arith, done.4, r.same_used);
        same_size = done.3 ∙ r.same_size;
      },
    )

-- An operation agrees where both sides are known.
pub agrees :
    (junk : ℕ → ℕ) (op : Op) (b : AzBuffer) (s : Queue) (o : Output) (s' : Queue) (b' : AzBuffer)
    → spec_op op s ≡ (o, s')
    → run_op junk op b ≡ some (o, b')
    → Represents b' s'
    → Agrees junk op b s
agrees junk op b s o s' b' there here r = (b', rw there here, rw there r)

read_wide :
    (b : AzBuffer) (len dsize : ℕ)
    → ltb dsize len ≡ true
    → read b len dsize ≡ some (record { ret = negsuc 0; dst = []; dused = 0; rest = b })
unfolding read
read_wide b len dsize e = rw e refl

read_short :
    (b : AzBuffer) (len dsize : ℕ)
    → ltb dsize len ≡ false
    → ltb (unread_bytes b) len ≡ true
    → read b len dsize ≡ some (record { ret = negsuc 1; dst = []; dused = 0; rest = b })
unfolding read
read_short b len dsize e f = rw (e, f) refl

pub read-keeps :
    (b : AzBuffer) (len dsize : ℕ) {out : Read}
    → read b len dsize ≡ some out
    → (out.rest.used ≡ b.used) × (out.rest.size ≡ b.size)
unfolding read
read-keeps b len dsize {out} e = elim (Bool-cases (ltb dsize len)) [
  | inl wide ↦ (ground (arith, (rw wide at e)), ground (arith, (rw wide at e)))
  | inr fits ↦ elim (Bool-cases (ltb (unread_bytes b) len)) [
    | inl short ↦ (ground (arith, (rw (fits, short) at e)), ground (arith, (rw (fits, short) at e)))
    | inr enough ↦
        let bytes = >>=-eq-some (read_at b.buffer b.cursor len) _ (rw (fits, enough) at e) in
        (ground (arith, bytes.2), ground (arith, bytes.2))
  ]
]

resize_refused :
    (junk : ℕ → ℕ) (b : AzBuffer) (newsize : ℕ)
    → ltb newsize b.used ≡ true
    → resize (some junk) b newsize ≡ (negsuc 999, b)
unfolding resize
resize_refused junk b newsize e = rw e refl

pub take_bytes-Agrees :
    (junk : ℕ → ℕ) (len dsize : ℕ) {b : AzBuffer} (s : Queue)
    → Represents b s
    → Agrees junk (Op.take_bytes len dsize) b s
unfolding run_op spec_op seen
take_bytes-Agrees junk len dsize {b} s r = elim (Bool-cases (ltb dsize len)) [
  | inl wide ↦
      agrees junk (Op.take_bytes len dsize) b s (negsuc 0, []) s b (rw wide refl)
        (rw (read_wide b len dsize wide) refl) r
  | inr fits ↦ elim (Bool-cases (ltb (length s.bytes) len)) [
    | inl short ↦
        agrees junk (Op.take_bytes len dsize) b s (negsuc 1, []) s b (rw (fits, short) refl)
          (rw (read_short b len dsize fits (ap (λ n. ltb n len) (unread_bytes_lem r.holds) ∙ short))
            refl)
          r
    | inr enough ↦
        let there : length (take len s.bytes) ≡ len =
          omega (arith, length-take len s.bytes, ltb-false (length s.bytes) len enough) in
        let whole : Holds b (take len s.bytes ++ drop len s.bytes) =
          subst (Holds b) (sym (take-append-drop len s.bytes)) r.holds in
        let done =
          read_lem (take len s.bytes) (drop len s.bytes) len dsize whole (sym there)
            (ltb-false dsize len fits) in
        let kept = read-keeps b len dsize done.1 in
        agrees junk (Op.take_bytes len dsize) b s (to_int len, take len s.bytes)
          (record s { bytes = drop len s.bytes }) (done.0).rest (rw (fits, enough) refl)
          (rw (done.1, done.2, done.3) refl)
          (record {
            holds = done.5;
            same_used = kept.0 ∙ r.same_used;
            same_size = kept.1 ∙ r.same_size;
          })
  ]
]
  where
    ltb-false : (m n : ℕ) → ltb m n ≡ false → n ≤ m
    ltb-false m n e = ground arith

pub grow-Agrees :
    (junk : ℕ → ℕ) (newsize : ℕ) {b : AzBuffer} (s : Queue)
    → newsize < 2 ^ 63
    → Represents b s
    → Agrees junk (Op.grow newsize) b s
unfolding run_op spec_op
grow-Agrees junk newsize {b} s small r = elim (Bool-cases (ltb newsize s.used)) [
  | inl less ↦
      agrees junk (Op.grow newsize) b s (negsuc 999, []) s b (rw less refl)
        (rw (resize_refused junk b newsize (ap (ltb newsize) r.same_used ∙ less)) refl) r
  | inr more ↦
      let grown =
        resize_lem junk newsize r.holds (omega (arith, ltb-false newsize s.used more, r.same_used))
          small in
      agrees junk (Op.grow newsize) b s (pos 0, []) (record s { size = newsize })
        (resize (some junk) b newsize).1 (rw more refl) (rw (grown.0) refl)
        (record { holds = grown.1; same_used = grown.4 ∙ r.same_used; same_size = grown.2 })
]
  where
    ltb-false : (m n : ℕ) → ltb m n ≡ false → n ≤ m
    ltb-false m n e = ground arith

pub clear-Agrees :
    (junk : ℕ → ℕ) {b : AzBuffer} (s : Queue) → Represents b s → Agrees junk Op.clear b s
unfolding run_op spec_op reset
clear-Agrees junk {b} s r = (
  reset b,
  refl,
  record { holds = (reset_lem r.holds).0; same_used = refl; same_size = r.same_size },
)
