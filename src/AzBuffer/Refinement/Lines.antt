-- ===== src/AzBuffer/Refinement/Lines.antt =====
-- `az_buffer_read_line` of common/azbuffer.c against the first line of the queue.
use compostela.Prelude.{
  ℕ, ◌≤◌, ◌<◌, ◌≡◌, refl, sym, ap, ◌∙◌, subst, List, [], ◌∷◌, ◌++◌, Option, none, some, arith, ltb,
  ◌==◌, if◌then◌else◌, length, take, drop, Bool-cases, Option-cases, inl, inr, length-eq-zero,
  >>=-eq-some, take-append-drop, length-take,
}
use compostela.Prelude.Words.{negsuc}
use compostela.Prelude.Memory.{mem_chr, read_at}
use compostela.AzBuffer.{AzBuffer, Read, read, read_line, line_length, line_ret, unread_bytes}
use compostela.AzBuffer.Holds.{Holds}
use compostela.AzBuffer.ReadLine.{read_line-step, read_line-empty, terminator}
use compostela.AzBuffer.Refinement.{
  Op, seen, run_op, Queue, line_end, first_line, line_code, spec_op, Represents, Agrees,
}
use compostela.AzBuffer.Refinement.Agreement.{agrees, read-keeps}

-- The code of a line.
line_ret-code : (p : Option ℕ) → line_ret p ≡ line_code p
unfolding line_ret
line_ret-code none = refl
line_ret-code (some k) = refl

line_length-end :
    (p : Option ℕ) (window : List ℕ) → line_length p (length window) ≡ line_end p window
unfolding line_length
line_length-end none window = refl
line_length-end (some k) window = refl

mem_chr-lt : (c : ℕ) (w : List ℕ) {k : ℕ} → mem_chr c w ≡ some k → k < length w
unfolding mem_chr
mem_chr-lt c [] e = cc
mem_chr-lt c (x ∷ w) {k} e = elim (Bool-cases (x == c)) [
  | inl here ↦ ground (arith, (rw here at e))
  | inr further ↦ elim (Option-cases (mem_chr c w)) [
    | inl lacks ↦ absurd (ground (arith, (rw (further, lacks) at e)))
    | inr at_ ↦ ground (arith, mem_chr-lt c w at_.1, (rw (further, at_.1) at e))
  ]
]

line_end-within : (c : ℕ) (w : List ℕ) → line_end (mem_chr c w) w ≤ length w
line_end-within c w = elim (Option-cases (mem_chr c w)) [
  | inl lacks ↦ rw lacks (omega arith)
  | inr found ↦ rw (found.1) (omega (arith, mem_chr-lt c w found.1))
]

read_line-keeps :
    (b : AzBuffer) (dsize : ℕ) {out : Read}
    → read_line b dsize ≡ some out
    → (out.rest.used ≡ b.used) × (out.rest.size ≡ b.size)
unfolding read_line
read_line-keeps b dsize {out} e = elim (Bool-cases (unread_bytes b == 0)) [
  | inl empty ↦ (ground (arith, (rw empty at e)), ground (arith, (rw empty at e)))
  | inr full ↦
      let len : ℕ = if ltb dsize (unread_bytes b) then dsize else unread_bytes b in
      let window = >>=-eq-some (read_at b.buffer b.cursor len) _ (rw full at e) in
      let n : ℕ = line_length (mem_chr b'\n' window.0) len in
      let r = >>=-eq-some (read b n dsize) _ window.2 in
      let kept = read-keeps b n dsize r.1 in
      let same : (r.0).rest ≡ out.rest = ground (arith, r.2) in
      (
        sym (ap (λ (g : AzBuffer). g.used) same) ∙ kept.0,
        sym (ap (λ (g : AzBuffer). g.size) same) ∙ kept.1,
      )
]

pub take_line-Agrees :
    (junk : ℕ → ℕ) (dsize : ℕ) {b : AzBuffer} (s : Queue)
    → Represents b s
    → Agrees junk (Op.take_line dsize) b s
unfolding run_op spec_op seen
take_line-Agrees junk dsize {b} s r = elim (Bool-cases (length s.bytes == 0)) [
  | inl empty ↦
      let nothing : s.bytes ≡ [] = length-eq-zero s.bytes (ground (arith, empty)) in
      agrees junk (Op.take_line dsize) b s (negsuc 0, []) s b (rw empty refl)
        (rw (read_line-empty dsize (subst (Holds b) nothing r.holds)) refl) r
  | inr full ↦
      let q : List ℕ = s.bytes in
      let window : List ℕ = take dsize q in
      let p : Option ℕ = mem_chr b'\n' window in
      let n : ℕ = line_end p window in
      let line : List ℕ = first_line q dsize in
      let within : n ≤ length window = line_end-within b'\n' window in
      let len : length line ≡ n = omega (arith, within, length-take dsize q, length-take n q) in
      let joined : window ++ drop dsize q ≡ q = take-append-drop dsize q in
      let split : line ++ drop (length line) q ≡ q =
        ap (λ m. line ++ drop m q) len ∙ take-append-drop n q in
      let step =
        read_line-step window (drop dsize q) line (drop (length line) q) dsize p
          (subst (Holds b) (sym joined) r.holds) (joined ∙ sym split)
          (rw joined (ground (arith, full))) (rw joined (omega (arith, length-take dsize q))) refl
          (line_length-end p window ∙ sym len) (omega (arith, len, within, length-take dsize q)) in
      let kept = read_line-keeps b dsize step.1 in
      agrees junk (Op.take_line dsize) b s (line_code p, line ++ terminator (length line) dsize)
        (record s { bytes = drop (length line) q }) (step.0).rest (rw full refl)
        (rw (step.1, step.2, step.3, line_ret-code p) refl)
        (record {
          holds = step.5;
          same_used = kept.0 ∙ r.same_used;
          same_size = kept.1 ∙ r.same_size;
        })
]

-- A line that is read leaves a buffer that holds something.
pub read_line-Holds :
    {b : AzBuffer} {q : List ℕ} (dsize : ℕ) {out : Read}
    → Holds b q
    → read_line b dsize ≡ some out
    → (q' : List ℕ) × Holds out.rest q'
unfolding run_op seen
read_line-Holds {b} {q} dsize {out} h e =
    let queue : Queue = record { bytes = q; used = b.used; size = b.size } in
    let left : List ℕ = (spec_op (Op.take_line dsize) queue).1.bytes in
    let done =
      take_line-Agrees (λ n. n) dsize queue
        (record { holds = h; same_used = refl; same_size = refl }) in
    let here = >>=-eq-some (read_line b dsize) (λ r. some (seen r)) done.1 in
    let same : done.0 ≡ out.rest = ground (arith, here.1, here.2, e) in
    (left, subst (λ g. Holds g left) same done.2.holds)
