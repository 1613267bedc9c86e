-- ===== src/Transport/Send.antt =====
-- `sendall` of common/supports.c and `writeall` of logger/main.c: what goes out.
use compostela.Prelude.{
  ℕ, zero, suc, ◌+◌, ◌-◌, ◌≤◌, ◌<◌, ◌^◌, ◌≡◌, refl, sym, ap, subst, ◌∙◌, List, [], ◌∷◌, ◌++◌,
  Option, none, some, arith, length, take, drop, min, append_assoc, take-append-drop, length-take,
  length-drop, inl, inr, ◌⊎◌, length-append,
}
use compostela.Prelude.Words.{pos, negsuc}
use compostela.Transport.{
  Sent, took, nothing, broken, Sending, progress, send_loop, sendall, also_sent,
}

-- What the loop has done when it stops: `wire` is the first part of the bytes, and the result
-- counts it; with no byte moved at all the result is that of the last call.
pub record Sends (moved : ℕ) (bytes : List ℕ) (s : Sending) : Type 0 where
  pub unsent : List ℕ
  pub cut : bytes ≡ s.wire ++ unsent
  pub counted :
      (s.ret ≡ progress (moved + length s.wire) (pos 0))
      ⊎ ((s.ret ≡ progress (moved + length s.wire) (negsuc 0)) × (0 < length unsent))

also_sent-some :
    (bytes : List ℕ) (o : Option Sending) {s : Sending}
    → also_sent bytes o ≡ some s
    → (t : Sending) × (o ≡ some t)
      × (s.ret ≡ t.ret)
      × (s.wire ≡ bytes ++ t.wire)
      × (t.answers ≡ s.answers)
unfolding also_sent
also_sent-some bytes none e = absurd (cc)
also_sent-some bytes (some t) e = (t, refl, ground arith, ground arith, ground arith)

-- One more call in front.
Sends-later :
    {moved : ℕ} (bytes : List ℕ) (cb : ℕ) (t s : Sending)
    → cb ≤ length bytes
    → s.ret ≡ t.ret
    → s.wire ≡ take cb bytes ++ t.wire
    → Sends (moved + cb) (drop cb bytes) t
    → Sends moved bytes s
Sends-later {moved} bytes cb t s le same wire ih = record {
  unsent = ih.unsent;
  cut =
      sym (take-append-drop cb bytes)
      ∙ ap (λ x. take cb bytes ++ x) ih.cut
      ∙ sym (append_assoc (take cb bytes) t.wire ih.unsent)
      ∙ ap (λ x. x ++ ih.unsent) (sym wire);
  counted = elim ih.counted [
    | inl e ↦ inl (same ∙ e ∙ ap (λ n. progress n (pos 0)) total)
    | inr (e, more) ↦ inr (same ∙ e ∙ ap (λ n. progress n (negsuc 0)) total, more)
  ];
}
  where
    total : moved + cb + length t.wire ≡ moved + length s.wire
    total =
        omega (arith, ap length wire, length-append (take cb bytes) t.wire, length-take cb bytes)

send_loop-Sends :
    (answers : List Sent) (moved : ℕ) (bytes : List ℕ) {s : Sending}
    → send_loop answers moved bytes ≡ some s
    → Sends moved bytes s
unfolding send_loop
send_loop-Sends answers moved [] {s} e = record {
  unsent = [];
  cut = ground arith;
  counted = inl (ground arith);
}
send_loop-Sends [] moved (b ∷ rest) {s} e = absurd (ground arith)
send_loop-Sends (nothing ∷ answers) moved (b ∷ rest) {s} e = record {
  unsent = b ∷ rest;
  cut = ground arith;
  counted = inl (ground arith);
}
send_loop-Sends (broken ∷ answers) moved (b ∷ rest) {s} e = record {
  unsent = b ∷ rest;
  cut = ground arith;
  counted = inr (ground arith, omega arith);
}
send_loop-Sends (took k ∷ answers) moved (b ∷ rest) {s} e =
    let cb : ℕ = min (suc k) (length (b ∷ rest)) in
    let later =
      also_sent-some (take cb (b ∷ rest)) (send_loop answers (moved + cb) (drop cb (b ∷ rest))) e in
    let ih = send_loop-Sends answers (moved + cb) (drop cb (b ∷ rest)) later.1 in
    Sends-later (b ∷ rest) cb later.0 s (omega arith) later.2 later.3 ih

-- A count that fits is returned as it is.
pub progress-fits : (n : ℕ) → n < 2 ^ 31 → progress n (pos 0) ≡ pos n
unfolding progress
progress-fits zero h = refl
progress-fits (suc n) h = ground (arith, h)

-- Whatever the kernel does, `sendall` of fewer than 2 ^ 31 bytes returns a count of bytes, and
-- exactly the first so many of the bytes went out, in order; or no byte went out and it returns 0 or
-- -1.
pub sendall_lem :
    (answers : List Sent) (bytes : List ℕ) {s : Sending}
    → length bytes < 2 ^ 31
    → sendall answers bytes ≡ some s
    → (unsent : List ℕ) × (bytes ≡ s.wire ++ unsent)
      × ((s.ret ≡ pos (length s.wire)) ⊎ ((s.ret ≡ negsuc 0) × (s.wire ≡ [])))
unfolding sendall progress
sendall_lem answers bytes {s} small e =
    let sent = send_loop-Sends answers 0 bytes e in
    let fits : length s.wire < 2 ^ 31 =
      omega (arith, ap length sent.cut, length-append s.wire sent.unsent, small) in
    (sent.unsent, sent.cut, result s.wire fits sent.counted)
  where
    result :
        (w : List ℕ) {left : ℕ}
        → length w < 2 ^ 31
        → (s.ret ≡ progress (0 + length w) (pos 0))
          ⊎ ((s.ret ≡ progress (0 + length w) (negsuc 0)) × (0 < left))
        → (s.ret ≡ pos (length w)) ⊎ ((s.ret ≡ negsuc 0) × (w ≡ []))
    result [] fits h = ground arith
    result (c ∷ w) fits h = ground (arith, fits, h)

-- Every call of the kernel takes a byte at least.
abbrev pub AllTook : List Sent → Type 0
AllTook [] = Unit {0}
AllTook (took k ∷ answers) = AllTook answers
AllTook (nothing ∷ answers) = ⊥
AllTook (broken ∷ answers) = ⊥

send_loop-all :
    (answers : List Sent) (moved : ℕ) (bytes : List ℕ)
    → AllTook answers
    → length bytes ≤ length answers
    → (s : Sending) × (send_loop answers moved bytes ≡ some s)
      × (s.ret ≡ progress (moved + length bytes) (pos 0))
      × (s.wire ≡ bytes)
unfolding send_loop also_sent
send_loop-all answers moved [] h le = (
  record { ret = progress moved (pos 0); wire = []; answers = answers },
  refl,
  ap (λ n. progress n (pos 0)) (omega arith),
  refl,
)
send_loop-all [] moved (b ∷ rest) h le = absurd (omega arith)
send_loop-all (nothing ∷ answers) moved (b ∷ rest) h le = elim h [ ]
send_loop-all (broken ∷ answers) moved (b ∷ rest) h le = elim h [ ]
send_loop-all (took k ∷ answers) moved (b ∷ rest) h le =
    let bytes : List ℕ = b ∷ rest in
    let cb : ℕ = min (suc k) (length bytes) in
    let left : length (drop cb bytes) ≡ length bytes - cb = length-drop cb bytes in
    let ih = send_loop-all answers (moved + cb) (drop cb bytes) h (omega (arith, left)) in
    (
      record (ih.0) { wire = take cb bytes ++ (ih.0).wire },
      ap (also_sent (take cb bytes)) ih.1,
      ih.2 ∙ ap (λ n. progress n (pos 0)) (omega (arith, left)),
      ap (λ t. take cb bytes ++ t) ih.3 ∙ take-append-drop cb bytes,
    )

-- If every call takes something, `sendall` of fewer than 2 ^ 31 bytes ends with no more calls than
-- bytes: all bytes are out, in order, and it returns their number.
pub sendall_total :
    (answers : List Sent) (bytes : List ℕ)
    → AllTook answers
    → length bytes ≤ length answers
    → length bytes < 2 ^ 31
    → (s : Sending) × (sendall answers bytes ≡ some s)
      × (s.ret ≡ pos (length bytes))
      × (s.wire ≡ bytes)
unfolding sendall progress
sendall_total answers bytes h le small =
    let all = send_loop-all answers 0 bytes h le in
    (
      all.0,
      all.1,
      all.2 ∙ progress-fits (0 + length bytes) (omega (arith, small)) ∙ ap pos (omega arith),
      all.3,
    )

-- The answers that a send leaves: enough for what it has not sent.
pub record Spends (n : ℕ) (before after : List Sent) : Type 0 where
  pub takes : AllTook after
  pub enough : length before ≤ length after + n

send_loop-Spends :
    (answers : List Sent) (moved : ℕ) (bytes : List ℕ) {s : Sending}
    → send_loop answers moved bytes ≡ some s
    → AllTook answers
    → Spends (length bytes) answers s.answers
unfolding send_loop
send_loop-Spends answers moved [] {s} e all =
    let same : answers ≡ s.answers = ground (arith, e) in
    record { takes = subst AllTook same all; enough = omega (arith, ap length same) }
send_loop-Spends [] moved (b ∷ rest) e all = absurd (ground (arith, e))
send_loop-Spends (nothing ∷ answers) moved (b ∷ rest) e all = elim all [ ]
send_loop-Spends (broken ∷ answers) moved (b ∷ rest) e all = elim all [ ]
send_loop-Spends (took k ∷ answers) moved (b ∷ rest) {s} e all =
    let cb : ℕ = min (suc k) (length (b ∷ rest)) in
    let later =
      also_sent-some (take cb (b ∷ rest)) (send_loop answers (moved + cb) (drop cb (b ∷ rest))) e in
    let same : (later.0).answers ≡ s.answers = later.4 in
    let ih = send_loop-Spends answers (moved + cb) (drop cb (b ∷ rest)) later.1 all in
    record {
      takes = subst AllTook same ih.takes;
      enough = omega (arith, ih.enough, ap length same, length-drop cb (b ∷ rest));
    }

pub sendall-Spends :
    (answers : List Sent) (bytes : List ℕ) {s : Sending}
    → sendall answers bytes ≡ some s
    → AllTook answers
    → Spends (length bytes) answers s.answers
unfolding sendall
sendall-Spends answers bytes e all = send_loop-Spends answers 0 bytes e all
