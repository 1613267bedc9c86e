-- ===== src/Transport/Receive.antt =====
-- `recvall` of common/supports.c, on a stream that arrives in chunks.
use compostela.Prelude.{
  ℕ, zero, suc, ◌+◌, ◌-◌, ◌≤◌, ◌<◌, ◌^◌, ◌≡◌, refl, sym, ap, ◌∙◌, List, [], ◌∷◌, ◌++◌, some, arith,
  length, take, drop, length-append, take-append_over, drop-append_over, take-append_within,
  drop-append_within, leb, le→leb, false,
}
use native.Mathlib.Decide.{dec_le}
use compostela.Prelude.Words.{pos}
use compostela.Transport.Send.{progress-fits}
use compostela.Transport.{
  Event, chunk, again, closed, failed, Receiving, progress, recv_loop, recvall, left_over,
}

-- The bytes that arrive before the stream ends or fails.
abbrev pub stream : List Event → List ℕ
stream [] = []
stream (chunk b bs ∷ events) = b ∷ bs ++ stream events
stream (again ∷ events) = stream events
stream (closed ∷ events) = []
stream (failed ∷ events) = []

-- What a full receive has done.
pub record Receives (events : List Event) (moved n : ℕ) (r : Receiving) : Type 0 where
  pub counted : r.ret ≡ progress (moved + n) (pos 0)
  pub taken : r.got ≡ take n (stream events)
  pub left : stream r.events ≡ drop n (stream events)

stream-left_over :
    (bs : List ℕ) (events : List Event) → stream (left_over bs events) ≡ bs ++ stream events
unfolding left_over
stream-left_over [] events = refl
stream-left_over (b ∷ bs) events = refl

chunk-Receives :
    {moved n : ℕ} (events : List Event) {b : ℕ} {bs : List ℕ} {r : Receiving}
    → length (b ∷ bs) ≤ n
    → Receives events (moved + length (b ∷ bs)) (n - length (b ∷ bs)) r
    → Receives (chunk b bs ∷ events) moved n (record r { got = (b ∷ bs) ++ r.got })
chunk-Receives {moved} {n} events {b} {bs} {r} h ih = record {
  counted = ih.counted ∙ ap (λ k. progress k (pos 0)) (omega arith);
  taken =
      ap (λ t. (b ∷ bs) ++ t) ih.taken
      ∙ sym (take-append_over (b ∷ bs) (stream events) n (n - length (b ∷ bs)) (omega arith));
  left =
      ih.left
      ∙ sym (drop-append_over (b ∷ bs) (stream events) n (n - length (b ∷ bs)) (omega arith));
}

not-le→leb : (a b : ℕ) → ¬ (a ≤ b) → leb a b ≡ false
not-le→leb a b h = ground arith

recv_loop-Receives :
    (events : List Event) (moved n : ℕ)
    → n ≤ length (stream events)
    → (r : Receiving) × (recv_loop events moved n ≡ some r) × Receives events moved n r
unfolding recv_loop
recv_loop-Receives events moved zero le = (
  record { ret = progress moved (pos 0); got = []; events = events },
  refl,
  record { counted = ap (λ k. progress k (pos 0)) (omega arith); taken = refl; left = refl },
)
recv_loop-Receives [] moved (suc n) le = absurd (omega arith)
recv_loop-Receives (again ∷ events) moved (suc n) le =
    let ih = recv_loop-Receives events moved (suc n) le in
    (ih.0, ih.1, record { counted = ih.2.counted; taken = ih.2.taken; left = ih.2.left })
recv_loop-Receives (closed ∷ events) moved (suc n) le = absurd (omega arith)
recv_loop-Receives (failed ∷ events) moved (suc n) le = absurd (omega arith)
recv_loop-Receives (chunk b bs ∷ events) moved (suc n) le =
    let bytes : List ℕ = b ∷ bs in
    let wanted : length bytes ≤ suc n → suc n - length bytes ≤ length (stream events) =
      λ h. omega (arith, length-append bytes (stream events)) in
    elim (dec_le (length bytes) (suc n)) [
      | yes h ↦
          let ih =
            recv_loop-Receives events (moved + length bytes) (suc n - length bytes) (wanted h) in
          (
            record (ih.0) { got = bytes ++ (ih.0).got },
            rw (recv_loop, le→leb _ _ h, ih.1),
            chunk-Receives events h ih.2,
          )
      | no h ↦ (
        record {
          ret = progress (moved + suc n) (pos 0);
          got = take (suc n) bytes;
          events = left_over (drop (suc n) bytes) events;
        },
        rw (recv_loop, not-le→leb _ _ h),
        record {
          counted = refl;
          taken = sym (take-append_within bytes (stream events) (suc n) (omega arith));
          left =
              stream-left_over (drop (suc n) bytes) events
              ∙ sym (drop-append_within bytes (stream events) (suc n) (omega arith));
        },
      )
    ]

-- However the kernel cuts the stream and however often there is nothing yet, `recvall` of no more
-- bytes than arrive, and fewer than 2 ^ 31, ends, returns their number, stores exactly the next bytes of the stream, and
-- leaves those that follow.
pub recvall_lem :
    (events : List Event) (n : ℕ)
    → n ≤ length (stream events)
    → n < 2 ^ 31
    → (r : Receiving) × (recvall events n ≡ some r)
      × (r.ret ≡ pos n)
      × (r.got ≡ take n (stream events))
      × (stream r.events ≡ drop n (stream events))
unfolding recvall
recvall_lem events n le small =
    let all = recv_loop-Receives events 0 n le in
    (
      all.0,
      all.1,
      all.2.counted ∙ progress-fits (0 + n) (omega (arith, small)) ∙ ap pos (omega arith),
      all.2.taken,
      all.2.left,
    )
