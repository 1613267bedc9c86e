-- ===== src/Follower/Controller/Lines.antt =====
-- Commands on the control socket of follower/main.c that lack their newline.
use compostela.Prelude.{
  ℕ, suc, ◌-◌, ◌≤◌, ◌<◌, ◌≡◌, refl, sym, ap, List, [], some, arith, true, false, Bool, ◌==◌, leb,
  ltb, length, take, take_all, drop_all, min, subst,
}
use compostela.Prelude.Words.{pos, is_pos}
use compostela.AzBuffer.{
  AzBuffer, Heap, Read, reset, unread_bytes, unused_bytes, fetch_bytes, read_line,
}
use compostela.AzBuffer.Holds.{Holds, unread_bytes_lem, unused_bytes_lem, reset_lem}
use compostela.AzBuffer.Fetch.{fetch_bytes_lem}
use compostela.AzBuffer.ReadLine.{Lacks, read_line-partial}
use compostela.Follower.Controller.{
  Control, make_room, line_loop, do_receive_data_0, controller_buffer_size,
}

abbrev pub with_buffer : Control → AzBuffer → Control
with_buffer s b = record s { controller = record (s.controller) { buffer = b } }

make_room-empty :
    (heap : Heap) (b : AzBuffer) (n : ℕ) → Holds b [] → n ≤ b.size → make_room heap b n ≡ reset b
unfolding make_room
make_room-empty heap b n h fits = rw (make_room, ap (λ k. k == 0) (unread_bytes_lem h), roomy) refl
  where
    roomy : ltb (unused_bytes (reset b)) n ≡ false
    roomy = ground (arith, (reset_lem h).1, fits)

line_loop-stops :
    (fuel : ℕ) (heap : Heap) (s : Control) (r : Read)
    → read_line (s.controller).buffer controller_buffer_size ≡ some r
    → r.ret ≡ pos 0
    → line_loop (suc fuel) heap false s ≡ some (false, with_buffer s r.rest)
unfolding line_loop
line_loop-stops fuel heap s r reads zeroed = rw (line_loop, reads, ap is_pos zeroed) refl

do_receive_data_0-runs :
    (heap : Heap) (bytes : List ℕ) (s : Control) (b : AzBuffer) (count : ℕ) {out : Bool × Control}
    → make_room heap (s.controller).buffer (length bytes) ≡ reset (s.controller).buffer
    → leb (length bytes) (unused_bytes (reset (s.controller).buffer)) ≡ true
    → fetch_bytes (reset (s.controller).buffer) bytes (length bytes) ≡ some (pos count, b)
    → line_loop (suc (unread_bytes b)) heap false (with_buffer s b) ≡ some out
    → do_receive_data_0 heap bytes s ≡ some out
unfolding do_receive_data_0
do_receive_data_0-runs heap bytes s b count roomy fits fetched looped =
    rw (do_receive_data_0, roomy, fits, fetched, looped) refl

-- A command of at most 2048 bytes that lacks its newline is taken from the socket and forgotten: no
-- file is opened, nothing is answered, and nothing of it waits for the bytes that follow.
pub do_receive_data_0_unterminated :
    (heap : Heap) (bytes : List ℕ) (s : Control)
    → Holds (s.controller).buffer []
    → 0 < length bytes
    → length bytes ≤ (s.controller).buffer.size
    → length bytes ≤ 2048
    → Lacks b'\n' bytes
    → (b : AzBuffer) × (do_receive_data_0 heap bytes s ≡ some (false, with_buffer s b)) × Holds b []
do_receive_data_0_unterminated heap bytes s h some_bytes fits short lacks =
    let start = reset_lem h in
    let got = fetch_bytes_lem bytes (length bytes) start.0 (omega arith) in
    let whole : take
          (min ((reset (s.controller).buffer).size - (reset (s.controller).buffer).used)
            (length bytes))
          bytes
        ≡ bytes =
      take_all _ bytes (omega (arith, start.1, unused_bytes_lem start.0, fits)) in
    let held : Holds got.0 bytes = subst (Holds got.0) whole got.2 in
    let out =
      read_line-partial bytes 2048 held
        (subst (Lacks b'\n') (sym (take_all 2048 bytes short)) lacks) some_bytes in
    (
      (out.0).rest,
      do_receive_data_0-runs heap bytes s got.0 _
          (make_room-empty heap (s.controller).buffer (length bytes) h fits)
          (ground (arith, start.1, fits)) got.1
          (line_loop-stops (unread_bytes got.0) heap (with_buffer s got.0) out.0 out.1 out.2),
      subst (Holds (out.0).rest) (drop_all 2048 bytes short) out.6,
    )
