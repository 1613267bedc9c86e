-- ===== src/AzBuffer/Refinement/Programs.antt =====
-- Programs of operations on a buffer of common/azbuffer.c.
use compostela.Prelude.{ℕ, ◌^◌, ◌<◌, ◌≡◌, refl, List, [], ◌∷◌, some, ◌>>=◌, arith, true}
use compostela.AzBuffer.{AzBuffer, new}
use compostela.AzBuffer.Holds.{Holds, new_lem}
use compostela.AzBuffer.Refinement.{
  Op, run, Queue, spec_op, replay, IsProper, AllProper, Represents, Agrees,
}
use compostela.AzBuffer.Refinement.Agreement.{
  fetch-Agrees, fetch_from-Agrees, take_bytes-Agrees, grow-Agrees, clear-Agrees,
}
use compostela.AzBuffer.Refinement.Lines.{take_line-Agrees}

new-numbers :
    (junk : ℕ → ℕ) (size : ℕ) {b : AzBuffer}
    → new true (some junk) size ≡ some b
    → (b.used ≡ 0) × (b.size ≡ size)
unfolding new
new-numbers junk size e = (ground (arith, e), ground (arith, e))

run_op-Agrees :
    (junk : ℕ → ℕ) (op : Op) (b : AzBuffer) (s : Queue)
    → IsProper op
    → Represents b s
    → Agrees junk op b s
run_op-Agrees junk (Op.fetch bytes) b s proper r = fetch-Agrees junk bytes s r
run_op-Agrees junk (Op.fetch_from got size) b s proper r = fetch_from-Agrees junk got size s r
run_op-Agrees junk (Op.take_bytes len dsize) b s proper r = take_bytes-Agrees junk len dsize s r
run_op-Agrees junk (Op.take_line dsize) b s proper r = take_line-Agrees junk dsize s r
run_op-Agrees junk (Op.grow newsize) b s proper r = grow-Agrees junk newsize s proper r
run_op-Agrees junk Op.clear b s proper r = clear-Agrees junk s r

run-Represents :
    (junk : ℕ → ℕ) (ops : List Op) (b : AzBuffer) (s : Queue)
    → AllProper ops
    → Represents b s
    → (b' : AzBuffer) × (run junk ops b ≡ some ((replay ops s).0, b'))
      × Represents b' (replay ops s).1
unfolding run replay
run-Represents junk [] b s proper r = (b, refl, r)
run-Represents junk (op ∷ ops) b s proper r =
    let one = run_op-Agrees junk op b s proper.0 r in
    let more = run-Represents junk ops one.0 (spec_op op s).1 proper.1 one.2 in
    (more.0, rw (one.1, more.1) refl, more.2)

-- A new buffer, with memory at hand, does for every program of fetches (from memory or from a
-- descriptor), reads, line reads, resizes (below 2 ^ 63) and resets what a queue of bytes does: no
-- call leaves the block, each returns the same result and the same bytes, those that
-- `az_buffer_read_line` puts in follow its line by a NUL where there is room, and the buffer holds
-- the queue afterwards.
pub run-new :
    (junk : ℕ → ℕ) (size : ℕ) (ops : List Op)
    → size < 2 ^ 63
    → AllProper ops
    → let end = replay ops (record { bytes = []; used = 0; size = size }) in
      (b : AzBuffer) × ((new true (some junk) size >>= run junk ops) ≡ some (end.0, b))
      × Holds b end.1.bytes
run-new junk size ops small proper =
    let made = new_lem junk size small in
    let numbers = new-numbers junk size made.1 in
    let done =
      run-Represents junk ops made.0 (record { bytes = []; used = 0; size = size }) proper
        (record { holds = made.2; same_used = numbers.0; same_size = numbers.1 }) in
    (done.0, rw (made.1) done.1, done.2.holds)
