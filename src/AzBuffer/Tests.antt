-- ===== src/AzBuffer/Tests.antt =====
-- The buffer of common/azbuffer.c at work, after tests/azbuffer_tests.c.
use compostela.AzBuffer.{new}
use compostela.AzBuffer.Refinement.{Op, run, replay, spec_op}
use compostela.AzBuffer.Refinement.Programs.{run-new}
use compostela.Prelude.{List, true, ◌>>=◌, ℕ, ◌≤◌, ◌≡◌, refl, [], ◌∷◌, none, some, arith, length}
use compostela.Prelude.Words.{pos, negsuc}
use compostela.Prelude.Memory.{read_at, write_at, mem_chr}
use compostela.AzBuffer.{
  AzBuffer, Source, Read, read, read_line, push_back, pushed, shifted, unread_bytes, line_length,
  line_ret,
}
use compostela.AzBuffer.Holds.{Holds}
use compostela.AzBuffer.ReadLine.{read_line_complete, read_line-partial}
use compostela.AzBuffer.PushBack.{push_back-Holds, push_back-faults}

abbrev loaded : AzBuffer
loaded = record { buffer = 120 ∷ 97 ∷ 10 ∷ 98 ∷ 0 ∷ 0 ∷ []; cursor = 1; size = 6; used = 4 }

loaded-Holds : Holds loaded (97 ∷ 10 ∷ 98 ∷ [])
loaded-Holds = record {
  before = 120 ∷ [];
  after = 0 ∷ 0 ∷ [];
  layout = refl;
  start = refl;
  stop = refl;
  room = refl;
  small = omega arith;
}

-- Everything was read, and the block is full.
abbrev spent : AzBuffer
spent = record { buffer = 97 ∷ 98 ∷ 99 ∷ []; cursor = 3; size = 3; used = 3 }

spent-Holds : Holds spent []
spent-Holds = record {
  before = 97 ∷ 98 ∷ 99 ∷ [];
  after = [];
  layout = refl;
  start = refl;
  stop = refl;
  room = refl;
  small = omega arith;
}

abbrev zeroes : ℕ → ℕ
zeroes n = 0

two_lines :
    read_line loaded 5
    ≡ some (record {
      ret = pos 1;
      dst = 97 ∷ 10 ∷ 0 ∷ [];
      dused = 2;
      rest = record loaded { cursor = 3 };
    })
unfolding read_line unread_bytes read line_length line_ret read_at mem_chr
two_lines = refl

pushes_in_front :
    push_back none loaded (some (7 ∷ [])) 1
    ≡ some
        (pos 0, record { buffer = 7 ∷ 97 ∷ 10 ∷ 98 ∷ 0 ∷ 0 ∷ []; cursor = 0; size = 6; used = 4 })
unfolding push_back pushed shifted unread_bytes read_at write_at
pushes_in_front = refl

abbrev two_bytes : Source
two_bytes n = some (5 ∷ 6 ∷ [])

read_line_complete_example :
    (out : Read) × (read_line loaded 5 ≡ some out)
    × (out.ret ≡ pos 1)
    × (out.dst ≡ 97 ∷ 10 ∷ 0 ∷ [])
    × (out.dused ≡ 2)
    × (length out.dst ≤ 5)
    × Holds out.rest (98 ∷ [])
read_line_complete_example =
    read_line_complete (97 ∷ []) (98 ∷ []) 5 loaded-Holds (omega arith) (omega arith)

read_line-partial_example :
    (out : Read) × (read_line loaded 1 ≡ some out)
    × (out.ret ≡ pos 0)
    × (out.dst ≡ 97 ∷ [])
    × (out.dused ≡ 1)
    × (length out.dst ≤ 1)
    × Holds out.rest (10 ∷ 98 ∷ [])
read_line-partial_example =
    read_line-partial (97 ∷ 10 ∷ 98 ∷ []) 1 loaded-Holds (omega arith) (omega arith)

push_back-Holds_example :
    (b' : AzBuffer) × (push_back none loaded (some (7 ∷ [])) 1 ≡ some (pos 0, b'))
    × Holds b' (7 ∷ 97 ∷ 10 ∷ 98 ∷ [])
push_back-Holds_example =
    push_back-Holds none (7 ∷ []) loaded-Holds (omega arith) (omega arith) (omega arith)

push_back-faults_example : push_back none spent (some (7 ∷ [])) 1 ≡ none
push_back-faults_example =
    push_back-faults none (7 ∷ []) spent-Holds (omega arith) (omega arith) (omega arith)
      (omega arith)

-- Six bytes of room: two lines and a half go in, one line comes out, the rest does not fit a read.
abbrev program : List Op
program =
    Op.fetch (97 ∷ 10 ∷ 98 ∷ [])
    ∷ Op.fetch_from (some (99 ∷ 10 ∷ [])) 9
    ∷ Op.take_line 8
    ∷ Op.take_bytes 5 8
    ∷ Op.take_line 3
    ∷ Op.clear
    ∷ []

run-new_example :
    (b : AzBuffer) × ((new true (some zeroes) 6 >>= run zeroes program)
      ≡ some (
        (pos 3, [])
            ∷ (pos 2, [])
            ∷ (pos 1, 97 ∷ 10 ∷ 0 ∷ [])
            ∷ (negsuc 1, [])
            ∷ (pos 1, 98 ∷ 99 ∷ 10 ∷ [])
            ∷ (pos 0, [])
            ∷ [],
        b,
      ))
    × Holds b []
unfolding replay spec_op mem_chr
run-new_example = run-new zeroes 6 program (omega arith) (tt, (tt, (tt, (tt, (tt, (tt, tt))))))
