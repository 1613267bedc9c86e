-- ===== src/Logger/Tests.antt =====
-- The command of logger/main.c for a tag and a path, sent to a new controller, and runs of `main`.
use compostela.Prelude.{
  ℕ, ◌≡◌, ◌≢◌, refl, List, [], ◌∷◌, ◌++◌, some, none, false, true, arith, str_eq, if◌then◌else◌,
  ◌==◌,
}
use compostela.Prelude.Text.{codes}
use compostela.AzBuffer.{AzBuffer, fill}
use compostela.AzBuffer.ReadLine.{Lacks}
use compostela.AzBuffer.Holds.{Holds}
use compostela.Follower.Controller.{Control}
use compostela.Transport.{took}
use compostela.Aggregator.Files.Merging.{bytes_at}
use compostela.Logger.{Env, World, exited, returned, make_command, report, fgets, Options, main}
use compostela.Logger.Message.{main-message}
use compostela.Logger.Standard.{main-logs}

abbrev zeroes : ℕ → ℕ
zeroes n = 0

abbrev fresh : AzBuffer
fresh = record { buffer = fill zeroes 2048; cursor = 0; size = 2048; used = 0 }

abbrev control : Control
control = record {
  controller = record { socket_fd = 9; display_name = none; f_direct = false; buffer = fresh };
  contexts = [];
  sends = [];
}

cut_off : make_command (codes "t") (codes "f") ≡ codes "OPEN -d t f\r"
unfolding make_command
cut_off = refl

-- One name for all times, and a file with a byte in it.
abbrev daily : Env
daily = record {
  opens = str_eq (codes "log");
  room = true;
  times = λ k. k;
  strftime = λ size pat t. codes "log";
  connects = λ path. some 7;
}

abbrev world : World
world = record {
  files = λ p. if str_eq p (codes "log") then some (codes "!") else none;
  disk = took 0 ∷ took 9 ∷ took 0 ∷ took 9 ∷ took 9 ∷ [];
  answers = took 99 ∷ [];
  replies = codes "OK\r\n" ∷ [];
  wire = [];
  ticks = 0;
}

abbrev options : Options
options = record { dateformat = some (codes "%F"); tag = none; path = none; message = none }

-- Two lines, the second without a newline.
abbrev input : List ℕ
input = codes "ab\nc"

first_line : fgets 2047 input ≡ (codes "ab\n", codes "c")
unfolding fgets
first_line = refl

long_line : fgets 2 input ≡ (codes "ab", codes "\nc")
unfolding fgets
long_line = refl

-- Without a date format it exits.
unnamed : main daily (record options { dateformat = none }) input world ≡ some (exited world)
unfolding main
unnamed = refl

-- A socket without a tag.
untagged : report daily (some 7) none (codes "log") world ≡ none
unfolding report
untagged = refl

apart : {k : ℕ} → (k == 0) ≡ false → k ≢ 0
apart h e = ground (arith, h, e)

not_newline : {k : ℕ} → (k == 10) ≡ false → k ≢ b'\n'
not_newline h e = ground (arith, h, e)

input-Lacks : Lacks 0 input
input-Lacks = (apart refl, (apart refl, (apart refl, (apart refl, tt))))

main-logs_example :
    (w' : World) × (main daily options input world ≡ some (returned true w'))
    × (bytes_at w'.files (codes "log") ≡ bytes_at world.files (codes "log") ++ input)
    × ((p : List ℕ) → codes "log" ≢ p → w'.files p ≡ world.files p)
unfolding str_eq
main-logs_example =
    main-logs daily options (codes "%F") b'l' (codes "og") input world refl refl refl
      (record { opens = refl; named = λ k. refl }) input-Lacks tt (omega arith)

-- With a socket and a tag.
abbrev both : Options
both = record {
  dateformat = some (codes "%F");
  tag = some (codes "t");
  path = some (codes "sock");
  message = some (codes "ab");
}

main-message_example :
    main daily (record both { message = some (codes "ab") }) input world
    ≡ main daily (record both { message = none }) (codes "ab" ++ codes "\r\n") world
main-message_example =
    main-message daily both (codes "ab") input world refl (apart refl, (apart refl, tt))
      (not_newline refl, (not_newline refl, tt)) (omega arith)

abbrev alone : World
alone = record world {
  answers =
      took 99
      ∷ took 0
      ∷ took 0
      ∷ took 0
      ∷ took 0
      ∷ took 0
      ∷ took 0
      ∷ took 0
      ∷ took 0
      ∷ took 0
      ∷ took 0
      ∷ took 0
      ∷ [];
  replies = [];
}
