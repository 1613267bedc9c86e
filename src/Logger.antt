-- ===== src/Logger.antt =====
-- logger/main.c: what the command-line logger does with its text.
pub mod Command
pub mod Standard
pub mod Message
mod Tests
use compostela.Prelude.{
  ℕ, zero, suc, ◌+◌, ◌-◌, List, [], ◌∷◌, ◌++◌, Option, none, some, ◌>>=◌, Bool, true, false, ◌==◌,
  if◌then◌else◌, length, take, str_eq,
}
use compostela.Prelude.Words.{ℤ, pos, negsuc}
use compostela.Prelude.Text.{codes, c_str}
use compostela.Transport.{Sent, Sending, sendall, writeall}
use compostela.Supports.{Files, append_to}

-- `snprintf(p, n, ...)`: as much of the text as fits with its NUL.
abbrev pub snprintf : ℕ → List ℕ → List ℕ
snprintf n text = take (n - 1) text

-- `__make_command`, where there is memory.
unfoldable pub make_command : List ℕ → List ℕ → List ℕ
make_command tag path =
    snprintf (length tag + length path + 11)
      (codes "OPEN -d " ++ (tag ++ (b' ' ∷ path ++ codes "\r\n")))

-- What the kernel does: which paths `open` opens for writing, whether `malloc` has memory, the
-- readings of the clock, `strftime` for the size of the block, a format and a time, and the
-- descriptor of the local socket, where it can be connected.
pub record Env : Type 0 where
  pub opens : List ℕ → Bool
  pub room : Bool
  pub times : ℕ → ℕ
  pub strftime : ℕ → List ℕ → ℕ → List ℕ
  pub connects : List ℕ → Option ℕ

-- The files, the answers of `write` and of `send`, what each `recv` brings (nothing: the end or an
-- error), what went to the socket, and how often the clock was read.
pub record World : Type 0 where
  pub files : Files
  pub disk : List Sent
  pub answers : List Sent
  pub replies : List (List ℕ)
  pub wire : List ℕ
  pub ticks : ℕ

-- `exit(-1)`, or a return: whether the result is 0.
pub data Ended : Type 0 where
  exited : World → Ended
  returned : Bool → World → Ended

abbrev pub path_max : ℕ
path_max = 4096

-- `__setup_tempfile`, on a block of `PATH_MAX`.
unfoldable pub setup_tempfile : Env → List ℕ → World → List ℕ × World
setup_tempfile env pat w =
    (env.strftime path_max pat (env.times w.ticks), record w { ticks = w.ticks + 1 })

-- The answer to the command, of four bytes at most.
unfoldable pub await_answer : List (List ℕ) → World → Option Ended
await_answer [] w = none
await_answer ([] ∷ replies) w = some (exited (record w { replies = replies }))
await_answer ((b ∷ bytes) ∷ replies) w = some (
    returned (str_eq (c_str (take 4 (b ∷ bytes))) (codes "OK\r\n"))
      (record w { replies = replies }))

-- The command, where there is a socket. `strlen` of a tag that is not there is a fault.
unfoldable pub report : Env → Option ℕ → Option (List ℕ) → List ℕ → World → Option Ended
report env none tag ftemp w = some (returned true w)
report env (some fd) tag ftemp w = do
  name ← tag
  if env.room
      then (do
        s ← sendall w.answers (make_command name ftemp)
        await_answer w.replies (record w { answers = s.answers; wire = w.wire ++ s.wire }))
      else some (exited w)

unfoldable pub is_all : ℤ → ℕ → Bool
is_all (pos n) len = n == len
is_all (negsuc n) len = false

-- `__process`.
unfoldable pub process : Env → Option ℕ → Option (List ℕ) → List ℕ → List ℕ → World → Option Ended
process env fd tag ftemp data_bytes w =
    if env.opens ftemp
    then (do
      s ← writeall w.disk data_bytes
      let w' = record w { files = append_to w.files ftemp s.wire; disk = s.answers }
      if is_all s.ret (length data_bytes) then report env fd tag ftemp w' else some (exited w'))
    else some (exited w)

-- A text of `main`: the name for it, and the text to its file.
unfoldable pub log_text : Env → Option ℕ → Option (List ℕ) → List ℕ → List ℕ → World → Option Ended
log_text env fd tag pat text w =
    let named = setup_tempfile env pat w in
    elim named.0 [
      | [] ↦ some (exited named.1)
      | c ∷ name ↦ process env fd tag (c ∷ name) text named.1
    ]

-- `fgets` for a line of `n` characters at most: the line with its newline, and the rest.
unfoldable pub fgets : ℕ → List ℕ → List ℕ × List ℕ
fgets zero text = ([], text)
fgets (suc n) [] = ([], [])
fgets (suc n) (c ∷ text) =
    let more = fgets n text in if c == b'\n' then (c ∷ [], text) else (c ∷ more.0, more.1)

-- The lines of the standard input, on fuel, as each takes a character. The result of `__process`
-- is not looked at.
unfoldable pub read_stdin :
    ℕ → Env → Option ℕ → Option (List ℕ) → List ℕ → List ℕ → World → Option Ended
read_stdin zero env fd tag pat text w = none
read_stdin (suc fuel) env fd tag pat [] w = some (returned true w)
read_stdin (suc fuel) env fd tag pat (c ∷ text) w =
    let line = fgets 2047 (c ∷ text) in
    elim (log_text env fd tag pat (c_str line.0) w) [
      | none ↦ none
      | some (exited w') ↦ some (exited w')
      | some (returned ok w') ↦ read_stdin fuel env fd tag pat line.1 w'
    ]

-- The options of `main`, and its first argument. The directory of `-o` is not used.
pub record Options : Type 0 where
  pub dateformat : Option (List ℕ)
  pub tag : Option (List ℕ)
  pub path : Option (List ℕ)
  pub message : Option (List ℕ)

-- The message, or the standard input, to the files.
unfoldable pub log_all : Env → Option ℕ → Options → List ℕ → List ℕ → World → Option Ended
log_all env fd o pat stdin w = elim o.message [
  | none ↦ read_stdin (suc (length stdin)) env fd o.tag pat stdin w
  | some text ↦ elim (log_text env fd o.tag pat (text ++ codes "\r\n") w) [
    | none ↦ none
    | some (exited w') ↦ some (exited w')
    | some (returned ok w') ↦ some (returned true w')
  ]
]

-- `main` behind its options. The block of the message is not checked before it is written to.
unfoldable pub main : Env → Options → List ℕ → World → Option Ended
main env o stdin w = elim o.dateformat [
  | none ↦ some (exited w)
  | some pat ↦
      if (elim o.message [ none ↦ true | some text ↦ env.room ])
      then elim o.path [
        | none ↦ log_all env none o pat stdin w
        | some path ↦ elim (env.connects path) [
          | none ↦ some (exited w)
          | some fd ↦ log_all env (some fd) o pat stdin w
        ]
      ]
      else none
]
