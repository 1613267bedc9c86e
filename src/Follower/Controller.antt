-- ===== src/Follower/Controller.antt =====
-- The control socket of follower/main.c: `_do_receive_data_0`, which the event loop uses, and
-- `_do_controller_direct_open_with_line`. A result of `none` is a fault.
pub mod Lines
use compostela.Prelude.{
  ℕ, zero, suc, ◌+◌, List, [], ◌∷◌, ◌++◌, Option, none, some, ◌>>=◌, ◌>>◌, guard, Bool, true, false,
  ◌||◌, ◌==◌, ltb, leb, if◌then◌else◌, length, take, str_eq,
}
use compostela.Prelude.Words.{ℤ, is_pos, add64}
use compostela.Prelude.Text.{codes, c_str}
use compostela.AzBuffer.{
  AzBuffer, Heap, Read, unread_bytes, unused_bytes, resize, fetch_bytes, read_line,
}
use compostela.AzBuffer
use compostela.AzList
use compostela.Follower.Context.{FollowContext, bufsize}
use compostela.Follower.Context

-- `sc_controller`.
pub record Controller : Type 0 where
  pub socket_fd : ℕ
  pub display_name : Option (List ℕ)
  pub f_direct : Bool
  pub buffer : AzBuffer

abbrev pub controller_buffer_size : ℕ
controller_buffer_size = 2048

unfoldable pub new : Heap → ℕ → Option Controller
new heap cc = AzBuffer.new true heap controller_buffer_size >>= λ buffer.
    some (record { socket_fd = cc; display_name = none; f_direct = false; buffer = buffer })

-- What a controller changes: itself, the contexts, and what is sent back.
pub record Control : Type 0 where
  pub controller : Controller
  pub contexts : List FollowContext
  pub sends : List (List ℕ)

-- The words of a line, apart by blanks and tabs: `word` is what of one is there, reversed.
pub end_word : List ℕ → List (List ℕ) → List (List ℕ)
end_word [] words = words
end_word (c ∷ word) words = AzList.reverse (c ∷ word) ∷ words

pub words_from : List ℕ → List ℕ → List (List ℕ)
words_from word [] = end_word word []
words_from word (c ∷ line) =
    let rest = words_from [] line in
    let more = words_from (c ∷ word) line in
    if c == b' ' || c == b'\t' then end_word word rest else more

-- `_do_controller_direct_open_with_line`: the first word, which is the command, is the name to show,
-- and the second the file. The table holds 50 words.
unfoldable pub open_with_line : Heap → List ℕ → Control → Option Control
open_with_line heap line s = do
  guard (leb (length (words_from [] line)) 50)
  elim (words_from [] line) [
    | [] ↦ none
    | name ∷ more ↦ do
      cxt ←
          Context.new heap (elim more [ [] ↦ none | fname ∷ others ↦ some fname ]) (some name) true
            bufsize
      some (record s {
        controller = record (s.controller) { display_name = some name; f_direct = true };
        contexts = AzList.add s.contexts cxt;
      })
  ]

-- `strncmp(line, "OPEN ", 5) == 0`.
pub is_open : List ℕ → Bool
is_open line = str_eq (take 5 line) (codes "OPEN ")

unfoldable pub reply_ok : Control → Control
reply_ok s = record s { sends = codes "OK\r\n" ∷ s.sends }

-- One line: `ret` is 1 from the first that opens a file on.
unfoldable pub take_control : Heap → List ℕ → Bool → Control → Option (Bool × Control)
take_control heap line ret s =
    if is_open line
    then (open_with_line heap line s >>= λ s'. some (true, reply_ok s'))
    else some (ret, s)

-- The loop over the lines, on fuel: each round takes a byte at least. It writes a NUL behind the
-- line, which has no place where the line fills the block. A read that finds no newline takes what
-- it reads with it.
unfoldable pub line_loop : ℕ → Heap → Bool → Control → Option (Bool × Control)
line_loop zero heap ret s = none
line_loop (suc fuel) heap ret s = read_line (s.controller).buffer controller_buffer_size >>= λ r.
    let s' = record s { controller = record (s.controller) { buffer = r.rest } } in
    if is_pos r.ret
    then (guard (ltb r.dused controller_buffer_size)
        >> (take_control heap (c_str (take r.dused r.dst)) ret s' >>= λ t.
            line_loop fuel heap t.0 t.1))
    else some (ret, s')

-- The buffer, made ready for `dlen` more bytes.
unfoldable pub make_room : Heap → AzBuffer → ℕ → AzBuffer
make_room heap b dlen =
    let b' = (if unread_bytes b == 0 then AzBuffer.reset b else b) in
    if ltb (unused_bytes b') dlen then (resize heap b' (add64 dlen b'.size)).1 else b'

unfoldable pub do_receive_data_0 : Heap → List ℕ → Control → Option (Bool × Control)
unfolding make_room line_loop
do_receive_data_0 heap bytes s =
    let b = make_room heap (s.controller).buffer (length bytes) in
    do
      guard (leb (length bytes) (unused_bytes b))
      stored ← fetch_bytes b bytes (length bytes)
      line_loop (suc (unread_bytes stored.1)) heap false
          (record s { controller = record (s.controller) { buffer = stored.1 } })
