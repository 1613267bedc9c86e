-- ===== src/Logger/Standard.antt =====
-- The standard input that logger/main.c reads, and the file that it goes to.
use compostela.Prelude.{
  ℕ, zero, suc, ◌+◌, ◌≤◌, ◌<◌, ◌^◌, ◌≡◌, ◌≢◌, refl, sym, ap, ◌∙◌, subst, List, [], ◌∷◌, ◌++◌,
  Option, none, some, ◌==◌, true, arith, length, append_assoc, append-nil, length-append,
  Bool-cases, inl, inr,
}
use compostela.Prelude.Words.{pos}
use compostela.Prelude.Text.{c_str}
use compostela.AzBuffer.ReadLine.{Lacks}
use compostela.Transport.{Sending, sendall, writeall}
use compostela.Transport.Send.{AllTook, Spends, sendall_total, sendall-Spends}
use compostela.Supports.{append_to}
use compostela.Aggregator.Files.Merging.{bytes_at, bytes_at-append_to, append_to-other}
use compostela.Logger.{
  Env, World, returned, path_max, setup_tempfile, report, is_all, process, log_text, fgets,
  read_stdin, Options, log_all, main,
}

-- A text went to a file: its bytes are there, and no other file changed.
pub record Logged (path text : List ℕ) (w w' : World) : Type 0 where
  pub bytes : bytes_at w'.files path ≡ bytes_at w.files path ++ text
  pub others : (p : List ℕ) → path ≢ p → w'.files p ≡ w.files p
  pub spent : Spends (length text) w.disk w'.disk

is_all-length : (n : ℕ) → is_all (pos n) n ≡ true
unfolding is_all
is_all-length n = ground arith

process-Logged :
    (env : Env) (tag : Option (List ℕ)) (path text : List ℕ) (w : World)
    → env.opens path ≡ true
    → AllTook w.disk
    → length text ≤ length w.disk
    → length text < 2 ^ 31
    → (w' : World) × (process env none tag path text w ≡ some (returned true w'))
      × Logged path text w w'
unfolding process report writeall sendall
process-Logged env tag path text w opens all enough small =
    let total = sendall_total w.disk text all enough small in
    let s : Sending = total.0 in
    let w' : World = record w { files = append_to w.files path s.wire; disk = s.answers } in
    (
      w',
      rw (opens, total.1, total.2, is_all-length (length text)) refl,
      record {
        bytes =
            bytes_at-append_to w.files path s.wire ∙ ap (λ t. bytes_at w.files path ++ t) total.3;
        others = append_to-other w.files path s.wire;
        spent = sendall-Spends w.disk text total.1 all;
      },
    )

fgets-append : (n : ℕ) (text : List ℕ) → (fgets n text).0 ++ (fgets n text).1 ≡ text
unfolding fgets
fgets-append zero text = refl
fgets-append (suc n) [] = refl
fgets-append (suc n) (c ∷ text) = elim (Bool-cases (c == b'\n')) [
  | inl e ↦ rw e refl
  | inr e ↦ rw (e, fgets-append n text) refl
]

fgets-shorter : (n c : ℕ) (text : List ℕ) → length (fgets (suc n) (c ∷ text)).1 ≤ length text
unfolding fgets
fgets-shorter n c text = elim (Bool-cases (c == b'\n')) [
  | inl e ↦ rw e (omega arith)
  | inr e ↦ rw e (
      omega
        (arith, ap length (fgets-append n text), length-append (fgets n text).0 (fgets n text).1))
]

length-fgets : (n : ℕ) (text : List ℕ) → length (fgets n text).0 ≤ n
unfolding fgets
length-fgets zero text = omega arith
length-fgets (suc n) [] = omega arith
length-fgets (suc n) (c ∷ text) = elim (Bool-cases (c == b'\n')) [
  | inl e ↦ rw e (omega arith)
  | inr e ↦ rw e (omega (arith, length-fgets n text))
]

Lacks-split : (c : ℕ) (a b : List ℕ) → Lacks c (a ++ b) → Lacks c a × Lacks c b
Lacks-split c [] b h = (tt, h)
Lacks-split c (x ∷ a) b h = let rest = Lacks-split c a b h.1 in ((h.0, rest.0), rest.1)

pub c_str-Lacks : (text : List ℕ) → Lacks 0 text → c_str text ≡ text
unfolding c_str
c_str-Lacks [] h = refl
c_str-Lacks (b ∷ text) h = ground (arith, h.0, c_str-Lacks text h.1)

-- Every reading of the clock gives the same name, of a file that can be opened.
pub record IsNamed (env : Env) (pat : List ℕ) (c : ℕ) (name : List ℕ) : Type 0 where
  pub opens : env.opens (c ∷ name) ≡ true
  pub named : (k : ℕ) → env.strftime path_max pat k ≡ c ∷ name

log_text-Logged :
    (env : Env) (tag : Option (List ℕ)) (pat : List ℕ) (c : ℕ) (name text : List ℕ) (w : World)
    → IsNamed env pat c name
    → AllTook w.disk
    → length text ≤ length w.disk
    → length text < 2 ^ 31
    → (w' : World) × (log_text env none tag pat text w ≡ some (returned true w'))
      × Logged (c ∷ name) text w w'
unfolding log_text setup_tempfile
log_text-Logged env tag pat c name text w n all enough small =
    let done =
      process-Logged env tag (c ∷ name) text (record w { ticks = w.ticks + 1 }) n.opens all enough
        small in
    (
      done.0,
      rw (n.named (env.times w.ticks)) done.1,
      record { bytes = done.2.bytes; others = done.2.others; spent = done.2.spent },
    )

-- One text after another.
Logged-append :
    (path a b : List ℕ) {w w' w'' : World}
    → Logged path a w w'
    → Logged path b w' w''
    → Logged path (a ++ b) w w''
Logged-append path a b {w} {w'} {w''} first second = record {
  bytes = second.bytes ∙ ap (λ t. t ++ b) first.bytes ∙ append_assoc (bytes_at w.files path) a b;
  others = λ p ne. second.others p ne ∙ first.others p ne;
  spent = record {
    takes = second.spent.takes;
    enough = omega (arith, first.spent.enough, second.spent.enough, length-append a b);
  };
}

Logged-nil : (path : List ℕ) (w : World) → AllTook w.disk → Logged path [] w w
Logged-nil path w all = record {
  bytes = sym (append-nil (bytes_at w.files path));
  others = λ p ne. refl;
  spent = record { takes = all; enough = omega arith };
}

read_stdin-goes_on :
    (fuel : ℕ) (env : Env) (tag : Option (List ℕ)) (pat : List ℕ) (b : ℕ) (text : List ℕ)
    (w : World) {w' : World}
    → log_text env none tag pat (c_str (fgets 2047 (b ∷ text)).0) w ≡ some (returned true w')
    → read_stdin (suc fuel) env none tag pat (b ∷ text) w
      ≡ read_stdin fuel env none tag pat (fgets 2047 (b ∷ text)).1 w'
unfolding read_stdin
read_stdin-goes_on fuel env tag pat b text w e = rw (read_stdin, e) refl

read_stdin-Logged :
    (fuel : ℕ) (env : Env) (tag : Option (List ℕ)) (pat : List ℕ) (c : ℕ) (name text : List ℕ)
    (w : World)
    → length text < fuel
    → IsNamed env pat c name
    → Lacks 0 text
    → AllTook w.disk
    → length text ≤ length w.disk
    → (w' : World) × (read_stdin fuel env none tag pat text w ≡ some (returned true w'))
      × Logged (c ∷ name) text w w'
unfolding read_stdin
read_stdin-Logged zero env tag pat c name text w fits n clean all enough =
    absurd (omega (arith, fits))
read_stdin-Logged (suc fuel) env tag pat c name [] w fits n clean all enough =
    (w, refl, Logged-nil (c ∷ name) w all)
read_stdin-Logged (suc fuel) env tag pat c name (b ∷ text) w fits n clean all enough =
    let line : List ℕ = (fgets 2047 (b ∷ text)).0 in
    let left : List ℕ = (fgets 2047 (b ∷ text)).1 in
    let whole : line ++ left ≡ b ∷ text = fgets-append 2047 (b ∷ text) in
    let lens : length line + length left ≡ suc (length text) =
      sym (length-append line left) ∙ ap length whole in
    let short : length left ≤ length text = fgets-shorter 2046 b text in
    let cleans = Lacks-split 0 line left (subst (Lacks 0) (sym whole) clean) in
    let first =
      log_text-Logged env tag pat c name line w n all (omega (arith, lens, enough))
        (omega (arith, length-fgets 2047 (b ∷ text))) in
    let spent = first.2.spent in
    let more =
      read_stdin-Logged fuel env tag pat c name left first.0 (omega (arith, short, fits)) n cleans.1
        spent.takes (omega (arith, lens, enough, spent.enough)) in
    (
      more.0,
      read_stdin-goes_on fuel env tag pat b text w
            (ap (λ t. log_text env none tag pat t w) (c_str-Lacks line cleans.0) ∙ first.1)
          ∙ more.1,
      subst (λ t. Logged (c ∷ name) t w more.0) whole
          (Logged-append (c ∷ name) line left first.2 more.2),
    )

main-reads :
    (env : Env) (o : Options) (pat text : List ℕ) (w : World)
    → o.dateformat ≡ some pat
    → o.message ≡ none
    → o.path ≡ none
    → main env o text w ≡ read_stdin (suc (length text)) env none o.tag pat text w
unfolding main log_all
main-reads env o pat text w format quiet alone = simp (main, log_all, format, quiet, alone) refl

-- The logger without a message and without a socket. As long as the date format gives the same name,
-- that of a file that can be opened, and `write` takes a byte at least with each call, the file grows
-- by exactly the bytes of the standard input, which holds no NUL, however long its lines are; no
-- other file changes, and the result is 0.
pub main-logs :
    (env : Env) (o : Options) (pat : List ℕ) (c : ℕ) (name text : List ℕ) (w : World)
    → o.dateformat ≡ some pat
    → o.message ≡ none
    → o.path ≡ none
    → IsNamed env pat c name
    → Lacks 0 text
    → AllTook w.disk
    → length text ≤ length w.disk
    → (w' : World) × (main env o text w ≡ some (returned true w'))
      × (bytes_at w'.files (c ∷ name) ≡ bytes_at w.files (c ∷ name) ++ text)
      × ((p : List ℕ) → (c ∷ name) ≢ p → w'.files p ≡ w.files p)
main-logs env o pat c name text w format quiet alone n clean all enough =
    let done =
      read_stdin-Logged (suc (length text)) env o.tag pat c name text w (omega arith) n clean all
        enough in
    (done.0, main-reads env o pat text w format quiet alone ∙ done.1, done.2.bytes, done.2.others)
