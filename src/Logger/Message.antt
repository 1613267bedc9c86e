-- ===== src/Logger/Message.antt =====
-- The two ways in which `main` of logger/main.c takes a text: as its argument, and from its standard
-- input.
use compostela.Prelude.{
  ℕ, zero, suc, ◌+◌, ◌<◌, ◌≤◌, ◌≡◌, ◌≢◌, refl, sym, subst, ap, ◌∙◌, List, [], ◌∷◌, ◌++◌, Option,
  none, some, ◌==◌, true, false, arith, length, append_assoc, length-append,
}
use compostela.Prelude.Text.{codes, c_str}
use compostela.AzBuffer.ReadLine.{Lacks, Lacks-append}
use compostela.Logger.{
  Env, World, Ended, exited, returned, log_text, fgets, read_stdin, Options, log_all, main,
}
use compostela.Logger.Standard.{c_str-Lacks}

apart : {k c : ℕ} → (k == c) ≡ false → k ≢ c
apart h e = ground (arith, h, e)

fgets-line :
    (n : ℕ) (line rest : List ℕ)
    → Lacks b'\n' line
    → length line < n
    → fgets n (line ++ (b'\n' ∷ rest)) ≡ (line ++ (b'\n' ∷ []), rest)
unfolding fgets
fgets-line zero line rest h room = absurd (omega (arith, room))
fgets-line (suc n) [] rest h room = refl
fgets-line (suc n) (c ∷ line) rest h room =
    ground (arith, h.0, fgets-line n line rest h.1 (omega (arith, room)))

-- A standard input of one line.
read_stdin-one :
    (fuel : ℕ) (env : Env) (fd : Option ℕ) (o : Options) (pat : List ℕ) (c : ℕ) (line text : List ℕ)
    (stdin : List ℕ) (w : World) (r : Option Ended)
    → text ++ codes "\r\n" ≡ c ∷ line
    → fgets 2047 (c ∷ line) ≡ (c ∷ line, [])
    → c_str (c ∷ line) ≡ c ∷ line
    → log_text env fd o.tag pat (c ∷ line) w ≡ r
    → log_all env fd (record o { message = some text }) pat stdin w
      ≡ read_stdin (suc (suc fuel)) env fd o.tag pat (c ∷ line) w
unfolding read_stdin log_all
read_stdin-one fuel env fd o pat c line text stdin w none same whole clean e =
    rw (log_all, read_stdin, same, whole, clean, e) refl
read_stdin-one fuel env fd o pat c line text stdin w (some (exited w')) same whole clean e =
    rw (log_all, read_stdin, same, whole, clean, e) refl
read_stdin-one fuel env fd o pat c line text stdin w (some (returned ok w')) same whole clean e =
    rw (log_all, read_stdin, same, whole, clean, e)
      (ap (λ t. read_stdin (suc fuel) env fd o.tag pat t w') (sym (ap (λ r. r.1) whole)))

log_all-message :
    (env : Env) (fd : Option ℕ) (o : Options) (pat text stdin : List ℕ) (w : World)
    → Lacks 0 text
    → Lacks b'\n' text
    → length text + 2 ≤ 2047
    → log_all env fd (record o { message = some text }) pat stdin w
      ≡ log_all env fd (record o { message = none }) pat (text ++ codes "\r\n") w
unfolding log_all
log_all-message env fd o pat text stdin w clean one short = by_cons (text ++ codes "\r\n") refl
  where
    line : List ℕ
    line = text ++ codes "\r\n"

    whole : fgets 2047 line ≡ (line, [])
    whole =
        ap (fgets 2047) (sym (append_assoc text (codes "\r") (codes "\n")))
        ∙ fgets-line 2047 (text ++ codes "\r") []
            (Lacks-append b'\n' text (codes "\r") one (apart refl, tt))
            (omega (arith, short, length-append text (codes "\r")))
        ∙ ap (λ t. (t, [])) (append_assoc text (codes "\r") (codes "\n"))

    nul_free : c_str line ≡ line
    nul_free =
        c_str-Lacks line (Lacks-append 0 text (codes "\r\n") clean (apart refl, (apart refl, tt)))

    by_cons :
        (l : List ℕ)
        → line ≡ l
        → log_all env fd (record o { message = some text }) pat stdin w
          ≡ read_stdin (suc (length l)) env fd o.tag pat l w
    by_cons [] e = absurd (omega (arith, ap length e, length-append text (codes "\r\n")))
    by_cons (c ∷ l) e =
        read_stdin-one (length l) env fd o pat c l text stdin w _ e
          (subst (λ t. fgets 2047 t ≡ (t, [])) e whole) (subst (λ t. c_str t ≡ t) e nul_free) refl

-- A text without a NUL and a newline, of 2045 bytes at most, and memory for its block: to give it as
-- the argument does all that giving it as the standard input does, with CR and LF behind it, whatever
-- the files, the socket and the other options are, errors and exits included.
pub main-message :
    (env : Env) (o : Options) (text stdin : List ℕ) (w : World)
    → env.room ≡ true
    → Lacks 0 text
    → Lacks b'\n' text
    → length text + 2 ≤ 2047
    → main env (record o { message = some text }) stdin w
      ≡ main env (record o { message = none }) (text ++ codes "\r\n") w
unfolding main log_all
main-message env o text stdin w room clean one short = by_format o.dateformat refl o.path refl
  where
    by_format :
        (f : Option (List ℕ))
        → o.dateformat ≡ f
        → (path : Option (List ℕ)) → o.path ≡ path
        → main env (record o { message = some text }) stdin w
          ≡ main env (record o { message = none }) (text ++ codes "\r\n") w
    by_format none e path p = simp (main, e) refl
    by_format (some pat) e none p =
        simp (main, e, room, p) (log_all-message env none o pat text stdin w clean one short)
    by_format (some pat) e (some path) p = by_socket (env.connects path) refl
      where
        by_socket :
            (fd : Option ℕ)
            → env.connects path ≡ fd
            → main env (record o { message = some text }) stdin w
              ≡ main env (record o { message = none }) (text ++ codes "\r\n") w
        by_socket none k = simp (main, e, room, p, k) refl
        by_socket (some fd) k =
            simp (main, e, room, p, k)
              (log_all-message env (some fd) o pat text stdin w clean one short)
