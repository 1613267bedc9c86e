-- ===== src/Follower/Loop/Visiting.antt =====
-- What the visitors of the control socket leave of the contexts of follower/main.c.
use compostela.Prelude.{
  ℕ, zero, suc, ◌≡◌, subst, List, [], ◌∷◌, Option, none, some, ◌>>=◌, guard, leb, Bool, true, false,
  arith, length, Bool-cases, inl, inr, >>=-eq-some, ◌==◌, ltb, take,
}
use compostela.Prelude.Words.{is_pos}
use compostela.Prelude.Text.{c_str}
use compostela.AzList
use compostela.AzBuffer.{Heap, read_line, fetch_bytes, unused_bytes, unread_bytes}
use compostela.Follower.Context.{FollowContext, bufsize}
use compostela.Follower.Context
use compostela.Follower.Controller.{
  Control, controller_buffer_size, words_from, open_with_line, is_open, reply_ok, take_control,
  line_loop, do_receive_data_0, make_room,
}
use compostela.Follower.Controller
use compostela.Follower.Loop.{
  Serving, Visit, nobody, failed, visitor, do_receive_0, accept_loop, serve_all, do_server_socket,
}
use compostela.Follower.Loop.Making.{AllSound, new-IsSound}

open_with_line-AllSound :
    (heap : Heap) (junk : ℕ → ℕ) (line : List ℕ) (s : Control) {s' : Control}
    → heap ≡ some junk
    → AllSound s.contexts
    → open_with_line heap line s ≡ some s'
    → AllSound s'.contexts
unfolding open_with_line AzList.add
open_with_line-AllSound heap junk line s {s'} mem sound e =
    let few = >>=-eq-some (guard (leb (length (words_from [] line)) 50)) _ e in
    by_words (words_from [] line) few.2
  where
    by_words :
        (words : List (List ℕ))
        → (elim words [
          | [] ↦ none
          | name ∷ more ↦
              (Context.new heap
                  (elim more [ [] ↦ none | fname ∷ others ↦ some fname ])
                  (some name)
                  true
                  bufsize
                >>= λ cxt. some (record s {
                  controller = record (s.controller) { display_name = some name; f_direct = true };
                  contexts = cxt ∷ s.contexts;
                }))
        ])
          ≡ some s'
        → AllSound s'.contexts
    by_words [] h = cc
    by_words (name ∷ more) h =
        let fname : Option (List ℕ) = elim more [ [] ↦ none | fname ∷ others ↦ some fname ] in
        let cxt = >>=-eq-some (Context.new heap fname (some name) true bufsize) _ h in
        let one =
          new-IsSound junk fname (some name) true
            (subst (λ m. Context.new m fname (some name) true bufsize ≡ some cxt.0) mem cxt.1) in
        let same : cxt.0 ∷ s.contexts ≡ s'.contexts = ground (arith, cxt.2) in
        subst AllSound same (one, sound)

take_control-AllSound :
    (heap : Heap) (junk : ℕ → ℕ) (line : List ℕ) (ret : Bool) (s : Control) {r : Bool × Control}
    → heap ≡ some junk
    → AllSound s.contexts
    → take_control heap line ret s ≡ some r
    → AllSound (r.1).contexts
unfolding take_control reply_ok
take_control-AllSound heap junk line ret s {r} mem sound e = elim (Bool-cases (is_open line)) [
  | inl opens ↦
      let s' = >>=-eq-some (open_with_line heap line s) _ (rw opens at e) in
      let same : (s'.0).contexts ≡ (r.1).contexts = ground (arith, s'.2) in
      subst AllSound same (open_with_line-AllSound heap junk line s mem sound s'.1)
  | inr other ↦
      let same : s.contexts ≡ (r.1).contexts = ground (arith, (rw other at e)) in
      subst AllSound same sound
]

line_loop-AllSound :
    (fuel : ℕ) (heap : Heap) (junk : ℕ → ℕ) (ret : Bool) (s : Control) {r : Bool × Control}
    → heap ≡ some junk
    → AllSound s.contexts
    → line_loop fuel heap ret s ≡ some r
    → AllSound (r.1).contexts
unfolding line_loop
line_loop-AllSound zero heap junk ret s mem sound e = cc
line_loop-AllSound (suc fuel) heap junk ret s {r} mem sound e =
    let out = >>=-eq-some (read_line (s.controller).buffer controller_buffer_size) _ e in
    elim (Bool-cases (is_pos (out.0).ret)) [
      | inr end ↦
          let same : s.contexts ≡ (r.1).contexts = ground (arith, (rw end at (out.2))) in
          subst AllSound same sound
      | inl line ↦
          let room =
            >>=-eq-some (guard (ltb (out.0).dused controller_buffer_size)) _ (rw line at (out.2)) in
          let s' : Control = record s {
            controller = record (s.controller) { buffer = (out.0).rest };
          } in
          let t =
            >>=-eq-some (take_control heap (c_str (take (out.0).dused (out.0).dst)) ret s') _
              room.2 in
          line_loop-AllSound fuel heap junk (t.0).0 (t.0).1 mem
            (take_control-AllSound heap junk (c_str (take (out.0).dused (out.0).dst)) ret s' mem
              sound t.1)
            t.2
    ]

do_receive_data_0-AllSound :
    (heap : Heap) (junk : ℕ → ℕ) (bytes : List ℕ) (s : Control) {r : Bool × Control}
    → heap ≡ some junk
    → AllSound s.contexts
    → do_receive_data_0 heap bytes s ≡ some r
    → AllSound (r.1).contexts
unfolding do_receive_data_0
do_receive_data_0-AllSound heap junk bytes s {r} mem sound e =
    let b = make_room heap (s.controller).buffer (length bytes) in
    let room = >>=-eq-some (guard (leb (length bytes) (unused_bytes b))) _ e in
    let stored = >>=-eq-some (fetch_bytes b bytes (length bytes)) _ room.2 in
    line_loop-AllSound (suc (unread_bytes (stored.0).1)) heap junk false
      (record s { controller = record (s.controller) { buffer = (stored.0).1 } }) mem sound stored.2

do_receive_0-AllSound :
    (heap : Heap) (junk : ℕ → ℕ) (c : ℕ) (got : Option (List ℕ)) (s : Serving) {s' : Serving}
    → heap ≡ some junk
    → AllSound s.contexts
    → do_receive_0 heap c got s ≡ some s'
    → AllSound s'.contexts
unfolding do_receive_0
do_receive_0-AllSound heap junk c none s {s'} mem sound e =
    let same : s.contexts ≡ s'.contexts = ground (arith, e) in subst AllSound same sound
do_receive_0-AllSound heap junk c (some []) s {s'} mem sound e =
    let same : s.contexts ≡ s'.contexts = ground (arith, e) in subst AllSound same sound
do_receive_0-AllSound heap junk c (some (b ∷ bytes)) s {s'} mem sound e =
    let contr = >>=-eq-some (Controller.new heap c) _ e in
    let control : Control = record {
      controller = contr.0;
      contexts = s.contexts;
      sends = s.sends;
    } in
    let r = >>=-eq-some (do_receive_data_0 heap (take bufsize (b ∷ bytes)) control) _ contr.2 in
    let same : ((r.0).1).contexts ≡ s'.contexts = ground (arith, r.2) in
    subst AllSound same
      (do_receive_data_0-AllSound heap junk (take bufsize (b ∷ bytes)) control mem sound r.1)

accept_loop-AllSound :
    (heap : Heap) (junk : ℕ → ℕ) (fd : ℕ) (visit : Visit) (socks : List ℕ) (s : Serving)
    {s' : Serving}
    → heap ≡ some junk
    → AllSound s.contexts
    → accept_loop heap fd visit socks s ≡ some s'
    → AllSound s'.contexts
unfolding accept_loop
accept_loop-AllSound heap junk fd visit [] s {s'} mem sound e =
    let same : s.contexts ≡ s'.contexts = ground (arith, e) in subst AllSound same sound
accept_loop-AllSound heap junk fd visit (sock ∷ socks) s {s'} mem sound e =
    elim (Bool-cases (fd == sock)) [
      | inr other ↦ accept_loop-AllSound heap junk fd visit socks s mem sound (rw other at e)
      | inl ready ↦
          by_visit visit (λ h. accept_loop-AllSound heap junk fd visit socks s mem sound h)
            (rw ready at e)
    ]
  where
    by_visit :
        (v : Visit)
        → (accept_loop heap fd visit socks s ≡ some s' → AllSound s'.contexts)
        → (elim v [
          | nobody ↦ accept_loop heap fd visit socks s
          | failed ↦ some s
          | visitor c got ↦ do_receive_0 heap c got s
        ])
          ≡ some s'
        → AllSound s'.contexts
    by_visit nobody next h = next h
    by_visit failed next h =
        let same : s.contexts ≡ s'.contexts = ground (arith, h) in subst AllSound same sound
    by_visit (visitor c got) next h = do_receive_0-AllSound heap junk c got s mem sound h

serve_all-AllSound :
    (heap : Heap) (junk : ℕ → ℕ) (events : List (ℕ × Visit)) (socks : List ℕ) (s : Serving)
    {s' : Serving}
    → heap ≡ some junk
    → AllSound s.contexts
    → serve_all heap events socks s ≡ some s'
    → AllSound s'.contexts
unfolding serve_all
serve_all-AllSound heap junk [] socks s {s'} mem sound e =
    let same : s.contexts ≡ s'.contexts = ground (arith, e) in subst AllSound same sound
serve_all-AllSound heap junk ((fd, visit) ∷ events) socks s {s'} mem sound e =
    let one = >>=-eq-some (accept_loop heap fd visit socks s) (serve_all heap events socks) e in
    serve_all-AllSound heap junk events socks one.0 mem
      (accept_loop-AllSound heap junk fd visit socks s mem sound one.1) one.2

pub do_server_socket-AllSound :
    (heap : Heap) (junk : ℕ → ℕ) (events : List (ℕ × Visit)) (socks : List ℕ) (s : Serving)
    {r : Bool × Serving}
    → heap ≡ some junk
    → AllSound s.contexts
    → do_server_socket heap events socks s ≡ some r
    → AllSound (r.1).contexts
unfolding do_server_socket
do_server_socket-AllSound heap junk events socks s {r} mem sound e =
    let done = >>=-eq-some (serve_all heap events socks s) _ e in
    let same : (done.0).contexts ≡ (r.1).contexts = ground (arith, done.2) in
    subst AllSound same (serve_all-AllSound heap junk events socks s mem sound done.1)
