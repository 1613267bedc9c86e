-- ===== src/Follower/Loop/Making.antt =====
-- The contexts that follower/main.c makes, at a rotation or for a visitor of the control socket.
use compostela.Prelude.{
  ℕ, ◌≡◌, sym, ap, ◌∙◌, subst, List, [], ◌∷◌, Option, some, ◌>>=◌, Bool, true, arith, length,
  >>=-eq-some, map,
}
use compostela.AzList
use compostela.AzBuffer.{AzBuffer, Heap, read_line, fetch_bytes, unused_bytes, unread_bytes}
use compostela.AzBuffer
use compostela.AzBuffer.Holds.{Holds, new_lem, length-fill, reset_lem}
use compostela.Message.{Message}
use compostela.Message
use compostela.Follower.Context.{FollowContext, Net, Env, bufsize, close, reset, close_file}
use compostela.Follower.Context
use compostela.Follower.Rotate.{
  PatternEntry, Clock, Search, missing, followed, renamed, search, follow, rotate_entry, do_rotate,
  left_name, shown_name,
}
use compostela.Follower.Loop.Keeping.{IsSound}

abbrev pub AllSound : List FollowContext → Type 0
AllSound [] = Unit {0}
AllSound (cxt ∷ li) = IsSound cxt × AllSound li

new-message :
    (junk : ℕ → ℕ) (n : ℕ) {msg : Message}
    → Message.new (some junk) n ≡ some msg
    → length msg.content ≡ n
unfolding Message.new
new-message junk n e = ground (arith, e, length-fill junk n)

-- A new context, where memory is at hand.
pub new-IsSound :
    (junk : ℕ → ℕ) (fname dispname : Option (List ℕ)) (ftimestamp : Bool) {cxt : FollowContext}
    → Context.new (some junk) fname dispname ftimestamp bufsize ≡ some cxt
    → IsSound cxt
unfolding Context.new
new-IsSound junk fname dispname ftimestamp {cxt} e =
    let buffer = >>=-eq-some (AzBuffer.new true (some junk) bufsize) _ e in
    let msg = >>=-eq-some (Message.new (some junk) bufsize) _ buffer.2 in
    let made = new_lem junk bufsize (omega arith) in
    let same : made.0 ≡ buffer.0 = ground (arith, made.1, buffer.1) in
    let stored : buffer.0 ≡ cxt.buffer = ground (arith, msg.2) in
    let block : (msg.0).content ≡ (cxt.message_buffer).content = ground (arith, msg.2) in
    record {
      bytes = [];
      holds = subst (λ b. Holds b []) (same ∙ stored) made.2;
      block = ap length (sym block) ∙ new-message junk bufsize msg.1;
    }

pub reset-IsSound : (cxt : FollowContext) → IsSound cxt → IsSound (reset cxt)
unfolding reset close_file
reset-IsSound cxt s = record { bytes = []; holds = (reset_lem s.holds).0; block = s.block }

pub map-reset-AllSound : (li : List FollowContext) → AllSound li → AllSound (map reset li)
map-reset-AllSound [] s = tt
map-reset-AllSound (cxt ∷ li) s = (reset-IsSound cxt s.0, map-reset-AllSound li s.1)

follow-AllSound :
    (env : Env) (junk : ℕ → ℕ) (fn dn : List ℕ) (ftimestamp : Bool) (contexts : List FollowContext)
    (net : Net) {r : List FollowContext × Net}
    → env.heap ≡ some junk
    → AllSound contexts
    → follow env fn dn ftimestamp contexts net ≡ some r
    → AllSound r.0
unfolding follow AzList.add
follow-AllSound env junk fn dn ftimestamp contexts net {r} mem s e =
    let cxt = >>=-eq-some (Context.new env.heap (some fn) (some dn) ftimestamp bufsize) _ e in
    let one =
      new-IsSound junk (some fn) (some dn) ftimestamp (
        subst (λ h. Context.new h (some fn) (some dn) ftimestamp bufsize ≡ some cxt.0) mem cxt.1) in
    let same : cxt.0 ∷ contexts ≡ r.0 = ground (arith, cxt.2) in subst AllSound same (one, s)

rotate_entry-AllSound :
    (env : Env) (junk : ℕ → ℕ) (clock : Clock) (pe : PatternEntry) (contexts : List FollowContext)
    (net : Net) {r : List FollowContext × Net}
    → env.heap ≡ some junk
    → AllSound contexts
    → rotate_entry env clock pe contexts net ≡ some r
    → AllSound r.0
unfolding rotate_entry
rotate_entry-AllSound env junk clock pe contexts net {r} mem s e =
    let f = >>=-eq-some (search contexts (left_name clock pe) (shown_name clock pe)) _ e in
    by_search f.0 f.2
  where
    by_search :
        (f : Search)
        → (elim f [
          | missing ↦
              follow env (left_name clock pe) (shown_name clock pe) pe.append_timestamp contexts net
          | followed ↦ some (contexts, net)
          | renamed cxt ↦
              (close env cxt net >>= λ closed.
              follow env
                (left_name clock pe)
                (shown_name clock pe)
                pe.append_timestamp
                contexts
                closed.1)
        ])
          ≡ some r
        → AllSound r.0
    by_search missing h =
        follow-AllSound env junk (left_name clock pe) (shown_name clock pe) pe.append_timestamp
          contexts net mem s h
    by_search followed h = let same : contexts ≡ r.0 = ground (arith, h) in subst AllSound same s
    by_search (renamed cxt) h =
        let closed = >>=-eq-some (close env cxt net) _ h in
        follow-AllSound env junk (left_name clock pe) (shown_name clock pe) pe.append_timestamp
          contexts (closed.0).1 mem s closed.2

pub do_rotate-AllSound :
    (env : Env) (junk : ℕ → ℕ) (clock : Clock) (patterns : List PatternEntry)
    (contexts : List FollowContext) (net : Net) {r : List FollowContext × Net}
    → env.heap ≡ some junk
    → AllSound contexts
    → do_rotate env clock patterns contexts net ≡ some r
    → AllSound r.0
unfolding do_rotate
do_rotate-AllSound env junk clock [] contexts net {r} mem s e =
    let same : contexts ≡ r.0 = ground (arith, e) in subst AllSound same s
do_rotate-AllSound env junk clock (pe ∷ patterns) contexts net {r} mem s e =
    let one = >>=-eq-some (rotate_entry env clock pe contexts net) _ e in
    do_rotate-AllSound env junk clock patterns (one.0).0 (one.0).1 mem
      (rotate_entry-AllSound env junk clock pe contexts net mem s one.1) one.2
