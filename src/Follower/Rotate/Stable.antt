-- ===== src/Follower/Rotate/Stable.antt =====
-- One rotation of follower/main.c after another.
use compostela.Prelude.{
  arith, ◌≡◌, ◌≢◌, refl, sym, ap, ◌∙◌, ℕ, List, [], ◌∷◌, some, ◌>>=◌, >>=-eq-some, Bool, true,
  Bool-cases, inl, inr, str_eq, str_eq_refl, str_eq_sound,
}
use compostela.AzList
use compostela.AzBuffer
use compostela.Message
use compostela.Follower.Context.{FollowContext, Net, Env, bufsize, close}
use compostela.Follower.Context
use compostela.Follower.Rotate.{
  PatternEntry, Clock, left_name, shown_name, Search, missing, followed, renamed, is_named, search,
  follow, rotate_entry, do_rotate,
}

-- The list follows the entry.
abbrev pub Follows : Clock → List FollowContext → PatternEntry → Type 0
Follows clock contexts pe =
    search contexts (left_name clock pe) (shown_name clock pe) ≡ some followed

-- No two entries have the same file name.
abbrev pub Elsewhere : Clock → PatternEntry → List PatternEntry → Type 0
Elsewhere clock pe [] = Unit {0}
Elsewhere clock pe (p ∷ ps) = (left_name clock pe ≢ left_name clock p) × Elsewhere clock pe ps

abbrev pub Distinct : Clock → List PatternEntry → Type 0
Distinct clock [] = Unit {0}
Distinct clock (p ∷ ps) = Elsewhere clock p ps × Distinct clock ps

abbrev pub AllFollowed : Clock → List FollowContext → List PatternEntry → Type 0
AllFollowed clock contexts [] = Unit {0}
AllFollowed clock contexts (p ∷ ps) = Follows clock contexts p × AllFollowed clock contexts ps

new-names :
    (env : Env) (fn dn : List ℕ) (ts : Bool) {cxt : FollowContext}
    → Context.new env.heap (some fn) (some dn) ts bufsize ≡ some cxt
    → (cxt.filename ≡ some fn) × (cxt.display_name ≡ some dn)
unfolding Context.new
new-names env fn dn ts e =
    let buffer = >>=-eq-some (AzBuffer.new true env.heap bufsize) _ e in
    let msg = >>=-eq-some (Message.new env.heap bufsize) _ buffer.2 in
    (ground (arith, msg.2), ground (arith, msg.2))

search-front :
    (cxt : FollowContext) (li : List FollowContext) (fn dn : List ℕ)
    → cxt.filename ≡ some fn
    → cxt.display_name ≡ some dn
    → search (cxt ∷ li) fn dn ≡ some followed
unfolding search is_named
search-front cxt li fn dn f d = rw (f, d, str_eq_refl fn, str_eq_refl dn) refl

search-behind :
    (cxt : FollowContext) (li : List FollowContext) (name fn dn : List ℕ)
    → cxt.filename ≡ some name
    → name ≢ fn
    → search (cxt ∷ li) fn dn ≡ search li fn dn
unfolding search is_named
search-behind cxt li name fn dn f ne = elim (Bool-cases (str_eq name fn)) [
  | inl same ↦ absurd (ne (str_eq_sound name fn same))
  | inr other ↦ rw (f, other) refl
]

do_rotate-AllFollowed :
    (env : Env) (clock : Clock) (patterns : List PatternEntry) (contexts : List FollowContext)
    (net : Net)
    → AllFollowed clock contexts patterns
    → do_rotate env clock patterns contexts net ≡ some (contexts, net)
unfolding do_rotate rotate_entry
do_rotate-AllFollowed env clock [] contexts net h = refl
do_rotate-AllFollowed env clock (p ∷ ps) contexts net h =
    rw (do_rotate, h.0, do_rotate-AllFollowed env clock ps contexts net h.1) refl

-- What a round has done: the entry is followed, and the search for another name is not disturbed.
record Round (clock : Clock) (pe : PatternEntry) (contexts after : List FollowContext)
    : Type 0 where
  pub here : Follows clock after pe
  pub others :
      (fn dn : List ℕ) → left_name clock pe ≢ fn → search after fn dn ≡ search contexts fn dn

follow-Round :
    (env : Env) (clock : Clock) (pe : PatternEntry) (contexts : List FollowContext) (net : Net)
    {r : List FollowContext × Net}
    → follow env (left_name clock pe) (shown_name clock pe) pe.append_timestamp contexts net
      ≡ some r
    → Round clock pe contexts r.0
unfolding follow AzList.add
follow-Round env clock pe contexts net {r} e =
    let made =
      >>=-eq-some
        (Context.new env.heap (some (left_name clock pe)) (some (shown_name clock pe))
          pe.append_timestamp bufsize)
        _ e in
    let names =
      new-names env (left_name clock pe) (shown_name clock pe) pe.append_timestamp made.1 in
    let front : (made.0 ∷ contexts) ≡ r.0 = ground (arith, made.2) in
    record {
      here =
          ap (λ li. search li (left_name clock pe) (shown_name clock pe)) (sym front)
          ∙ search-front made.0 contexts (left_name clock pe) (shown_name clock pe) names.0 names.1;
      others = λ fn dn ne.
          ap (λ li. search li fn dn) (sym front)
          ∙ search-behind made.0 contexts (left_name clock pe) fn dn names.0 ne;
    }

rotate_entry-Round :
    (env : Env) (clock : Clock) (pe : PatternEntry) (contexts : List FollowContext) (net : Net)
    {r : List FollowContext × Net}
    → rotate_entry env clock pe contexts net ≡ some r
    → Round clock pe contexts r.0
unfolding rotate_entry
rotate_entry-Round env clock pe contexts net {r} e =
    let found = >>=-eq-some (search contexts (left_name clock pe) (shown_name clock pe)) _ e in
    go found.0 found.1 found.2
  where
    go :
        (f : Search)
        → search contexts (left_name clock pe) (shown_name clock pe) ≡ some f
        → (elim f [
          | missing ↦
              follow env (left_name clock pe) (shown_name clock pe) pe.append_timestamp contexts net
          | followed ↦ some (contexts, net)
          | renamed cxt ↦
              (close env cxt net >>= λ closed.
              follow env
                (left_name clock pe)
                (shown_name clock pe)
                pe.append_timestamp
                contexts
                closed.1)
        ])
          ≡ some r
        → Round clock pe contexts r.0
    go missing s e' = follow-Round env clock pe contexts net e'
    go followed s e' =
        let same : contexts ≡ r.0 = ground (arith, e') in
        record {
          here = ap (λ li. search li (left_name clock pe) (shown_name clock pe)) (sym same) ∙ s;
          others = λ fn dn ne. ap (λ li. search li fn dn) (sym same);
        }
    go (renamed cxt) s e' =
        let closed = >>=-eq-some (close env cxt net) _ e' in
        follow-Round env clock pe contexts (closed.0).1 closed.2

do_rotate-all :
    (env : Env) (clock : Clock) (patterns : List PatternEntry) (contexts : List FollowContext)
    (net : Net) {r : List FollowContext × Net}
    → Distinct clock patterns
    → do_rotate env clock patterns contexts net ≡ some r
    → AllFollowed clock r.0 patterns
      × ((p : PatternEntry)
          → Elsewhere clock p patterns
          → search r.0 (left_name clock p) (shown_name clock p)
            ≡ search contexts (left_name clock p) (shown_name clock p))
unfolding do_rotate
do_rotate-all env clock [] contexts net {r} h e =
    (tt, λ p away. ap (λ c. search c (left_name clock p) (shown_name clock p)) (ground (arith, e)))
do_rotate-all env clock (pe ∷ ps) contexts net {r} h e =
    let first = >>=-eq-some (rotate_entry env clock pe contexts net) _ e in
    let round = rotate_entry-Round env clock pe contexts net first.1 in
    let rest = do_rotate-all env clock ps (first.0).0 (first.0).1 h.1 first.2 in
    (
      (rest.1 pe h.0 ∙ round.here, rest.0),
      λ p away.
          rest.1 p away.1
          ∙ round.others (left_name clock p) (shown_name clock p) (λ same. away.0 (sym same)),
    )

-- After a rotation that comes through, over patterns whose file names differ, every entry is
-- followed under the name that it shows, and a further rotation at the same time of day changes
-- neither the list of contexts nor the connection, whatever the network would do.
pub do_rotate-stable :
    (env env' : Env) (clock : Clock) (patterns : List PatternEntry) (contexts : List FollowContext)
    (net net' : Net) {r : List FollowContext × Net}
    → Distinct clock patterns
    → do_rotate env clock patterns contexts net ≡ some r
    → AllFollowed clock r.0 patterns × (do_rotate env' clock patterns r.0 net' ≡ some (r.0, net'))
do_rotate-stable env env' clock patterns contexts net net' {r} h e =
    let all = do_rotate-all env clock patterns contexts net h e in
    (all.0, do_rotate-AllFollowed env' clock patterns r.0 net' all.0)
