-- ===== src/Follower/Rotate.antt =====
-- `do_rotate` of follower/main.c: every second the patterns of the configuration are turned into
-- file names for the time of day, and a context is made for each that is not followed yet. Names are
-- taken to be shorter than `PATH_MAX`.
pub mod Stable
mod Tests
use compostela.Prelude.{
  ℕ, List, [], ◌∷◌, Option, none, some, ◌>>=◌, Bool, true, false, ◌&&◌, ◌==◌, str_eq, if◌then◌else◌,
}
use compostela.Prelude.Memory.{mem_chr}
use compostela.AzList
use compostela.Follower.Context.{FollowContext, Net, Env, bufsize, close}
use compostela.Follower.Context

-- `sc_config_pattern_entry`.
pub record PatternEntry : Type 0 where
  pub path : List ℕ
  pub display_name : Option (List ℕ)
  pub rotate : Bool
  pub append_timestamp : Bool

-- `strftime` at the time of the rotation, and `basename`: what it leaves of the path in place, which
-- may lose a slash at its end, and the name.
pub record Clock : Type 0 where
  pub strftime : List ℕ → List ℕ
  pub basename : List ℕ → List ℕ × List ℕ

unfoldable pub has_percent : List ℕ → Bool
has_percent s = elim (mem_chr b'%' s) [ none ↦ false | some k ↦ true ]

-- `fn` as it is made, what is left of it, and `dn`: the names under which an entry is read and sent.
unfoldable pub file_name : Clock → PatternEntry → List ℕ
file_name clock pe = if pe.rotate && has_percent pe.path then clock.strftime pe.path else pe.path

unfoldable pub left_name : Clock → PatternEntry → List ℕ
left_name clock pe = elim pe.display_name [
  | none ↦ (clock.basename (file_name clock pe)).0
  | some dn ↦ file_name clock pe
]

unfoldable pub shown_name : Clock → PatternEntry → List ℕ
shown_name clock pe = elim pe.display_name [
  | none ↦ (clock.basename (file_name clock pe)).1
  | some dn ↦ if pe.rotate && has_percent dn then clock.strftime dn else dn
]

-- What the search for a file name comes to: no context has it, or the first that does has the same
-- name to show or another one.
pub data Search : Type 0 where
  missing : Search
  followed : Search
  renamed : FollowContext → Search

pub is_named : Option (List ℕ) → List ℕ → Bool
is_named none fn = false
is_named (some name) fn = str_eq name fn

-- `strcmp` with a name that a context does not have is a fault.
unfoldable pub search : List FollowContext → List ℕ → List ℕ → Option Search
unfolding is_named
search [] fn dn = some missing
search (cxt ∷ li) fn dn =
    let rest = search li fn dn in
    if is_named cxt.filename fn
    then (cxt.display_name >>= λ name. some (if str_eq name dn then followed else renamed cxt))
    else rest

-- A context for the entry at the front of the list.
unfoldable pub follow :
    Env → List ℕ → List ℕ → Bool → List FollowContext → Net → Option (List FollowContext × Net)
follow env fn dn ftimestamp contexts net =
    Context.new env.heap (some fn) (some dn) ftimestamp bufsize >>= λ cxt.
    some (AzList.add contexts cxt, net)

-- One round of the loop. A context that shows another name is closed, and stays in the list.
unfoldable pub rotate_entry :
    Env → Clock → PatternEntry → List FollowContext → Net → Option (List FollowContext × Net)
unfolding follow
rotate_entry env clock pe contexts net =
    let fn = left_name clock pe in
    let dn = shown_name clock pe in
    search contexts fn dn >>= λ f. elim f [
      | missing ↦ follow env fn dn pe.append_timestamp contexts net
      | followed ↦ some (contexts, net)
      | renamed cxt ↦
          (close env cxt net >>= λ closed. follow env fn dn pe.append_timestamp contexts closed.1)
    ]

unfoldable pub do_rotate :
    Env → Clock → List PatternEntry → List FollowContext → Net → Option (List FollowContext × Net)
unfolding rotate_entry
do_rotate env clock [] contexts net = some (contexts, net)
do_rotate env clock (pe ∷ patterns) contexts net =
    rotate_entry env clock pe contexts net >>= λ r. do_rotate env clock patterns r.0 r.1
