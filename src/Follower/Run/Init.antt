-- ===== src/Follower/Run/Init.antt =====
-- `_init_file` of follower/main.c: a context asks the aggregator for a channel.
use compostela.Prelude.{
  Bool-cases, ℕ, Option, none, true, lt→ltb, str_eq, str_eq_refl, str_eq_sound, take, ◌≢◌, ◌+◌, ◌^◌,
  ◌%◌, ◌<◌, ◌≡◌, refl, ap, ◌∙◌, List, [], ◌++◌, some, arith, length, drop, false, not, ◌&&◌, ◌==◌,
  ltb, if◌then◌else◌, ◌⊎◌, inl, inr, take_all,
}
use compostela.Prelude.Words.{pos}
use compostela.Supports.{mhash_with_size}
use compostela.Transport.Receive.{stream}
use compostela.Message.{
  Message, scm_msg_init, scm_resp_ok, htonl, bswap_64, store16, store32, store64, load64,
}
use compostela.Message
use compostela.Message.Bytes.{IsValid}
use compostela.Message.Content.{load64-store64, bswap_64-bswap_64, bswap_64-lt}
use compostela.Follower.Connection.Framing.{frame, trimmed}
use compostela.Follower.Context.{FollowContext, Net, Env, Exchange, exchange, is_zero}
use compostela.Follower.Run.{check_digest, sought, accept_init, init_file}
use compostela.Follower.Run.Exchange.{Carries, exchange_lem}

-- The attributes of a context: the top bit asks for the digest of the file.
abbrev pub attributes : FollowContext → ℕ
attributes cxt = if cxt.regular && not cxt.ftimestamp then 2 ^ 31 else 0

abbrev pub init_message : ℕ → List ℕ → Message
init_message attr name = record {
  code = scm_msg_init;
  channel = 0;
  content_length = length name + 4;
  content = store32 (htonl attr) ++ name;
}

-- The answer that the aggregator gives: a channel, the length of its file and perhaps a digest.
abbrev pub init_reply : ℕ → ℕ → List ℕ → Message
init_reply channel position digest = record {
  code = scm_resp_ok;
  channel = channel;
  content_length = 8 + length digest;
  content = store64 (bswap_64 position) ++ digest;
}

pub length-store64 : (w : ℕ) (rest : List ℕ) → length (store64 w ++ rest) ≡ 8 + length rest
unfolding store64 store32 store16
length-store64 w rest = omega arith

trimmed-init_reply :
    (channel position : ℕ) (digest : List ℕ)
    → trimmed (init_reply channel position digest) ≡ init_reply channel position digest
trimmed-init_reply channel position digest =
    ap (λ c. record (init_reply channel position digest) { content = c })
      (take_all (8 + length digest) (store64 (bswap_64 position) ++ digest)
        (omega (arith, length-store64 (bswap_64 position) digest)))

drop-store64 : (w : ℕ) (rest : List ℕ) → drop 8 (store64 w ++ rest) ≡ rest
unfolding store64 store32 store16
drop-store64 w rest = refl

length-store32 : (w : ℕ) (rest : List ℕ) → length (store32 w ++ rest) ≡ 4 + length rest
unfolding store32 store16
length-store32 w rest = omega arith

-- `lseek` of a file that can seek.
pub sought-there :
    (env : Env) (position offset : ℕ)
    → position < 2 ^ 63
    → env.seeks position ≡ true
    → sought env position offset ≡ position
unfolding sought
sought-there env position offset small can = rw (lt→ltb position (2 ^ 63) small, can) refl

-- The digest of an answer, for a position, is that of the follower's own file up to there.
pub record IsOwn (env : Env) (filename : Option (List ℕ)) (position : ℕ) (digest : List ℕ)
    : Type 0 where
  pub path : List ℕ
  pub bytes : List ℕ
  pub named : filename ≡ some path
  pub there : env.files path ≡ some bytes
  pub same : digest ≡ env.md5 (take position bytes)

mhash-there :
    (env : Env) (path bytes : List ℕ) (position : ℕ)
    → env.files path ≡ some bytes
    → position < 2 ^ 63
    → mhash_with_size env.md5 env.files path (if ltb position (2 ^ 63) then position else 0)
      ≡ some (env.md5 (take position bytes))
unfolding mhash_with_size
mhash-there env path bytes position there small =
    rw (mhash_with_size, there, lt→ltb position (2 ^ 63) small) refl

check_digest-own :
    (env : Env) (filename : Option (List ℕ)) (position : ℕ) (digest : List ℕ)
    → position < 2 ^ 63
    → IsOwn env filename position digest
    → check_digest env filename position digest ≡ some tt
unfolding check_digest
check_digest-own env filename position digest small own =
    rw
      (
        check_digest,
        own.named,
        mhash-there env own.path own.bytes position own.there small,
        own.same,
        str_eq_refl,
      )
      refl

check_digest-other :
    (env : Env) (filename : Option (List ℕ)) (path bytes : List ℕ) (position : ℕ) (digest : List ℕ)
    → position < 2 ^ 63
    → filename ≡ some path
    → env.files path ≡ some bytes
    → digest ≢ env.md5 (take position bytes)
    → check_digest env filename position digest ≡ none
unfolding check_digest
check_digest-other env filename path bytes position digest small named there differs =
    elim (Bool-cases (str_eq digest (env.md5 (take position bytes)))) [
      | inl same ↦ absurd (differs (str_eq_sound digest (env.md5 (take position bytes)) same))
      | inr other ↦
          rw (check_digest, named, mhash-there env path bytes position there small, other) refl
    ]

-- The follower takes the channel and the position of the answer, where the digest is not there or
-- is that of its own file.
accept_init_lem :
    (env : Env) (cxt : FollowContext) (channel position : ℕ) (digest : List ℕ)
    → position < 2 ^ 64
    → ((digest ≡ []) ⊎ (check_digest env cxt.filename position digest ≡ some tt))
    → accept_init env cxt (init_reply channel position digest)
      ≡ some (record cxt {
        channel = channel;
        position = position;
        offset = sought env position cxt.offset;
      })
unfolding accept_init
accept_init_lem env cxt channel position digest h (inl e) =
    rw
      (
        load64-store64 (bswap_64 position) digest (bswap_64-lt position h),
        bswap_64-bswap_64 position h,
        no_digest,
      )
      refl
  where
    no_digest : ltb 8 (8 + length digest) ≡ false
    no_digest = rw e refl
accept_init_lem env cxt channel position digest h (inr e) =
    elim (Bool-cases (ltb 8 (8 + length digest))) [
      | inl long ↦ rw (loaded, swapped, long, checked) refl
      | inr short ↦ rw (loaded, swapped, short) refl
    ]
  where
    loaded : load64 (store64 (bswap_64 position) ++ digest) ≡ some (bswap_64 position)
    loaded = load64-store64 (bswap_64 position) digest (bswap_64-lt position h)

    swapped : bswap_64 (bswap_64 position) ≡ position
    swapped = bswap_64-bswap_64 position h

    checked :
        check_digest env cxt.filename position (drop 8 (store64 (bswap_64 position) ++ digest))
        ≡ some tt
    checked =
        ap (check_digest env cxt.filename position) (drop-store64 (bswap_64 position) digest) ∙ e

init_file-runs :
    (env : Env) (junk : ℕ → ℕ) (cxt cxt' : FollowContext) (net : Net) (name : List ℕ)
    (reply : Message) (x : Exchange)
    → env.heap ≡ some junk
    → cxt.display_name ≡ some name
    → length name + 4 < 2 ^ 31
    → exchange env net (init_message (attributes cxt) name) ≡ some x
    → x.sent ≡ pos 0
    → x.got ≡ pos 0
    → x.resp ≡ some reply
    → reply.code ≡ scm_resp_ok
    → accept_init env cxt reply ≡ some cxt'
    → init_file env cxt net ≡ some (pos 0, cxt', x.net)
unfolding init_file Message.new is_zero
init_file-runs env junk cxt cxt' net name reply x mem named small runs sent got resp ok accepts =
    rw
      (
        named,
        mem,
        sized,
        runs,
        ap is_zero sent,
        ap is_zero got,
        resp,
        ap (λ c. c == scm_resp_ok) ok,
        accepts,
      )
      refl
  where
    sized : (length name + 4) % 2 ^ 32 ≡ length name + 4
    sized = omega (arith, small)

init_message-IsValid :
    (attr : ℕ) (name : List ℕ) → length name + 4 < 2 ^ 31 → IsValid (init_message attr name)
init_message-IsValid attr name h = record {
  code_in = omega arith;
  channel_in = omega arith;
  length_in = h;
  room = omega (arith, length-store32 (htonl attr) name);
}

pub init_file-accepts :
    (env : Env) (junk : ℕ → ℕ) (cxt : FollowContext) (net : Net) (name : List ℕ)
    (channel position : ℕ) (digest rest : List ℕ)
    → env.heap ≡ some junk
    → cxt.display_name ≡ some name
    → length name + 12 < 2 ^ 31
    → position < 2 ^ 63
    → env.seeks position ≡ true
    → Carries net (length name + 4) (init_reply channel position digest) rest
    → ((digest ≡ []) ⊎ (check_digest env cxt.filename position digest ≡ some tt))
    → (net' : Net) × (init_file env cxt net
        ≡ some
            (pos 0, record cxt { channel = channel; position = position; offset = position }, net'))
      × (net'.wire ≡ net.wire ++ frame (init_message (attributes cxt) name))
      × (net'.conn ≡ net.conn)
      × (stream net'.events ≡ rest)
init_file-accepts env junk cxt net name channel position digest rest mem named small pos_in can
      carries checked =
    let m : Message = init_message (attributes cxt) name in
    let reply : Message = init_reply channel position digest in
    let x =
      exchange_lem env junk net m reply rest mem
        (init_message-IsValid (attributes cxt) name (omega (arith, small))) (omega (arith, small))
        carries in
    let d = x.2 in
    (
      (x.0).net,
      init_file-runs env junk cxt
          (record cxt { channel = channel; position = position; offset = position }) net name reply
          x.0 mem named (omega (arith, small)) x.1 d.sent d.got
          (d.resp ∙ ap some (trimmed-init_reply channel position digest)) refl
          (accept_init_lem env cxt channel position digest (omega (arith, pos_in)) checked
            ∙ ap (λ o. some (record cxt { channel = channel; position = position; offset = o }))
                (sought-there env position cxt.offset pos_in can)),
      d.out,
      d.conn,
      d.left,
    )

-- Opening a file that can seek: over a network that carries its `INIT` message, with its attributes
-- and its name, and an answer of OK, the context takes the channel of the answer, and goes on reading
-- where the file of the aggregator ends. The digest of the answer is left out, or that of the
-- follower's own file up to there.
pub init_file_lem :
    (env : Env) (junk : ℕ → ℕ) (cxt : FollowContext) (net : Net) (name : List ℕ)
    (channel position : ℕ) (digest rest : List ℕ)
    → env.heap ≡ some junk
    → cxt.display_name ≡ some name
    → length name + 12 < 2 ^ 31
    → position < 2 ^ 63
    → env.seeks position ≡ true
    → Carries net (length name + 4) (init_reply channel position digest) rest
    → ((digest ≡ []) ⊎ IsOwn env cxt.filename position digest)
    → (net' : Net) × (init_file env cxt net
        ≡ some
            (pos 0, record cxt { channel = channel; position = position; offset = position }, net'))
      × (net'.wire ≡ net.wire ++ frame (init_message (attributes cxt) name))
      × (net'.conn ≡ net.conn)
      × (stream net'.events ≡ rest)
init_file_lem env junk cxt net name channel position digest rest mem named small pos_in can carries
      (inl plain) =
    init_file-accepts env junk cxt net name channel position digest rest mem named small pos_in can
      carries (inl plain)
init_file_lem env junk cxt net name channel position digest rest mem named small pos_in can carries
      (inr own) =
    init_file-accepts env junk cxt net name channel position digest rest mem named small pos_in can
      carries (inr (check_digest-own env cxt.filename position digest pos_in own))

accept_init-refuses :
    (env : Env) (cxt : FollowContext) (channel position : ℕ) (digest path bytes : List ℕ)
    → position < 2 ^ 63
    → 0 < length digest
    → cxt.filename ≡ some path
    → env.files path ≡ some bytes
    → digest ≢ env.md5 (take position bytes)
    → accept_init env cxt (init_reply channel position digest) ≡ none
unfolding accept_init
accept_init-refuses env cxt channel position digest path bytes small some_bytes named there
      differs =
    rw
      (
        load64-store64 (bswap_64 position) digest (bswap_64-lt position (omega (arith, small))),
        bswap_64-bswap_64 position (omega (arith, small)),
        lt→ltb 8 (8 + length digest) (omega (arith, some_bytes)),
        ap (check_digest env cxt.filename position) (drop-store64 (bswap_64 position) digest)
            ∙ check_digest-other env cxt.filename path bytes position digest small named there
                differs,
      )
      refl

init_file-stops :
    (env : Env) (junk : ℕ → ℕ) (cxt : FollowContext) (net : Net) (name : List ℕ) (reply : Message)
    (x : Exchange)
    → env.heap ≡ some junk
    → cxt.display_name ≡ some name
    → length name + 4 < 2 ^ 31
    → exchange env net (init_message (attributes cxt) name) ≡ some x
    → x.sent ≡ pos 0
    → x.got ≡ pos 0
    → x.resp ≡ some reply
    → reply.code ≡ scm_resp_ok
    → accept_init env cxt reply ≡ none
    → init_file env cxt net ≡ none
unfolding init_file Message.new is_zero
init_file-stops env junk cxt net name reply x mem named small runs sent got resp ok refuses =
    rw
      (
        named,
        mem,
        sized,
        runs,
        ap is_zero sent,
        ap is_zero got,
        resp,
        ap (λ c. c == scm_resp_ok) ok,
        refuses,
      )
      refl
  where
    sized : (length name + 4) % 2 ^ 32 ≡ length name + 4
    sized = omega (arith, small)

-- An answer of OK with a digest that is not that of the follower's own file up to the position of the
-- answer: the daemon exits.
pub init_file-refuses :
    (env : Env) (junk : ℕ → ℕ) (cxt : FollowContext) (net : Net) (name : List ℕ)
    (channel position : ℕ) (digest rest path bytes : List ℕ)
    → env.heap ≡ some junk
    → cxt.display_name ≡ some name
    → length name + 12 < 2 ^ 31
    → position < 2 ^ 63
    → Carries net (length name + 4) (init_reply channel position digest) rest
    → cxt.filename ≡ some path
    → env.files path ≡ some bytes
    → 0 < length digest
    → digest ≢ env.md5 (take position bytes)
    → init_file env cxt net ≡ none
init_file-refuses env junk cxt net name channel position digest rest path bytes mem named small
      pos_in carries filed there some_bytes differs =
    let m : Message = init_message (attributes cxt) name in
    let reply : Message = init_reply channel position digest in
    let x =
      exchange_lem env junk net m reply rest mem
        (init_message-IsValid (attributes cxt) name (omega (arith, small))) (omega (arith, small))
        carries in
    init_file-stops env junk cxt net name reply x.0 mem named (omega (arith, small)) x.1 x.2.sent
      x.2.got (x.2.resp ∙ ap some (trimmed-init_reply channel position digest)) refl
      (accept_init-refuses env cxt channel position digest path bytes pos_in some_bytes filed there
        differs)
