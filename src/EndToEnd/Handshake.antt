-- ===== src/EndToEnd/Handshake.antt =====
-- The `INIT` message and its answer: `_init_file` of follower/main.c and `handler_init` of
-- aggregator/main.c.
use compostela.Prelude.{
  lt→ltb, ℕ, ◌+◌, ◌^◌, ◌%◌, ◌<◌, ◌≡◌, refl, sym, ap, ap₂, ◌∙◌, List, [], ◌∷◌, ◌++◌, Option, some,
  length, arith, true, false, Bool-cases, inl, inr, ◌⊎◌, take_all, take-append, str_eq_refl, ltb,
  if◌then◌else◌,
}
use compostela.Prelude.Words.{pos}
use compostela.Prelude.Text.{c_str}
use compostela.AzBuffer.{AzBuffer}
use compostela.Supports.{contents_of, mhash_with_size, pathcat}
use compostela.Message.{Header, bswap_64, store64, scm_resp_ok}
use compostela.Follower.Connection.Framing.{frame}
use compostela.Follower.Context
use compostela.Follower.Context.{FollowContext, Net}
use compostela.Follower.Run.{check_digest, init_file}
use compostela.Follower.Run.Exchange.{Carries}
use compostela.Follower.Run.Init.{
  attributes, init_message, init_reply, init_file-accepts, length-store64,
}
use compostela.Aggregator.Config.{AggregateContext}
use compostela.Aggregator.Channels.Registry.{IsRegistry, NotAt, top}
use compostela.Aggregator.Files.{Env, find_aggregate_context}
use compostela.Aggregator.Handlers.{Server, handler_init, connection_send, reply, digest, top_bit}
use compostela.Aggregator.Handlers.Opening.{init_content, fresh_channel, handler_init-opens}

digest-asked :
    (env : Env) (files : List ℕ → Option (List ℕ)) (path : List ℕ) (attr : ℕ) (bytes : List ℕ)
    → top_bit attr ≡ true
    → files path ≡ some bytes
    → digest env files path attr ≡ env.md5 bytes
unfolding digest mhash_with_size
digest-asked env files path attr bytes asked here =
    rw (asked, here, mhash_with_size, here, take_all (length bytes) bytes (omega arith)) refl

digest-plain :
    (env : Env) (files : List ℕ → Option (List ℕ)) (path : List ℕ) (attr : ℕ)
    → top_bit attr ≡ false
    → digest env files path attr ≡ []
unfolding digest
digest-plain env files path attr plain = rw plain refl

mhash_prefix :
    (follower : Context.Env) (own bytes more : List ℕ)
    → follower.files own ≡ some (bytes ++ more)
    → length bytes < 2 ^ 63
    → mhash_with_size follower.md5 follower.files own
        (if ltb (length bytes) (2 ^ 63) then length bytes else 0)
      ≡ some (follower.md5 bytes)
unfolding mhash_with_size
mhash_prefix follower own bytes more there small =
    rw
      (
        mhash_with_size,
        there,
        lt→ltb (length bytes) (2 ^ 63) small,
        take-append bytes more (length bytes) refl,
      )
      refl

check_digest-prefix :
    (follower : Context.Env) (own bytes more : List ℕ)
    → follower.files own ≡ some (bytes ++ more)
    → length bytes < 2 ^ 63
    → check_digest follower (some own) (length bytes) (follower.md5 bytes) ≡ some tt
unfolding check_digest
check_digest-prefix follower own bytes more there small =
    rw (check_digest, mhash_prefix follower own bytes more there small, str_eq_refl) refl

-- The digest of the aggregator, of a file that is the beginning of the follower's, is accepted.
digest-accepted :
    (env : Env) (follower : Context.Env) (files : List ℕ → Option (List ℕ)) (path own : List ℕ)
    (attr : ℕ) (bytes more : List ℕ)
    → files path ≡ some bytes
    → follower.files own ≡ some (bytes ++ more)
    → follower.md5 ≡ env.md5
    → length bytes < 2 ^ 63
    → (digest env files path attr ≡ [])
      ⊎ (check_digest follower (some own) (length bytes) (digest env files path attr) ≡ some tt)
digest-accepted env follower files path own attr bytes more here there same small =
    elim (Bool-cases (top_bit attr)) [
      | inl asked ↦ inr (
          ap (check_digest follower (some own) (length bytes))
            (digest-asked env files path attr bytes asked here ∙ ap (λ f. f bytes) (sym same))
          ∙ check_digest-prefix follower own bytes more there small)
      | inr plain ↦ inl (digest-plain env files path attr plain)
    ]

attributes-lt : (cxt : FollowContext) → attributes cxt < 2 ^ 32
attributes-lt cxt = ground arith

reply-init_reply :
    (id position : ℕ) (md : List ℕ)
    → id < 2 ^ 15
    → reply scm_resp_ok (id % 2 ^ 16) (store64 (bswap_64 position) ++ md)
      ≡ init_reply id position md
reply-init_reply id position md small =
    ap₂
      (λ c n. record {
        code = scm_resp_ok;
        channel = c;
        content_length = n;
        content = store64 (bswap_64 position) ++ md;
      })
      (omega (arith, small)) (length-store64 (bswap_64 position) md)

-- A file that both sides know, and that can seek. The aggregator has the first bytes of the follower's file; it answers
-- the `INIT` of the follower by opening a channel with an id above all others. From that answer the
-- follower takes the id, and goes on reading its file where the file of the aggregator ends.
pub resumes :
    (env : Env) (junk : ℕ → ℕ) (self : ℕ) (h : Header) (name memory dir path : List ℕ)
    (aggr : Option AggregateContext) (s : Server) (follower : Context.Env) (junk' : ℕ → ℕ)
    (cxt : FollowContext) (net : Net) (own bytes more rest : List ℕ)
    → env.heap ≡ some junk
    → env.logdir ≡ some dir
    → h.content_length ≡ 4 + length name
    → c_str name ≡ name
    → pathcat dir ((s.conn).remote_addr ∷ some name ∷ []) ≡ some path
    → find_aggregate_context env env.contexts path ≡ some aggr
    → IsRegistry (s.conn).channel_list
    → NotAt self (s.conn).channel_list
    → top (s.conn).channel_list + 1 < 2 ^ 15
    → s.files path ≡ some bytes
    → length bytes < 2 ^ 63
    → follower.heap ≡ some junk'
    → follower.md5 ≡ env.md5
    → follower.seeks (length bytes) ≡ true
    → cxt.display_name ≡ some name
    → cxt.filename ≡ some own
    → follower.files own ≡ some (bytes ++ more)
    → length name + 12 < 2 ^ 31
    → Carries net
        (length name + 4)
        (init_reply
          (top (s.conn).channel_list + 1)
          (length bytes)
          (digest env s.files path (attributes cxt)))
        rest
    → let id = top (s.conn).channel_list + 1 in
      ((b : AzBuffer) × (handler_init env self h (init_content (attributes cxt) name ++ memory) s
          ≡ some (
              connection_send
                (record s {
                  conn = record (s.conn) {
                    channel_list = fresh_channel self id name path b aggr ∷ (s.conn).channel_list;
                  };
                })
                (init_reply id (length bytes) (digest env s.files path (attributes cxt))))))
      × ((net' : Net) × (init_file follower cxt net
            ≡ some (
              pos 0,
              record cxt { channel = id; position = length bytes; offset = length bytes },
              net',
            ))
          × (net'.wire ≡ net.wire ++ frame (init_message (attributes cxt) name)))
resumes env junk self h name memory dir path aggr s follower junk' cxt net own bytes more rest mem
      root size whole joined found v fresh small here short mem' same can named filed there name_len
      carries =
    let attr : ℕ = attributes cxt in
    let md : List ℕ = digest env s.files path attr in
    let id : ℕ = top (s.conn).channel_list + 1 in
    let opened =
      handler_init-opens env junk self h attr name memory dir path aggr s mem root
        (attributes-lt cxt) size whole joined found v fresh (omega (arith, small)) in
    let accepted =
      init_file-accepts follower junk' cxt net name id (length bytes) md rest mem' named name_len
        short can carries
        (filed_digest
          (digest-accepted env follower s.files path own attr bytes more here there same short)) in
    let answer : reply scm_resp_ok (id % 2 ^ 16)
          (store64 (bswap_64 (length (contents_of (s.files path)))) ++ md)
        ≡ init_reply id (length bytes) md =
      reply-init_reply id (length (contents_of (s.files path))) md small
      ∙ ap (λ f. init_reply id (length (contents_of f)) md) here in
    (
      (
        opened.0,
        opened.2
            ∙ ap
                (λ a. some (
                  connection_send
                    (record s {
                      conn = record (s.conn) {
                        channel_list =
                            fresh_channel self id name path opened.0 aggr ∷ (s.conn).channel_list;
                      };
                    })
                    a))
                answer,
      ),
      (accepted.0, accepted.1, accepted.2),
    )
  where
    filed_digest :
        {md : List ℕ}
        → ((md ≡ []) ⊎ (check_digest follower (some own) (length bytes) md ≡ some tt))
        → (md ≡ []) ⊎ (check_digest follower cxt.filename (length bytes) md ≡ some tt)
    filed_digest (inl e) = inl e
    filed_digest {md} (inr e) = inr (ap (λ f. check_digest follower f (length bytes) md) filed ∙ e)
