-- ===== src/Aggregator/Handlers/Opening.antt =====
-- `handler_init` of aggregator/main.c: a channel is opened.
use compostela.Prelude.{
  ℕ, ◌+◌, ◌-◌, ◌^◌, ◌%◌, ◌<◌, ◌≡◌, refl, ap, ◌∙◌, List, [], ◌∷◌, ◌++◌, Option, none, some, arith,
  length, true, false, leb, ltb, Bool-cases, inl, inr, take_all, if◌then◌else◌, append_assoc,
}
use compostela.Prelude.Memory.{read_at, read_at-middle}
use compostela.Prelude.Text.{c_str}
use compostela.AzBuffer.{AzBuffer, fill, unused_bytes}
use compostela.AzBuffer
use compostela.AzBuffer.Holds.{Holds, new_lem}
use compostela.Supports.{contents_of, pathcat, mhash_with_size}
use compostela.Message.{Header, htonl, bswap_64, store16, store32, store64, load32, scm_resp_ok}
use compostela.Message.Bytes.{htonl-htonl}
use compostela.Message.Content.{load32-store32, htonl-lt}
use compostela.Aggregator.Config.{AggregateContext}
use compostela.Aggregator.Channels.{Channel, Connection, channel_new, set_context}
use compostela.Aggregator.Channels.Registry.{IsRegistry, NotAt, top, register_channel-IsRegistry}
use compostela.Aggregator.Files.{Env, find_aggregate_context}
use compostela.Aggregator.Handlers.{Server, handler_init, connection_send, reply, digest}

-- A channel as it is made.
abbrev pub fresh_channel : ℕ → ℕ → List ℕ → List ℕ → AzBuffer → Option AggregateContext → Channel
fresh_channel self id name path buffer aggr = record {
  self = self;
  id = id;
  filename = name;
  filename_fullpath = path;
  buffer = buffer;
  aggregate_context = aggr;
}

leb-ltb : (attr : ℕ) → ltb attr (2 ^ 31) ≡ true → leb (2 ^ 31) attr ≡ false
leb-ltb attr e = ground (arith, e)

leb-not_ltb : (attr : ℕ) → ltb attr (2 ^ 31) ≡ false → leb (2 ^ 31) attr ≡ true
leb-not_ltb attr e = ground (arith, e)

channel_new-made :
    (env : Env) (self : ℕ) (conn : Connection) (name dir path : List ℕ) (b : AzBuffer)
    → env.logdir ≡ some dir
    → pathcat dir (conn.remote_addr ∷ some name ∷ []) ≡ some path
    → AzBuffer.new true env.heap 1024 ≡ some b
    → channel_new env.heap self env.logdir conn name ≡ some (fresh_channel self 0 name path b none)
unfolding channel_new
channel_new-made env self conn name dir path b root joined made = rw (root, joined, made) refl

set_context-first :
    (c : Channel) (li : List Channel) (aggr : Option AggregateContext)
    → set_context (c ∷ li) c.self aggr ≡ record c { aggregate_context = aggr } ∷ li
unfolding set_context
set_context-first c li aggr = ground arith

-- The content of an `INIT` message: attributes and the name of the file.
abbrev pub init_content : ℕ → List ℕ → List ℕ
init_content attr name = store32 (htonl attr) ++ name

attr_of :
    (attr : ℕ) (name memory : List ℕ)
    → attr < 2 ^ 32
    → load32 (init_content attr name ++ memory) ≡ some (htonl attr)
attr_of attr name memory h =
    ap load32 (append_assoc (store32 (htonl attr)) name memory)
    ∙ load32-store32 (htonl attr) (name ++ memory) (htonl-lt attr h)

name_of :
    (attr n : ℕ) (name memory : List ℕ)
    → n ≡ length name
    → read_at (init_content attr name ++ memory) 4 n ≡ some name
unfolding store32 store16
name_of attr n name memory e =
    ap (λ t. read_at t 4 n) (append_assoc (store32 (htonl attr)) name memory)
    ∙ read_at-middle (store32 (htonl attr)) name memory 4 n refl e

-- The digest that is asked for: that of the whole file, where the top bit of the attributes is set
-- and there is a file.
abbrev pub asked_digest : Env → Option (List ℕ) → ℕ → List ℕ
asked_digest env none attr = []
asked_digest env (some bytes) attr = if ltb attr (2 ^ 31) then [] else env.md5 bytes

digest-asked_digest :
    (env : Env) (s : Server) (path : List ℕ) (attr : ℕ) (file : Option (List ℕ))
    → s.files path ≡ file
    → digest env s.files path attr ≡ asked_digest env file attr
unfolding digest mhash_with_size
digest-asked_digest env s path attr none e = elim (Bool-cases (ltb attr (2 ^ 31))) [
  | inl low ↦ rw (leb-ltb attr low) refl
  | inr high ↦ rw (leb-not_ltb attr high, mhash_with_size, e) refl
]
digest-asked_digest env s path attr (some bytes) e = elim (Bool-cases (ltb attr (2 ^ 31))) [
  | inl low ↦ rw (leb-ltb attr low, low) refl
  | inr high ↦
      rw
        (
          leb-not_ltb attr high,
          high,
          e,
          mhash_with_size,
          e,
          take_all (length bytes) bytes (omega arith),
        )
        refl
]

pub handler_init-opens :
    (env : Env) (junk : ℕ → ℕ) (self : ℕ) (h : Header) (attr : ℕ) (name memory dir path : List ℕ)
    (aggr : Option AggregateContext) (s : Server)
    → env.heap ≡ some junk
    → env.logdir ≡ some dir
    → attr < 2 ^ 32
    → h.content_length ≡ 4 + length name
    → c_str name ≡ name
    → pathcat dir ((s.conn).remote_addr ∷ some name ∷ []) ≡ some path
    → find_aggregate_context env env.contexts path ≡ some aggr
    → IsRegistry (s.conn).channel_list
    → NotAt self (s.conn).channel_list
    → top (s.conn).channel_list + 1 < 2 ^ 31
    → let id = top (s.conn).channel_list + 1 in
      (b : AzBuffer) × Holds b []
      × (handler_init env self h (init_content attr name ++ memory) s
          ≡ some (
              connection_send
                (record s {
                  conn = record (s.conn) {
                    channel_list = fresh_channel self id name path b aggr ∷ (s.conn).channel_list;
                  };
                })
                (reply scm_resp_ok (id % 2 ^ 16) (
                  store64 (bswap_64 (length (contents_of (s.files path))))
                  ++ digest env s.files path attr))))
      × IsRegistry (fresh_channel self id name path b aggr ∷ (s.conn).channel_list)
unfolding handler_init
handler_init-opens env junk self h attr name memory dir path aggr s mem root attr_in size whole
      joined found v fresh small =
    let li : List Channel = (s.conn).channel_list in
    let id : ℕ = top li + 1 in
    let made = new_lem junk 1024 (omega arith) in
    let channel : Channel = fresh_channel self 0 name path made.0 none in
    let registered = register_channel-IsRegistry s.conn channel v fresh small in
    (
      made.0,
      made.2,
      rw
          (
            long,
            attr_of attr name memory attr_in,
            name_of attr (h.content_length - 4) name memory (omega (arith, size)),
            whole,
            channel_new-made env self s.conn name dir path made.0 root joined
                (ap (λ m. AzBuffer.new true m 1024) mem ∙ made.1),
            registered.0,
            found,
            htonl-htonl attr attr_in,
            set_context-first (fresh_channel self id name path made.0 none) li aggr,
          )
          refl,
      record { ordered = registered.1.ordered; apart = registered.1.apart },
    )
  where
    long : leb 4 h.content_length ≡ true
    long = ground (arith, size)

-- `INIT`: a channel for the name in the message is made and registered, at the front, with an id
-- above all others, as long as that fits an `int`, an empty buffer, the path under the log directory
-- and the host, and the context that its path finds. The answer is OK with the id of the channel, how
-- long its file is, and the digest of the file where the top bit of the attributes asks for one and
-- the file is there.
pub handler_init_lem :
    (env : Env) (junk : ℕ → ℕ) (self : ℕ) (h : Header) (attr : ℕ) (name memory dir path : List ℕ)
    (aggr : Option AggregateContext) (s : Server)
    → env.heap ≡ some junk
    → env.logdir ≡ some dir
    → attr < 2 ^ 32
    → h.content_length ≡ 4 + length name
    → c_str name ≡ name
    → pathcat dir ((s.conn).remote_addr ∷ some name ∷ []) ≡ some path
    → find_aggregate_context env env.contexts path ≡ some aggr
    → IsRegistry (s.conn).channel_list
    → NotAt self (s.conn).channel_list
    → top (s.conn).channel_list + 1 < 2 ^ 31
    → let id = top (s.conn).channel_list + 1 in
      (b : AzBuffer) × Holds b []
      × (handler_init env self h (init_content attr name ++ memory) s
          ≡ some (
              connection_send
                (record s {
                  conn = record (s.conn) {
                    channel_list = fresh_channel self id name path b aggr ∷ (s.conn).channel_list;
                  };
                })
                (reply scm_resp_ok (id % 2 ^ 16) (
                  store64 (bswap_64 (length (contents_of (s.files path))))
                  ++ asked_digest env (s.files path) attr))))
      × IsRegistry (fresh_channel self id name path b aggr ∷ (s.conn).channel_list)
handler_init_lem env junk self h attr name memory dir path aggr s mem root attr_in size whole joined
      found v fresh small =
    let opens =
      handler_init-opens env junk self h attr name memory dir path aggr s mem root attr_in size
        whole joined found v fresh small in
    let id : ℕ = top (s.conn).channel_list + 1 in
    (
      opens.0,
      opens.1,
      opens.2
          ∙ ap
              (λ md. some (
                connection_send
                  (record s {
                    conn = record (s.conn) {
                      channel_list =
                          fresh_channel self id name path opens.0 aggr ∷ (s.conn).channel_list;
                    };
                  })
                  (reply scm_resp_ok (id % 2 ^ 16)
                    (store64 (bswap_64 (length (contents_of (s.files path)))) ++ md))))
              (digest-asked_digest env s path attr (s.files path) refl),
      opens.3,
    )
