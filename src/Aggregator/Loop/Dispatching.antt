-- ===== src/Aggregator/Loop/Dispatching.antt =====
-- Whatever a message is, the handlers of aggregator/main.c leave the channels of the connection in
-- order.
use compostela.Prelude.{
  ℕ, ◌+◌, ◌^◌, ◌≤◌, ◌<◌, ◌≡◌, ap, ◌∙◌, subst, List, Option, some, arith, length, Bool-cases, inl,
  inr, ◌==◌, >>=-eq-some, drop,
}
use compostela.Prelude.Words.{sub64}
use compostela.Prelude.Memory.{read_at, read_at-within}
use compostela.AzList
use compostela.Message.{
  Header, load32, load64, htonl, bswap_64, scm_msg_init, scm_msg_seek, scm_msg_data, scm_msg_rele,
}
use compostela.Aggregator.Channels.{Channel, delete_channel, same_channel, connection_channel}
use compostela.Aggregator.Channels.Registry.{NotAt}
use compostela.Aggregator.Files.{Env}
use compostela.Aggregator.Handlers.{
  Server, handler_dummy, handler_data, handler_rele, handler_seek, connection_send, take_line,
}
use compostela.Aggregator.Channels.{set_buffer}
use compostela.Aggregator.Receive.{dispatch, for_channel, bufsize}
use compostela.Aggregator.Loop.Served.{
  IsServed, IsSound, IsServed-mono, set_buffer-IsServed, delete-IsServed, connection_channel-Holds,
}
use compostela.Aggregator.Loop.Opening.{channels_of, handler_init-IsServed}
use compostela.Aggregator.Loop.Handling.{take_line-Holds}

handler_data-IsServed :
    (env : Env) (junk : ℕ → ℕ) (h : Header) (content : List ℕ) (channel : Channel) (s : Server)
    {s' : Server} (size : ℕ)
    → env.heap ≡ some junk
    → length content ≤ bufsize
    → size + bufsize < 2 ^ 44
    → IsSound size channel
    → IsServed size (s.conn).channel_list
    → handler_data env h content channel s ≡ some s'
    → IsServed (size + bufsize) (s'.conn).channel_list
unfolding handler_data connection_send
handler_data-IsServed env junk h content channel s {s'} size mem short small sound v e =
    let attr = >>=-eq-some (load32 content) _ e in
    let time = >>=-eq-some (load64 (drop 4 content)) _ attr.2 in
    let text = >>=-eq-some (read_at content 12 (sub64 h.content_length 12)) _ time.2 in
    let line =
      >>=-eq-some (take_line env s.conn channel (htonl attr.0) (bswap_64 time.0) text.0 s.files) _
        text.2 in
    let fits : length text.0 ≤ bufsize =
      omega (arith, read_at-within content 12 (sub64 h.content_length 12) text.1, short) in
    let kept =
      take_line-Holds env junk s.conn channel (htonl attr.0) (bswap_64 time.0) text.0 s.files
        (sound.0).0 mem (sound.0).1 (omega (arith, fits, sound.1, small)) line.1 in
    let lists : set_buffer (s.conn).channel_list channel.self (line.0).1 ≡ (s'.conn).channel_list =
      ap channels_of line.2 in
    subst (IsServed (size + bufsize)) lists (
      set_buffer-IsServed (s.conn).channel_list channel.self (line.0).1 (kept.0).1
        (omega (arith, kept.1, fits, sound.1))
        (IsServed-mono (s.conn).channel_list (omega arith) v))

handler_rele-IsServed :
    (h : Header) (channel : Channel) (s : Server) {s' : Server} (size : ℕ)
    → IsServed size (s.conn).channel_list
    → handler_rele h channel s ≡ some s'
    → IsServed size (s'.conn).channel_list
unfolding handler_rele connection_send delete_channel
handler_rele-IsServed h channel s {s'} size v e =
    let conn = >>=-eq-some (delete_channel s.conn channel.self) _ e in
    let left =
      >>=-eq-some (AzList.delete (same_channel channel.self) (s.conn).channel_list) _ conn.1 in
    let here : left.0 ≡ (conn.0).channel_list = ground (arith, left.2) in
    let lists : (conn.0).channel_list ≡ (s'.conn).channel_list = ap channels_of conn.2 in
    subst (IsServed size) (here ∙ lists)
      (delete-IsServed (s.conn).channel_list channel.self left.1 v)

handler_seek-IsServed :
    (h : Header) (content : List ℕ) (channel : Channel) (s : Server) {s' : Server} (size : ℕ)
    → IsServed size (s.conn).channel_list
    → handler_seek h content channel s ≡ some s'
    → IsServed size (s'.conn).channel_list
unfolding handler_seek
handler_seek-IsServed h content channel s size v e =
    let offset = >>=-eq-some (load64 content) _ e in
    subst (IsServed size) (ap channels_of offset.2) v

-- The surroundings that a turn needs: memory, the block of the message, a fresh address for a new
-- channel, and room for the buffers to grow.
pub record CanServe (env : Env) (self : ℕ) (content : List ℕ) (s : Server) (size : ℕ) : Type 0 where
  pub junk : ℕ → ℕ
  pub memory : env.heap ≡ some junk
  pub fresh : NotAt self (s.conn).channel_list
  pub short : length content ≤ bufsize
  pub least : 1024 ≤ size
  pub room : size + bufsize < 2 ^ 44

-- The switch with a channel, or with none.
for_channel-IsServed :
    (env : Env) (self : ℕ) (h : Header) (content : List ℕ) (channel : Option Channel) (s : Server)
    {s' : Server} (size : ℕ)
    → CanServe env self content s size
    → ((c : Channel) → channel ≡ some c → IsSound size c)
    → IsServed size (s.conn).channel_list
    → for_channel env self h content channel s ≡ some s'
    → IsServed (size + bufsize) (s'.conn).channel_list
unfolding for_channel
for_channel-IsServed env self h content channel s {s'} size can sound v e =
    elim (Bool-cases (h.code == scm_msg_init)) [
      | inl init ↦
          handler_init-IsServed env can.junk self h content s size can.memory can.fresh can.least
            can.room v (rw init at e)
      | inr a ↦ elim (Bool-cases (h.code == scm_msg_seek)) [
        | inl seek ↦
            let c = >>=-eq-some channel _ (rw seek at (rw a at e)) in
            wider (s'.conn).channel_list (handler_seek-IsServed h content c.0 s size v c.2)
        | inr b ↦ elim (Bool-cases (h.code == scm_msg_data)) [
          | inl part ↦
              let c = >>=-eq-some channel _ (rw part at (rw b at (rw a at e))) in
              handler_data-IsServed env can.junk h content c.0 s size can.memory can.short can.room
                (sound c.0 c.1) v c.2
          | inr d ↦ elim (Bool-cases (h.code == scm_msg_rele)) [
            | inl rele ↦
                let c = >>=-eq-some channel _ (rw rele at (rw d at (rw b at (rw a at e)))) in
                wider (s'.conn).channel_list (handler_rele-IsServed h c.0 s size v c.2)
            | inr f ↦
                wider (s'.conn).channel_list (
                  subst (IsServed size) (ap channels_of (rw f at (rw d at (rw b at (rw a at e)))))
                    v)
          ]
        ]
      ]
    ]
  where
    wider : (li : List Channel) → IsServed size li → IsServed (size + bufsize) li
    wider li w = IsServed-mono li (omega arith) w

-- Every message, on every code and channel, that is handled at all.
pub dispatch-IsServed :
    (env : Env) (self : ℕ) (h : Header) (content : List ℕ) (s : Server) {s' : Server} (size : ℕ)
    → CanServe env self content s size
    → IsServed size (s.conn).channel_list
    → dispatch env self h content s ≡ some s'
    → IsServed (size + bufsize) (s'.conn).channel_list
unfolding dispatch handler_dummy connection_send
dispatch-IsServed env self h content s {s'} size can v e = elim (Bool-cases (h.channel == 0)) [
  | inr numbered ↦
      for_channel-IsServed env self h content (connection_channel s.conn h.channel) s size can
        (λ c found. connection_channel-Holds s.conn h.channel v found) v (rw numbered at e)
  | inl first ↦ elim (Bool-cases (h.code == scm_msg_init)) [
    | inl init ↦
        handler_init-IsServed env can.junk self h content s size can.memory can.fresh can.least
          can.room v (rw init at (rw first at e))
    | inr other ↦
        IsServed-mono (s'.conn).channel_list (omega arith)
          (subst (IsServed size) (ap channels_of (rw other at (rw first at e))) v)
  ]
]
