-- ===== src/Aggregator/Loop/Opening.antt =====
-- The channel that `handler_init` of aggregator/main.c makes.
use compostela.Prelude.{
  ℕ, ◌+◌, ◌-◌, ◌*◌, ◌≤◌, ◌<◌, ◌^◌, ◌≡◌, sym, ap, ◌∙◌, subst, List, [], ◌∷◌, Option, none, some,
  arith, true, >>=-eq-some, leb, guard,
}
use compostela.Prelude.Words.{ℤ}
use compostela.Prelude.Memory.{read_at}
use compostela.Prelude.Text.{c_str}
use compostela.AzBuffer.{AzBuffer, Heap}
use compostela.AzBuffer
use compostela.AzBuffer.Holds.{Holds, new_lem}
use compostela.Message.{Header, load32}
use compostela.Supports.{pathcat}
use compostela.Aggregator.Config.{AggregateContext}
use compostela.Aggregator.Channels.{Channel, Connection, channel_new, register_channel, set_context}
use compostela.Aggregator.Channels.Registry.{NotAt, register_channel-IsRegistry, top}
use compostela.Aggregator.Files.{Env, find_aggregate_context}
use compostela.Aggregator.Handlers.{Server, handler_init, connection_send}
use compostela.Aggregator.Loop.Served.{IsServed, AllHold, AllHold-mono}

new-size : (heap : Heap) (n : ℕ) {b : AzBuffer} → AzBuffer.new true heap n ≡ some b → b.size ≡ n
unfolding AzBuffer.new
new-size heap n e = ground (arith, e)

-- A new channel has an empty buffer of 1024 bytes.
channel_new-Sound :
    (heap : Heap) (junk : ℕ → ℕ) (self : ℕ) (logdir : Option (List ℕ)) (conn : Connection)
    (name : List ℕ) {c : Channel}
    → heap ≡ some junk
    → channel_new heap self logdir conn name ≡ some c
    → (c.self ≡ self) × Holds c.buffer [] × (c.buffer.size ≡ 1024)
unfolding channel_new
channel_new-Sound heap junk self logdir conn name {c} mem e =
    let dir = >>=-eq-some logdir _ e in
    let path = >>=-eq-some (pathcat dir.0 (conn.remote_addr ∷ some name ∷ [])) _ dir.2 in
    let buffer = >>=-eq-some (AzBuffer.new true heap 1024) _ path.2 in
    let made = new_lem junk 1024 (omega arith) in
    let found : AzBuffer.new true (some junk) 1024 ≡ some buffer.0 =
      subst (λ m. AzBuffer.new true m 1024 ≡ some buffer.0) mem buffer.1 in
    let same : made.0 ≡ buffer.0 = ground (arith, made.1, found) in
    let stored : buffer.0 ≡ c.buffer = ground (arith, buffer.2) in
    (
      ground (arith, buffer.2),
      subst (λ b. Holds b []) (same ∙ stored) made.2,
      sym (ap (λ (b : AzBuffer). b.size) stored) ∙ new-size heap 1024 buffer.1,
    )

set_context-front :
    (c : Channel) (li : List Channel) (self : ℕ) (aggr : Option AggregateContext)
    → c.self ≡ self
    → set_context (c ∷ li) self aggr ≡ record c { aggregate_context = aggr } ∷ li
unfolding set_context
set_context-front c li self aggr e = ground (arith, e)

-- Each id has had its room.
top-AllHold : (size : ℕ) (li : List Channel) → AllHold size li → top li * 8192 ≤ size
top-AllHold size [] h = omega arith
top-AllHold size (c ∷ li) h = h.0.2

-- The channels of what a handler returns.
abbrev pub channels_of : Option Server → List Channel
channels_of none = []
channels_of (some s) = (s.conn).channel_list

pub handler_init-IsServed :
    (env : Env) (junk : ℕ → ℕ) (self : ℕ) (h : Header) (content : List ℕ) (s : Server) {s' : Server}
    (size : ℕ)
    → env.heap ≡ some junk
    → NotAt self (s.conn).channel_list
    → 1024 ≤ size
    → size + 8192 < 2 ^ 44
    → IsServed size (s.conn).channel_list
    → handler_init env self h content s ≡ some s'
    → IsServed (size + 8192) (s'.conn).channel_list
unfolding handler_init connection_send
handler_init-IsServed env junk self h content s {s'} size mem fresh room few v e =
    let checked = >>=-eq-some (guard (leb 4 h.content_length)) _ e in
    let attr = >>=-eq-some (load32 content) _ checked.2 in
    let name = >>=-eq-some (read_at content 4 (h.content_length - 4)) _ attr.2 in
    let made = >>=-eq-some (channel_new env.heap self env.logdir s.conn (c_str name.0)) _ name.2 in
    let c : Channel = made.0 in
    let sound = channel_new-Sound env.heap junk self env.logdir s.conn (c_str name.0) mem made.1 in
    let ids : top (s.conn).channel_list * 8192 ≤ size =
      top-AllHold size (s.conn).channel_list v.buffers in
    let registered =
      register_channel-IsRegistry s.conn c v.registry
        (subst (λ a. NotAt a (s.conn).channel_list) (sym sound.0) fresh)
        (omega (arith, ids, few)) in
    let aggr =
      >>=-eq-some
        (find_aggregate_context env env.contexts (register_channel s.conn c).2.filename_fullpath) _
        made.2 in
    let lists : set_context (register_channel s.conn c).1.channel_list self aggr.0
        ≡ (s'.conn).channel_list =
      ap channels_of aggr.2 in
    let front : set_context (register_channel s.conn c).1.channel_list self aggr.0
        ≡ record c { id = top (s.conn).channel_list + 1; aggregate_context = aggr.0 }
          ∷ (s.conn).channel_list =
      ap (λ (r : ℤ × Connection × Channel). set_context r.1.channel_list self aggr.0) registered.0
      ∙ set_context-front (record c { id = top (s.conn).channel_list + 1 }) (s.conn).channel_list
          self aggr.0 sound.0 in
    subst (IsServed (size + 8192)) (sym front ∙ lists) (record {
      registry = record { ordered = registered.1.ordered; apart = registered.1.apart };
      buffers = (
        (([], sound.1), omega (arith, sound.2, room), omega (arith, ids)),
        AllHold-mono (s.conn).channel_list (omega arith) v.buffers,
      );
    })
