-- ===== src/EndToEnd.antt =====
-- The two daemons together: a line in the buffer of a follower (follower/main.c) on its way to the
-- file that the aggregator (aggregator/main.c) keeps for the channel.
pub mod Handshake
pub mod Streams
mod Samples
mod Tests
use compostela.Prelude.{
  ℕ, ◌+◌, ◌^◌, ◌≤◌, ◌<◌, ◌≡◌, refl, sym, ap, ◌∙◌, List, [], ◌∷◌, ◌++◌, some, length, arith, true,
  false, Bool, append_assoc, length-append, take_all, if◌then◌else◌,
}
use compostela.Prelude.Words.{pos}
use compostela.AzBuffer.{AzBuffer}
use compostela.AzBuffer.Holds.{Holds}
use compostela.AzBuffer.ReadLine.{Lacks}
use compostela.Supports.{Files, append_to}
use compostela.Transport.{Event}
use compostela.Transport.Receive.{stream}
use compostela.Message.{Message, htonl, bswap_64, store32, store64, scm_resp_ok}
use compostela.Message.Bytes.{IsValid, header_of}
use compostela.Follower.Connection.{is_live}
use compostela.Follower.Connection.Framing.{frame}
use compostela.Follower.Context
use compostela.Follower.Context.{FollowContext, Net}
use compostela.Follower.Run.{Ran, data_head, run_follow_context}
use compostela.Follower.Run.Exchange.{Carries}
use compostela.Follower.Run.Delivery.{carrier}
use compostela.Follower.Run.Line.{IsReady, Delivers, run_follow_context_complete}
use compostela.Aggregator.Channels.{Channel, Connection}
use compostela.Aggregator.Channels.Registry.{IsRegistry}
use compostela.Aggregator.Files.{Env}
use compostela.Aggregator.Handlers.{Server, wants_merge, wants_separate, top_bit}
use compostela.Aggregator.Handlers.Data.{take_line-separate}
use compostela.Aggregator.Handlers.Replies.{answered, data_content}
use compostela.Aggregator.Receive.{Turn, served, do_receive}
use compostela.Aggregator.Receive.Line.{line_message, do_receive-line}

-- The message that the follower sends is the one that the aggregator takes for the end of a line.
pub carrier-line_message :
    (channel time : ℕ) (text : List ℕ)
    → carrier true channel time text ≡ line_message channel (2 ^ 31) time text
carrier-line_message channel time text =
    ap
      (λ c. record {
        code = 103;
        channel = channel;
        content_length = 12 + length text;
        content = c;
      })
      (append_assoc (store32 (htonl (2 ^ 31))) (store64 (bswap_64 time)) text)

marked : top_bit (2 ^ 31) ≡ true
marked = refl

-- The whole way of a line. A follower has the line in its buffer and runs; the network takes its
-- message and an OK comes back. However the network cuts the message on its way to an aggregator
-- that has the channel registered and keeps it apart, one turn of the aggregator appends the parts
-- of the line that it had, and then the line with its newline, to the file of the channel. The
-- follower has what follows the line left to read, and the aggregator has no part of a line left.
pub line_delivered :
    (follower : Context.Env) (junk : ℕ → ℕ) (cxt : FollowContext) (net : Net) (text left : List ℕ)
    (reply : Message) (rest : List ℕ) (env : Env) (self : ℕ) (stack memory : List ℕ) (s : Server)
    (before : List Channel) (channel : Channel) (after : List Channel) (q more : List ℕ)
    (events : List Event)
    → follower.heap ≡ some junk
    → is_live net.conn.socket ≡ true
    → IsReady cxt
    → Holds cxt.buffer (text ++ (b'\n' ∷ left))
    → Lacks b'\n' text
    → length text < 8180
    → follower.time < 2 ^ 64
    → Carries net (12 + (length text + 1)) reply rest
    → reply.code ≡ scm_resp_ok
    → (s.conn).channel_list ≡ before ++ (channel ∷ after)
    → IsRegistry (before ++ (channel ∷ after))
    → channel.id ≡ cxt.channel
    → channel.id < 2 ^ 15
    → wants_merge channel.aggregate_context ≡ false
    → wants_separate channel.aggregate_context ≡ true
    → env.creatable channel.filename_fullpath ≡ true
    → Holds channel.buffer q
    → stream events ≡ frame (carrier true cxt.channel follower.time (text ++ (b'\n' ∷ []))) ++ more
    → (r : Ran) × (run_follow_context follower cxt net ≡ some r)
      × (r.net.wire
          ≡ net.wire ++ frame (carrier true cxt.channel follower.time (text ++ (b'\n' ∷ []))))
      × Holds r.cxt.buffer left
      × ((buffer : AzBuffer) × (events' : List Event) × (do_receive env self stack memory s events
            ≡ some (
                some (
                  served
                    (answered
                      (header_of
                        (line_message channel.id (2 ^ 31) follower.time (text ++ (b'\n' ∷ []))))
                      channel
                      s
                      (append_to s.files channel.filename_fullpath (q ++ (text ++ (b'\n' ∷ []))))
                      buffer)
                    events')))
          × Holds buffer []
          × (stream events' ≡ more))
line_delivered follower junk cxt net text left reply rest env self stack memory s before channel
      after q more events mem live ready h lacks fits timed carries ok here v same small apart
      separate opens holds arrives =
    let line : List ℕ = text ++ (b'\n' ∷ []) in
    let size : length line ≡ length text + 1 = length-append text (b'\n' ∷ []) in
    let sent =
      run_follow_context_complete follower junk cxt net text left reply rest mem live ready h lacks
        fits carries ok in
    let wrote =
      take_line-separate env s.conn channel (2 ^ 31) follower.time line s.files q marked apart
        separate opens holds in
    let turn =
      do_receive-line env self stack memory s before channel after (2 ^ 31) follower.time line more
        events here v (omega (arith, same, ready.numbered)) small (omega arith) timed
        (omega (arith, size, fits))
        (arrives
          ∙ ap (λ m. frame m ++ more) (carrier-line_message cxt.channel follower.time line)
          ∙ ap (λ c. frame (line_message c (2 ^ 31) follower.time line) ++ more) (sym same))
        wrote.1 in
    (sent.0, sent.1, sent.2.wire, sent.2.holds, (wrote.0, turn.0, turn.1, wrote.2, turn.2))
