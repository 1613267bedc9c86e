-- ===== src/Aggregator/Receive/Line.antt =====
-- A `DATA` message on its way from the stream through `do_receive` of aggregator/main.c.
use compostela.Prelude.{
  ap, ℕ, ◌+◌, ◌^◌, ◌≤◌, ◌<◌, ◌≡◌, refl, List, ◌∷◌, ◌++◌, some, arith, length, take, drop, false,
  take_all, ◌==◌,
}
use compostela.AzBuffer.{AzBuffer}
use compostela.Supports.{Files}
use compostela.Transport.{Event}
use compostela.Transport.Receive.{stream}
use compostela.Message.{
  Message, Header, scm_msg_data, scm_msg_init, scm_msg_seek, store32, store64, store16,
}
use compostela.Message.Bytes.{IsValid, header_of}
use compostela.Follower.Connection.Framing.{frame}
use compostela.Aggregator.Channels.{Channel, connection_channel}
use compostela.Aggregator.Channels.Registry.{IsRegistry, connection_channel-found}
use compostela.Aggregator.Files.{Env}
use compostela.Aggregator.Handlers.{Server, handler_data, take_line}
use compostela.Aggregator.Handlers.Replies.{data_content, answered, handler_data_lem}
use compostela.Aggregator.Receive.{served, dispatch, for_channel, bufsize, do_receive}
use compostela.Aggregator.Receive.Dispatch.{received, do_receive-frame}

-- The message that carries a line, or a part of one.
abbrev pub line_message : ℕ → ℕ → ℕ → List ℕ → Message
line_message id attr ts text = record {
  code = scm_msg_data;
  channel = id;
  content_length = 12 + length text;
  content = data_content attr ts text;
}

length-data_content :
    (attr ts : ℕ) (text : List ℕ) → length (data_content attr ts text) ≡ 12 + length text
unfolding store32 store64 store16
length-data_content attr ts text = omega arith

dispatch-data :
    (env : Env) (self : ℕ) (h : Header) (content : List ℕ) (channel : Channel) (s s' : Server)
    → h.code ≡ scm_msg_data
    → 0 < h.channel
    → connection_channel s.conn h.channel ≡ some channel
    → handler_data env h content channel s ≡ some s'
    → dispatch env self h content s ≡ some s'
unfolding dispatch for_channel
dispatch-data env self h content channel s s' code numbered found done =
    rw
      (
        nonzero,
        ap (λ n. n == scm_msg_init) code,
        ap (λ n. n == scm_msg_seek) code,
        ap (λ n. n == scm_msg_data) code,
        found,
      )
      done
  where
    nonzero : (h.channel == 0) ≡ false
    nonzero = ground (arith, numbered)

-- A line, or a part of one, that a peer frames for a registered channel reaches that channel,
-- however the network cuts it: the files and the buffer of the channel become what the line makes
-- of them, and the channel's peer is answered OK.
pub do_receive-line :
    (env : Env) (self : ℕ) (stack memory : List ℕ) (s : Server) (before : List Channel)
    (channel : Channel) (after : List Channel) (attr ts : ℕ) (text rest : List ℕ)
    (events : List Event) {files : Files} {buffer : AzBuffer}
    → (s.conn).channel_list ≡ before ++ (channel ∷ after)
    → IsRegistry (before ++ (channel ∷ after))
    → 0 < channel.id
    → channel.id < 2 ^ 15
    → attr < 2 ^ 32
    → ts < 2 ^ 64
    → 12 + length text ≤ bufsize
    → stream events ≡ frame (line_message channel.id attr ts text) ++ rest
    → take_line env s.conn channel attr ts text s.files ≡ some (files, buffer)
    → (more : List Event) × (do_receive env self stack memory s events
        ≡ some (
            some (
              served
                (answered (header_of (line_message channel.id attr ts text)) channel s files buffer)
                more)))
      × (stream more ≡ rest)
do_receive-line env self stack memory s before channel after attr ts text rest events {files}
      {buffer} here v numbered small attr_in ts_in fits e line =
    do_receive-frame env self stack memory s (answered (header_of m) channel s files buffer) m rest
      events valid (omega arith) fits e
      (dispatch-data env self (header_of m) (received m memory) channel s
        (answered (header_of m) channel s files buffer) refl numbered
        (connection_channel-found s.conn before channel after here v small) handled)
  where
    m : Message
    m = line_message channel.id attr ts text

    whole : take m.content_length m.content ≡ m.content
    whole = take_all (12 + length text) m.content (omega (arith, length-data_content attr ts text))

    valid : IsValid m
    valid = record {
      code_in = omega arith;
      channel_in = omega (arith, small);
      length_in = omega (arith, fits);
      room = omega (arith, length-data_content attr ts text);
    }

    handled :
        handler_data env (header_of m) (received m memory) channel s
        ≡ some (answered (header_of m) channel s files buffer)
    handled = rw whole (
        handler_data_lem env (header_of m) attr ts text (drop (12 + length text) memory) channel s
          attr_in ts_in (omega (arith, fits)) refl line)
