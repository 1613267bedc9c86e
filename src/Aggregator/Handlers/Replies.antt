-- ===== src/Aggregator/Handlers/Replies.antt =====
-- `handler_data` of aggregator/main.c as a whole: what it reads from a message and what it answers.
use compostela.Prelude.{
  ℕ, ◌+◌, ◌^◌, ◌<◌, ◌≡◌, refl, ap, ◌∙◌, List, ◌++◌, some, arith, length, drop, append_assoc,
}
use compostela.Prelude.Words.{sub64}
use compostela.Prelude.Memory.{read_at, read_at-middle}
use compostela.AzBuffer.{AzBuffer}
use compostela.Supports.{Files}
use compostela.Message.{
  Header, htonl, bswap_64, store32, store64, load32, load64, scm_resp_ok, store16,
}
use compostela.Message.Content.{
  load32-store32, load64-store64, bswap_64-bswap_64, bswap_64-lt, htonl-lt,
}
use compostela.Message.Bytes.{htonl-htonl}
use compostela.Aggregator.Channels.{Channel, set_buffer}
use compostela.Aggregator.Files.{Env}
use compostela.Aggregator.Handlers.{Server, handler_data, take_line, connection_send, reply, zeros}

-- The content of a `DATA` message: attributes, time and text, numbers in network order.
abbrev pub data_content : ℕ → ℕ → List ℕ → List ℕ
data_content attr ts text = store32 (htonl attr) ++ (store64 (bswap_64 ts) ++ text)

-- The server after a line, with its answer.
abbrev pub answered : Header → Channel → Server → Files → AzBuffer → Server
answered h channel s files buffer =
    connection_send
      (record s {
        files = files;
        conn = record (s.conn) {
          channel_list = set_buffer (s.conn).channel_list channel.self buffer;
        };
      })
      (reply scm_resp_ok h.channel zeros)

attr_of :
    (attr ts : ℕ) (text memory : List ℕ)
    → attr < 2 ^ 32
    → load32 (data_content attr ts text ++ memory) ≡ some (htonl attr)
attr_of attr ts text memory h =
    ap load32 (append_assoc (store32 (htonl attr)) (store64 (bswap_64 ts) ++ text) memory)
    ∙ load32-store32 (htonl attr) ((store64 (bswap_64 ts) ++ text) ++ memory) (htonl-lt attr h)

drop-store32 : (w : ℕ) (rest : List ℕ) → drop 4 (store32 w ++ rest) ≡ rest
unfolding store32 store16
drop-store32 w rest = refl

time_of :
    (attr ts : ℕ) (text memory : List ℕ)
    → ts < 2 ^ 64
    → load64 (drop 4 (data_content attr ts text ++ memory)) ≡ some (bswap_64 ts)
time_of attr ts text memory h =
    ap (λ t. load64 (drop 4 t))
      (append_assoc (store32 (htonl attr)) (store64 (bswap_64 ts) ++ text) memory)
    ∙ ap load64 (
        drop-store32 (htonl attr) ((store64 (bswap_64 ts) ++ text) ++ memory)
        ∙ append_assoc (store64 (bswap_64 ts)) text memory)
    ∙ load64-store64 (bswap_64 ts) (text ++ memory) (bswap_64-lt ts h)

text_of :
    (attr ts n : ℕ) (text memory : List ℕ)
    → n ≡ length text
    → read_at (data_content attr ts text ++ memory) 12 n ≡ some text
unfolding store32 store64
text_of attr ts n text memory e =
    ap (λ t. read_at t 12 n) (append_assoc head text memory)
    ∙ read_at-middle head text memory 12 n refl e
  where
    head : List ℕ
    head = store32 (htonl attr) ++ store64 (bswap_64 ts)

-- `DATA`: what the handler hands to the channel is the attributes, the time and the text that the
-- sender put into the message, whatever lies behind them; the buffer and the files are what the
-- line makes of them, and the answer is an OK on the channel.
pub handler_data_lem :
    (env : Env) (h : Header) (attr ts : ℕ) (text memory : List ℕ) (channel : Channel) (s : Server)
    {files : Files} {buffer : AzBuffer}
    → attr < 2 ^ 32
    → ts < 2 ^ 64
    → length text < 2 ^ 31
    → h.content_length ≡ 12 + length text
    → take_line env s.conn channel attr ts text s.files ≡ some (files, buffer)
    → handler_data env h (data_content attr ts text ++ memory) channel s
      ≡ some (answered h channel s files buffer)
unfolding handler_data
handler_data_lem env h attr ts text memory channel s {files} {buffer} attr_in ts_in text_in size
      line =
    rw
      (
        attr_of attr ts text memory attr_in,
        time_of attr ts text memory ts_in,
        text_read,
        htonl-htonl attr attr_in,
        bswap_64-bswap_64 ts ts_in,
        line,
      )
      refl
  where
    text_read :
        read_at (data_content attr ts text ++ memory) 12 (sub64 h.content_length 12) ≡ some text
    text_read = text_of attr ts (sub64 h.content_length 12) text memory (omega (arith, size))
