-- ===== src/Aggregator/Receive.antt =====
-- `do_receive` of aggregator/main.c: one message is received and handed to its handler.
pub mod Dispatch
pub mod Line
pub mod Stream
use compostela.Prelude.{
  ℕ, ◌+◌, ◌^◌, List, [], ◌∷◌, ◌++◌, Option, none, some, ◌>>=◌, ◌>>◌, guard, Bool, true, false, ◌&&◌,
  ◌==◌, leb, ltb, if◌then◌else◌, drop, length,
}
use compostela.Prelude.Words.{ℤ, is_pos}
use compostela.Transport.{Event, Receiving, recvall}
use compostela.Message.{
  Header, header_size, scm_msg_init, scm_msg_seek, scm_msg_data, scm_msg_rele, load_header,
}
use compostela.Aggregator.Channels.{Channel, connection_channel}
use compostela.Aggregator.Files.{Env}
use compostela.Aggregator.Handlers.{
  Server, handler_dummy, handler_init, handler_data, handler_rele, handler_seek,
}

-- The switch on the code, for a message with a channel. A handler reads through the channel, which
-- is null where the connection has none.
unfoldable pub for_channel : Env → ℕ → Header → List ℕ → Option Channel → Server → Option Server
for_channel env self h content channel s =
    if h.code == scm_msg_init
    then handler_init env self h content s
    else if h.code == scm_msg_seek
    then (channel >>= λ c. handler_seek h content c s)
    else if h.code == scm_msg_data
    then (channel >>= λ c. handler_data env h content c s)
    else if h.code == scm_msg_rele
    then (channel >>= λ c. handler_rele h c s)
    else some s

-- What `do_receive` does with a message: its header in host order, and the `BUFSIZE` bytes of the
-- block behind it.
unfoldable pub dispatch : Env → ℕ → Header → List ℕ → Server → Option Server
unfolding for_channel
dispatch env self h content s =
    if h.channel == 0
    then (if h.code == scm_msg_init
        then handler_init env self h content s
        else some (handler_dummy s))
    else for_channel env self h content (connection_channel s.conn h.channel) s

abbrev pub bufsize : ℕ
bufsize = 8192

-- How a turn of `do_receive` ends: the connection goes on, or was closed and destroyed.
pub data Turn : Type 0 where
  served : Server → List Event → Turn
  dropped : List Event → Turn

-- The content, received over the block of `bufsize` bytes: more bytes than that run over its end.
-- The result of the receive is not looked at.
unfoldable pub with_content : Env → ℕ → List ℕ → Server → Header → List Event → Option (Option Turn)
with_content env self memory s h events =
    if ltb 0 h.content_length && ltb h.content_length (2 ^ 31)
    then elim (recvall events h.content_length) [
      | none ↦ some none
      | some r ↦ do
        guard (leb (length r.got) bufsize)
        s' ← dispatch env self h (r.got ++ drop (length r.got) memory) s
        some (some (served s' r.events))
    ]
    else (dispatch env self h memory s >>= λ s'. some (some (served s' events)))

unfoldable pub with_header : Env → ℕ → List ℕ → List ℕ → Server → Receiving → Option (Option Turn)
with_header env self stack memory s r =
    if is_pos r.ret
    then (load_header (r.got ++ drop (length r.got) stack) >>= λ h.
        with_content env self memory s h r.events)
    else some (some (dropped r.events))

-- One turn of `do_receive`. `stack` and `memory` are what the block of the message held before: its
-- header and its content. The outer `none` is a fault, the inner one a receive that still waits.
unfoldable pub do_receive : Env → ℕ → List ℕ → List ℕ → Server → List Event → Option (Option Turn)
unfolding with_header with_content
do_receive env self stack memory s events = elim (recvall events header_size) [
  | none ↦ some none
  | some r ↦ with_header env self stack memory s r
]
