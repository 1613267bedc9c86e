-- ===== src/Aggregator/Receive/Dispatch.antt =====
-- What `do_receive` of aggregator/main.c does with a message that a peer has framed.
use compostela.Prelude.{
  ℕ, ◌^◌, ◌≤◌, ◌<◌, ◌≡◌, sym, ap, ◌∙◌, List, ◌++◌, Option, some, arith, length, take, drop, true,
  ltb, leb, ◌&&◌, length-append, take-append, drop-append, append_assoc, length-take,
}
use compostela.Prelude.Words.{is_pos}
use compostela.Transport.{Event, recvall, Receiving}
use compostela.Transport.Receive.{stream, recvall_lem}
use compostela.Message.{Message, Header, header_bytes, swap_header, load_header, header_size}
use compostela.Message.Bytes.{
  IsValid, header_of, load_header-header_bytes, length-header_bytes, header_bytes-be,
}
use compostela.Follower.Connection.Framing.{frame}
use compostela.Aggregator.Files.{Env}
use compostela.Aggregator.Handlers.{Server}
use compostela.Aggregator.Receive.{
  Turn, served, dispatch, bufsize, with_content, with_header, do_receive,
}

-- The block of the content once a content has been received over it.
abbrev pub received : Message → List ℕ → List ℕ
received m memory = take m.content_length m.content ++ drop m.content_length memory

with_content-runs :
    (env : Env) (self : ℕ) (memory : List ℕ) (s s' : Server) (h : Header) (events : List Event)
    {r : Receiving}
    → (ltb 0 h.content_length && ltb h.content_length (2 ^ 31)) ≡ true
    → recvall events h.content_length ≡ some r
    → leb (length r.got) bufsize ≡ true
    → dispatch env self h (r.got ++ drop (length r.got) memory) s ≡ some s'
    → with_content env self memory s h events ≡ some (some (served s' r.events))
unfolding with_content
with_content-runs env self memory s s' h events wanted runs room done =
    rw (wanted, runs, room, done)

with_content-frame :
    (env : Env) (self : ℕ) (memory : List ℕ) (s s' : Server) (m : Message) (rest : List ℕ)
    (events : List Event)
    → IsValid m
    → 0 < m.content_length
    → m.content_length ≤ bufsize
    → stream events ≡ take m.content_length m.content ++ rest
    → dispatch env self (header_of m) (received m memory) s ≡ some s'
    → (more : List Event) × (with_content env self memory s (header_of m) events
        ≡ some (some (served s' more)))
      × (stream more ≡ rest)
with_content-frame env self memory s s' m rest events v some_bytes fits e done =
    let text : List ℕ = take m.content_length m.content in
    let text_len : length text ≡ m.content_length =
      omega (arith, length-take m.content_length m.content, v.room) in
    let r =
      recvall_lem events m.content_length (rw e (omega (arith, length-append text rest, text_len)))
        v.length_in in
    let got : (r.0).got ≡ text =
      r.3 ∙ ap (take m.content_length) e ∙ take-append text rest m.content_length (sym text_len) in
    let wanted : (ltb 0 m.content_length && ltb m.content_length (2 ^ 31)) ≡ true =
      ground (arith, some_bytes, v.length_in) in
    let room : leb (length (r.0).got) 8192 ≡ true = rw (got, text_len) ground (arith, fits) in
    let handed : dispatch env self (header_of m) ((r.0).got ++ drop (length (r.0).got) memory) s
        ≡ some s' =
      ap (λ t. dispatch env self (header_of m) (t ++ drop (length t) memory) s) got
      ∙ ap (λ n. dispatch env self (header_of m) (text ++ drop n memory) s) text_len
      ∙ done in
    (
      (r.0).events,
      with_content-runs env self memory s s' (header_of m) events wanted r.1 room handed,
      r.4 ∙ ap (drop m.content_length) e ∙ drop-append text rest m.content_length (sym text_len),
    )

do_receive-runs :
    (env : Env) (self : ℕ) (stack memory : List ℕ) (s : Server) (h : Header) (events : List Event)
    {r : Receiving} {turn : Option (Option Turn)}
    → recvall events header_size ≡ some r
    → is_pos r.ret ≡ true
    → load_header (r.got ++ drop (length r.got) stack) ≡ some h
    → with_content env self memory s h r.events ≡ turn
    → do_receive env self stack memory s events ≡ turn
unfolding do_receive with_header
do_receive-runs env self stack memory s h events runs live loaded done =
    rw (do_receive, runs, live, loaded) done

-- However the network cuts the stream, a message that was framed, with a content of 1 to 8192
-- bytes, is received whole and handed on with its code, channel and length, and its content at
-- the front of the block; what follows it on the stream is left for the next turn.
pub do_receive-frame :
    (env : Env) (self : ℕ) (stack memory : List ℕ) (s s' : Server) (m : Message) (rest : List ℕ)
    (events : List Event)
    → IsValid m
    → 0 < m.content_length
    → m.content_length ≤ bufsize
    → stream events ≡ frame m ++ rest
    → dispatch env self (header_of m) (received m memory) s ≡ some s'
    → (more : List Event) × (do_receive env self stack memory s events
        ≡ some (some (served s' more)))
      × (stream more ≡ rest)
do_receive-frame env self stack memory s s' m rest events v some_bytes fits e done =
    let text : List ℕ = take m.content_length m.content in
    let head : List ℕ = header_bytes (swap_header m) in
    let joined : stream events ≡ head ++ (text ++ rest) =
      e ∙ ap (λ t. (t ++ text) ++ rest) (sym (header_bytes-be m v)) ∙ append_assoc head text rest in
    let head_len : 8 ≡ length head = sym (length-header_bytes (swap_header m)) in
    let r =
      recvall_lem events 8 (rw joined (omega (arith, length-append head (text ++ rest), head_len)))
        (omega arith) in
    let got : (r.0).got ≡ head =
      r.3 ∙ ap (take 8) joined ∙ take-append head (text ++ rest) 8 head_len in
    let left : stream (r.0).events ≡ text ++ rest =
      r.4 ∙ ap (drop 8) joined ∙ drop-append head (text ++ rest) 8 head_len in
    let body =
      with_content-frame env self memory s s' m rest (r.0).events v some_bytes fits left done in
    let loaded : load_header ((r.0).got ++ drop (length (r.0).got) stack) ≡ some (header_of m) =
      ap (λ t. load_header (t ++ drop (length (r.0).got) stack)) got
      ∙ load_header-header_bytes m (drop (length (r.0).got) stack) v in
    (
      body.0,
      do_receive-runs env self stack memory s (header_of m) events r.1 (ap is_pos r.2) loaded
          body.1,
      body.2,
    )
