-- ===== src/Follower/Connection/Opening.antt =====
-- The error paths of follower/connection.c: opening, a broken send, and a second send of a message.
use compostela.Prelude.{
  ℕ, ◌+◌, ◌-◌, ◌^◌, ◌≤◌, ◌<◌, ◌≡◌, refl, sym, ap, ◌∙◌, List, [], ◌∷◌, ◌++◌, none, some, arith,
  length, true, false, if◌then◌else◌, length-append, ◌⊎◌, inl, inr, ◌↔◌, Bool, >>=-eq-some,
}
use compostela.Prelude.Words.{pos, negsuc, add64}
use compostela.Prelude.Memory.{read_at-none}
use compostela.Transport.{Sent, Sending, sendall}
use compostela.Transport.Send.{sendall_lem}
use compostela.Message.{Message, htonl, image, header_bytes, swap_header, header_size, sign_extend}
use compostela.Message.Bytes.{IsValid, length-header_bytes}
use compostela.Follower.Connection.{
  Connection, SentMessage, send_message, send_result, Attempt, no_socket, refused, connected,
  try_all, open_conn, is_live,
}
use compostela.Follower.Connection.Framing.{frame, framed, length-frame}

-- No address could be connected to.
abbrev pub AllFail : List Attempt → Type 0
AllFail [] = Unit {0}
AllFail (no_socket ∷ more) = AllFail more
AllFail (refused ∷ more) = AllFail more
AllFail (connected s ∷ more) = ⊥

try_all-AllFail :
    (addresses : List Attempt) (conn : Connection)
    → AllFail addresses
    → try_all addresses conn ≡ conn
unfolding try_all
try_all-AllFail [] conn h = refl
try_all-AllFail (no_socket ∷ more) conn h = try_all-AllFail more conn h
try_all-AllFail (refused ∷ more) conn h = try_all-AllFail more conn h
try_all-AllFail (connected s ∷ more) conn h = elim h [ ]

-- The first address that answers.
pub try_all-connected :
    (down : List Attempt) (s : ℕ) (more : List Attempt) (conn : Connection)
    → AllFail down
    → try_all (down ++ (connected s ∷ more)) conn ≡ record conn { socket = pos s }
unfolding try_all
try_all-connected [] s more conn h = refl
try_all-connected (no_socket ∷ down) s more conn h = try_all-connected down s more conn h
try_all-connected (refused ∷ down) s more conn h = try_all-connected down s more conn h
try_all-connected (connected t ∷ down) s more conn h = elim h [ ]

success : (b : Bool) → ((if b then pos 0 else negsuc 0) ≡ pos 0) ↔ (b ≡ true)
success true = (λ e. refl, λ e. refl)
success false = (λ e. absurd (cc), λ e. cc)

-- If every address fails, `sc_aggregator_connection_open` changes nothing, and what it returns
-- depends on the old socket alone: it reports success where an old socket is still there.
pub open_conn-AllFail :
    (addresses : List Attempt) (conn : Connection)
    → AllFail addresses
    → (open_conn (some addresses) conn).1 ≡ conn
      × (((open_conn (some addresses) conn).0 ≡ pos 0) ↔ (is_live conn.socket ≡ true))
unfolding open_conn
open_conn-AllFail addresses conn h =
    rw (try_all-AllFail addresses conn h) (refl, success (is_live conn.socket))

wire-send_result :
    (conn : Connection) (m : Message) (t : Sending) (s : SentMessage)
    → some (send_result conn m t) ≡ some s
    → s.wire ≡ t.wire
unfolding send_result
wire-send_result conn m t s e = ground arith

send_result_cases :
    (conn : Connection) (m : Message) (w : List ℕ) (t : Sending) (s : SentMessage)
    → some (send_result conn m t) ≡ some s
    → t.wire ≡ w
    → ((t.ret ≡ pos (length t.wire)) ⊎ ((t.ret ≡ negsuc 0) × (t.wire ≡ [])))
    → ((s.ret ≡ pos 0) × (0 < length s.wire) × (s.conn ≡ conn))
      ⊎ ((s.ret ≡ negsuc 0) × (s.wire ≡ []) × (s.conn.socket ≡ negsuc 0))
unfolding send_result
send_result_cases conn m [] t s e w h = inr (ground arith)
send_result_cases conn m (c ∷ cs) t s e w h = inl (ground arith)

-- Where `sc_aggregator_connection_send_message` returns for a valid message whose frame is shorter
-- than 2 ^ 31, the first bytes of its
-- frame are out. It returns 0 as soon as one byte is, also where the rest of the frame is not; if
-- none is, it returns -1 and the socket counts as closed.
pub send_message-partial :
    (answers : List Sent) (conn : Connection) (m : Message) {s : SentMessage}
    → IsValid m
    → 8 + m.content_length < 2 ^ 31
    → send_message answers conn m ≡ some s
    → (unsent : List ℕ) × (frame m ≡ s.wire ++ unsent)
      × (((s.ret ≡ pos 0) × (0 < length s.wire) × (s.conn ≡ conn))
          ⊎ ((s.ret ≡ negsuc 0) × (s.wire ≡ []) × (s.conn.socket ≡ negsuc 0)))
unfolding send_message send_result
send_message-partial answers conn m {s} v small e =
    let sent = >>=-eq-some (sendall answers (frame m)) _ (rw (framed m v) at e) in
    let way = sendall_lem answers (frame m) (omega (arith, length-frame m v, small)) sent.1 in
    (
      way.0,
      way.1 ∙ ap (λ t. t ++ way.0) (sym (wire-send_result conn (swap_header m) sent.0 s sent.2)),
      send_result_cases conn (swap_header m) (sent.0).wire sent.0 s sent.2 refl way.2,
    )

-- A length of at most 8192 reversed is much larger, and its sign extension does not wrap.
reversed : (len : ℕ) → 0 < len → len ≤ 8192 → (2 ^ 16 ≤ htonl len) × (htonl len < 2 ^ 32 - 2 ^ 16)
unfolding htonl
reversed len h k = omega arith

-- A message that was sent stays in network order. Where it has a content and its block no more than
-- 8192 bytes for it, sending it once more takes the reversed bytes of the length for the length and
-- runs out of the block.
pub send_message-twice :
    (answers : List Sent) (conn : Connection) (m : Message)
    → IsValid m
    → 0 < m.content_length
    → length m.content ≤ 8192
    → send_message answers conn (swap_header m) ≡ none
unfolding send_message image sign_extend swap_header
send_message-twice answers conn m v pos_len small =
    rw (read_at-none (image (swap_header (swap_header m))) 0 _ past)
  where
    past :
        length (image (swap_header (swap_header m)))
        < 0 + add64 (sign_extend (swap_header m).content_length) header_size
    past = ground (
      arith,
      length-append (header_bytes (swap_header (swap_header m))) m.content,
      length-header_bytes (swap_header (swap_header m)),
      reversed m.content_length pos_len (omega (arith, v.room)),
    )
