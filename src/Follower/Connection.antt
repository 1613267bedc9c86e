-- ===== src/Follower/Connection.antt =====
-- follower/connection.c: the connection to the aggregator. A socket is its descriptor, -1 when
-- closed. What the network answers is passed in: `Sent` for the calls of `send`, `Event` for `recv`.
pub mod Framing
pub mod Spending
pub mod Opening
mod Tests
use compostela.Prelude.{
  ℕ, zero, suc, ◌+◌, ◌-◌, ◌^◌, List, [], ◌∷◌, ◌++◌, Option, none, some, ltb, if◌then◌else◌, ◌>>=◌,
  take, drop, length, ◌||◌, ◌==◌, Bool, true, false, not,
}
use compostela.Prelude.Words.{ℤ, pos, negsuc, is_pos, is_neg, add64}
use compostela.Prelude.Memory.{read_at}
use compostela.AzBuffer.{Heap, fill, block}
use compostela.Transport.{Sent, Sending, sendall, Event, Receiving, recvall}
use compostela.Message.{
  Message, Header, htons, image, swap_header, load_header, header_size, sign_extend,
}

-- `struct _sc_aggregator_connection`.
pub record Connection : Type 0 where
  pub socket : ℤ
  pub host : List ℕ
  pub port : ℕ

unfoldable pub new : List ℕ → ℕ → Connection
new host port = record { socket = negsuc 0; host = host; port = port }

-- How one address of `getaddrinfo` fares: no socket for it, no connection, or connected.
pub data Attempt : Type 0 where
  no_socket refused : Attempt
  connected : ℕ → Attempt

-- The loop over the addresses.
pub try_all : List Attempt → Connection → Connection
try_all [] conn = conn
try_all (no_socket ∷ more) conn = try_all more conn
try_all (refused ∷ more) conn = try_all more conn
try_all (connected s ∷ more) conn = record conn { socket = pos s }

-- `conn->socket != -1`.
unfoldable pub is_live : ℤ → Bool
is_live (pos n) = true
is_live (negsuc zero) = false
is_live (negsuc (suc n)) = true

-- `none` is an error of `getaddrinfo`.
unfoldable pub open_conn : Option (List Attempt) → Connection → ℤ × Connection
unfolding try_all is_live
open_conn none conn = (negsuc 0, conn)
open_conn (some addresses) conn =
    let conn' = try_all addresses conn in (if is_live conn'.socket then pos 0 else negsuc 0, conn')

-- The null pointer counts as opened, like every result but 0.
unfoldable pub is_opened : Option Connection → ℤ
unfolding is_live
is_opened none = negsuc 0
is_opened (some conn) = if is_live conn.socket then pos 1 else pos 0

unfoldable pub close_conn : Option Connection → ℤ × Option Connection
close_conn none = (negsuc 0, none)
close_conn (some conn) = (pos 0, some (record conn { socket = negsuc 0 }))

pub record SentMessage : Type 0 where
  pub ret : ℤ
  pub conn : Connection
  pub msg : Message
  pub wire : List ℕ
  pub answers : List Sent

-- The message is brought into network order in place, and stays so.
unfoldable pub send_result : Connection → Message → Sending → SentMessage
send_result conn msg s =
    if is_pos s.ret
    then record { ret = pos 0; conn = conn; msg = msg; wire = s.wire; answers = s.answers }
    else record {
      ret = negsuc 0;
      conn = record conn { socket = negsuc 0 };
      msg = msg;
      wire = s.wire;
      answers = s.answers;
    }

unfoldable pub send_message : List Sent → Connection → Message → Option SentMessage
unfolding send_result
send_message answers conn msg = do
  bytes ← read_at (image (swap_header msg)) 0 (add64 (sign_extend msg.content_length) header_size)
  s ← sendall answers bytes
  some (send_result conn (swap_header msg) s)

pub record Received : Type 0 where
  pub ret : ℤ
  pub conn : Connection
  pub msg : Option Message
  pub events : List Event

abbrev no_message : ℤ → Connection → List Event → Received
no_message ret conn events = record { ret = ret; conn = conn; msg = none; events = events }

-- The second half: the block for the content, and its bytes. A length of -8 to -1 makes a block
-- that is too small for the header (a fault); one below that is more memory than there is.
receive_content : Heap → Connection → Header → List Event → Option Received
receive_content heap conn h events =
    if ltb h.content_length (2 ^ 31)
    then elim heap [
      | none ↦ some (no_message (negsuc 1) conn events)
      | some junk ↦
          let room = fill junk h.content_length in
          elim (recvall events h.content_length) [
            | none ↦ none
            | some r ↦
                if is_pos r.ret || h.content_length == 0
                then some (record {
                  ret = pos 0;
                  conn = conn;
                  msg = some (record {
                    code = h.code;
                    channel = h.channel;
                    content_length = h.content_length;
                    content = r.got ++ drop (length r.got) room;
                  });
                  events = r.events;
                })
                else some (no_message (negsuc 2) conn r.events)
          ]
    ]
    else if ltb h.content_length (2 ^ 32 - 8)
    then some (no_message (negsuc 1) conn events)
    else none

receive_after : Heap → List ℕ → Connection → Receiving → Option Received
receive_after heap stack conn r =
    if is_neg r.ret
    then some (no_message (negsuc 0) (record conn { socket = negsuc 0 }) r.events)
    else if is_pos r.ret
    then (load_header (r.got ++ drop (length r.got) stack) >>= λ h.
        receive_content heap conn h r.events)
    else some (no_message (negsuc 3) conn r.events)

-- `stack` is what the header's place held before: a short header leaves the rest of it.
unfoldable pub receive_message : Heap → List ℕ → Connection → List Event → Option Received
unfolding receive_after receive_content
receive_message heap stack conn events =
    recvall events header_size >>= receive_after heap stack conn
