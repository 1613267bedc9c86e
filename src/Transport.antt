-- ===== src/Transport.antt =====
-- The loops that move whole blocks over a descriptor: `sendall` and `recvall` of
-- common/supports.c, and `writeall` of logger/main.c and follower/logger.c.
-- What the kernel answers is a list of events, one for each call. A loop that needs an answer when
-- the list is at its end still waits: its result is `none`.
pub mod Send
pub mod Receive
mod Tests
use compostela.Prelude.{
  ℕ, zero, suc, ◌+◌, ◌-◌, List, [], ◌∷◌, ◌++◌, Option, none, some, true, false, length, take, drop,
  leb, if◌then◌else◌, min,
}
use compostela.Prelude.Words.{ℤ, pos, negsuc, to_int}

-- The answer of `send` or `write` to a request for `n > 0` bytes: it took `k + 1` of them, or all
-- if they are fewer; or it returned 0 or -1.
pub data Sent : Type 0 where
  took : ℕ → Sent
  nothing : Sent
  broken : Sent

-- What `sendall` returned, and the bytes that went out.
pub record Sending : Type 0 where
  pub ret : ℤ
  pub wire : List ℕ
  pub answers : List Sent

-- `p - p0 ? p - p0 : cb`, as an `int`: the loop has moved `moved` bytes when a call returns
-- `cb <= 0`. From 2 ^ 31 bytes on the count does not fit.
pub progress : ℕ → ℤ → ℤ
progress zero cb = cb
progress (suc n) cb = to_int (suc n)

pub also_sent : List ℕ → Option Sending → Option Sending
also_sent bytes none = none
also_sent bytes (some s) = some (record s { wire = bytes ++ s.wire })

-- The loop: `moved` is `p - p0`, `rest` the `n` bytes from `p` on.
pub send_loop : List Sent → ℕ → List ℕ → Option Sending
send_loop answers moved [] =
    some (record { ret = progress moved (pos 0); wire = []; answers = answers })
send_loop [] moved (b ∷ rest) = none
send_loop (nothing ∷ answers) moved (b ∷ rest) =
    some (record { ret = progress moved (pos 0); wire = []; answers = answers })
send_loop (broken ∷ answers) moved (b ∷ rest) =
    some (record { ret = progress moved (negsuc 0); wire = []; answers = answers })
send_loop (took k ∷ answers) moved (b ∷ rest) =
    let cb = min (suc k) (length (b ∷ rest)) in
    also_sent (take cb (b ∷ rest)) (send_loop answers (moved + cb) (drop cb (b ∷ rest)))

unfoldable pub sendall : List Sent → List ℕ → Option Sending
unfolding send_loop progress also_sent
sendall answers bytes = send_loop answers 0 bytes

-- `writeall` is the same loop over `write`.
unfoldable pub writeall : List Sent → List ℕ → Option Sending
unfolding send_loop progress also_sent
writeall answers bytes = send_loop answers 0 bytes

-- What `recv` finds: the next bytes of the stream, one at least, of which it takes no more than it
-- is asked for; nothing yet (`EAGAIN`); the end of the stream; or another error.
pub data Event : Type 0 where
  chunk : ℕ → List ℕ → Event
  again : Event
  closed : Event
  failed : Event

pub record Receiving : Type 0 where
  pub ret : ℤ
  pub got : List ℕ
  pub events : List Event

-- The bytes of a chunk that a call leaves for the next.
pub left_over : List ℕ → List Event → List Event
left_over [] events = events
left_over (b ∷ bs) events = chunk b bs ∷ events

pub also_got : List ℕ → Option Receiving → Option Receiving
also_got bytes none = none
also_got bytes (some r) = some (record r { got = bytes ++ r.got })

-- The loop: `moved` is `p - p0`, `n` the bytes still wanted.
pub recv_loop : List Event → ℕ → ℕ → Option Receiving
recv_loop events moved zero =
    some (record { ret = progress moved (pos 0); got = []; events = events })
recv_loop [] moved (suc n) = none
recv_loop (again ∷ events) moved (suc n) = recv_loop events moved (suc n)
recv_loop (closed ∷ events) moved (suc n) =
    some (record { ret = progress moved (pos 0); got = []; events = closed ∷ events })
recv_loop (failed ∷ events) moved (suc n) =
    some (record { ret = progress moved (negsuc 0); got = []; events = events })
recv_loop (chunk b bs ∷ events) moved (suc n) =
    let more = recv_loop events (moved + length (b ∷ bs)) (suc n - length (b ∷ bs)) in
    elim (leb (length (b ∷ bs)) (suc n)) [
      | true ↦ elim more [ none ↦ none | some r ↦ some (record r { got = (b ∷ bs) ++ r.got }) ]
      | false ↦ some (record {
        ret = progress (moved + suc n) (pos 0);
        got = take (suc n) (b ∷ bs);
        events = left_over (drop (suc n) (b ∷ bs)) events;
      })
    ]

unfoldable pub recvall : List Event → ℕ → Option Receiving
unfolding recv_loop progress left_over also_got
recvall events size = recv_loop events 0 size
