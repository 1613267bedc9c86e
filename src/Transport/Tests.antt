-- ===== src/Transport/Tests.antt =====
-- The socket loops of common/supports.c and logger/main.c on short streams.
use compostela.Prelude.{ℕ, ◌≡◌, refl, List, [], ◌∷◌, ◌++◌, some, arith, ◌⊎◌}
use compostela.Prelude.Words.{pos, negsuc}
use compostela.Transport.{
  Sent, took, broken, Sending, sendall, writeall, Event, chunk, again, closed, Receiving, recvall,
  progress, send_loop, also_sent,
}
use compostela.Transport.Send.{sendall_lem, sendall_total}
use compostela.Transport.Receive.{stream, recvall_lem}

abbrev three_bytes : List ℕ
three_bytes = 1 ∷ 2 ∷ 3 ∷ []

abbrev two_bytes : List ℕ
two_bytes = 1 ∷ 2 ∷ []

abbrev breaks : List Sent
breaks = took 0 ∷ took 0 ∷ broken ∷ []

cut_short :
    sendall breaks three_bytes ≡ some (record { ret = pos 2; wire = 1 ∷ 2 ∷ []; answers = [] })
unfolding sendall send_loop also_sent progress
cut_short = refl

none_out :
    writeall (broken ∷ []) three_bytes ≡ some (record { ret = negsuc 0; wire = []; answers = [] })
unfolding writeall send_loop also_sent progress
none_out = refl

sendall_lem_example :
    (unsent : List ℕ) × (three_bytes ≡ two_bytes ++ unsent)
    × ((pos 2 ≡ pos 2) ⊎ ((pos 2 ≡ negsuc 0) × (two_bytes ≡ [])))
sendall_lem_example = sendall_lem breaks three_bytes (omega arith) cut_short

sendall_total_example :
    (s : Sending) × (sendall (took 0 ∷ took 7 ∷ took 0 ∷ []) three_bytes ≡ some s)
    × (s.ret ≡ pos 3)
    × (s.wire ≡ three_bytes)
sendall_total_example =
    sendall_total (took 0 ∷ took 7 ∷ took 0 ∷ []) three_bytes tt (omega arith) (omega arith)

abbrev pieces : List Event
pieces = chunk 1 (2 ∷ []) ∷ again ∷ chunk 3 (4 ∷ []) ∷ closed ∷ []

recvall_lem_example :
    (r : Receiving) × (recvall pieces 3 ≡ some r)
    × (r.ret ≡ pos 3)
    × (r.got ≡ 1 ∷ 2 ∷ 3 ∷ [])
    × (stream r.events ≡ 4 ∷ [])
recvall_lem_example = recvall_lem pieces 3 (omega arith) (omega arith)
