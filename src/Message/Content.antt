-- ===== src/Message/Content.antt =====
-- Numbers in the content of a message: written by one side in network order, read by the other.
use compostela.Prelude.{ℕ, ◌+◌, ◌*◌, ◌/◌, ◌%◌, ◌^◌, ◌<◌, ◌≡◌, ap, List, ◌++◌, some, arith}
use compostela.Message.{htonl, bswap_64, store16, store32, store64, load32, load64}
use compostela.Message.Bytes.{htonl-htonl}

pub htonl-lt : (w : ℕ) → w < 2 ^ 32 → htonl w < 2 ^ 32
unfolding htonl
htonl-lt w h = omega arith

pub load32-store32 : (w : ℕ) (rest : List ℕ) → w < 2 ^ 32 → load32 (store32 w ++ rest) ≡ some w
unfolding load32 store32 store16
load32-store32 w rest h = ap some (omega arith)

pub load64-store64 : (w : ℕ) (rest : List ℕ) → w < 2 ^ 64 → load64 (store64 w ++ rest) ≡ some w
unfolding load64 load32 store64 store32 store16
load64-store64 w rest h = ap some (omega arith)

pub bswap_64-lt : (w : ℕ) → w < 2 ^ 64 → bswap_64 w < 2 ^ 64
unfolding bswap_64
bswap_64-lt w h =
    omega (arith, htonl-lt (w % 2 ^ 32) (omega arith), htonl-lt (w / 2 ^ 32) (omega arith))

high : (a b : ℕ) → b < 2 ^ 32 → (a * 2 ^ 32 + b) / 2 ^ 32 ≡ a
high a b h = omega arith

low : (a b : ℕ) → b < 2 ^ 32 → (a * 2 ^ 32 + b) % 2 ^ 32 ≡ b
low a b h = omega arith

-- Swapping the eight bytes twice gives the number back.
pub bswap_64-bswap_64 : (w : ℕ) → w < 2 ^ 64 → bswap_64 (bswap_64 w) ≡ w
unfolding bswap_64
bswap_64-bswap_64 w h =
    let a : ℕ = w % 2 ^ 32 in
    let b : ℕ = w / 2 ^ 32 in
    let hb : htonl b < 2 ^ 32 = htonl-lt b (omega arith) in
    rw
      (
        low (htonl a) (htonl b) hb,
        high (htonl a) (htonl b) hb,
        htonl-htonl a (omega arith),
        htonl-htonl b (omega arith),
      )
      (omega arith)
