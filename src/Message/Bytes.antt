-- ===== src/Message/Bytes.antt =====
-- The byte order of the protocol of common/message.h: a header on the wire.
use compostela.Prelude.{
  ℕ, ◌+◌, ◌*◌, ◌/◌, ◌%◌, ◌^◌, ◌≤◌, ◌<◌, ◌≡◌, refl, ap, ap₂, ◌∙◌, List, [], ◌∷◌, ◌++◌, some, arith,
  length,
}
use compostela.Message.{
  Message, Header, htons, htonl, store16, store32, header_bytes, load16, load32, swap_header,
  load_header, header_size,
}

-- The most significant byte first.
abbrev pub be16 : ℕ → List ℕ
be16 w = w / 2 ^ 8 ∷ w % 2 ^ 8 ∷ []

abbrev pub be32 : ℕ → List ℕ
be32 w = w / 2 ^ 24 ∷ w / 2 ^ 16 % 2 ^ 8 ∷ w / 2 ^ 8 % 2 ^ 8 ∷ w % 2 ^ 8 ∷ []

pub store16-htons : (w : ℕ) → w < 2 ^ 16 → store16 (htons w) ≡ be16 w
unfolding store16 htons
store16-htons w h = ground arith

pub store32-htonl : (w : ℕ) → w < 2 ^ 32 → store32 (htonl w) ≡ be32 w
unfolding store32 htonl
store32-htonl w h = ground arith

pub load16-be16 :
    (w : ℕ) (rest : List ℕ) {v : ℕ} → w < 2 ^ 16 → load16 (be16 w ++ rest) ≡ some v → htons v ≡ w
unfolding load16 htons
load16-be16 w rest h e = ground arith

pub htons-lt : (w : ℕ) → w < 2 ^ 16 → htons w < 2 ^ 16
unfolding htons
htons-lt w h = omega arith

-- Swapping twice gives the number back.
pub htons-htons : (w : ℕ) → w < 2 ^ 16 → htons (htons w) ≡ w
unfolding htons
htons-htons w h = omega arith

pub htonl-htonl : (w : ℕ) → w < 2 ^ 32 → htonl (htonl w) ≡ w
unfolding htonl
htonl-htonl w h = omega arith

-- Bytes of the wire, read back.
load-be :
    (a b c d : ℕ)
    → a < 2 ^ 8
    → b < 2 ^ 8
    → c < 2 ^ 8
    → d < 2 ^ 8
    → htonl (a + b * 2 ^ 8 + (c + d * 2 ^ 8) * 2 ^ 16) ≡ d + c * 2 ^ 8 + (b + a * 2 ^ 8) * 2 ^ 16
unfolding htonl
load-be a b c d p q r s = omega arith

-- The fields are in range, and the block holds the content that the header announces.
pub record IsValid (m : Message) : Type 0 where
  pub code_in : m.code < 2 ^ 16
  pub channel_in : m.channel < 2 ^ 16
  pub length_in : m.content_length < 2 ^ 31
  pub room : m.content_length ≤ length m.content

abbrev pub header_of : Message → Header
header_of m = record { code = m.code; channel = m.channel; content_length = m.content_length }

load_be16 : (w : ℕ) → w < 2 ^ 16 → htons (htons w % 2 ^ 8 + htons w / 2 ^ 8 * 2 ^ 8) ≡ w
unfolding htons
load_be16 w h = omega arith

load_be32 :
    (w : ℕ)
    → w < 2 ^ 32
    → let v = htonl w in
      htonl (
        v % 2 ^ 16 % 2 ^ 8
        + v % 2 ^ 16 / 2 ^ 8 * 2 ^ 8
        + (v / 2 ^ 16 % 2 ^ 8 + v / 2 ^ 16 / 2 ^ 8 * 2 ^ 8) * 2 ^ 16)
      ≡ w
load_be32 w h = ap htonl (omega arith) ∙ htonl-htonl w h

-- A header in network order is read back as it was, whatever follows.
pub load_header-header_bytes :
    (m : Message) (rest : List ℕ)
    → IsValid m
    → load_header (header_bytes (swap_header m) ++ rest) ≡ some (header_of m)
unfolding load_header header_bytes swap_header load16 load32 store16 store32
load_header-header_bytes m rest v = ap some λ i. record {
  code = load_be16 m.code v.code_in i;
  channel = load_be16 m.channel v.channel_in i;
  content_length = load_be32 m.content_length (omega (arith, v.length_in)) i;
}

pub length-header_bytes : (m : Message) → length (header_bytes m) ≡ header_size
unfolding header_bytes
length-header_bytes m = refl

-- What a message in network order begins with: its code, its channel and the length of its
-- content, each with its most significant byte first.
pub header_bytes-be :
    (m : Message)
    → IsValid m
    → header_bytes (swap_header m) ≡ be16 m.code ++ (be16 m.channel ++ be32 m.content_length)
unfolding header_bytes swap_header
header_bytes-be m v = ap₂ ◌++◌ (store16-htons m.code v.code_in) (
    ap₂ ◌++◌ (store16-htons m.channel v.channel_in)
      (store32-htonl m.content_length (omega (arith, v.length_in))))
