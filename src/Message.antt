-- ===== src/Message.antt =====
-- common/message.h and common/message.c: the message of the protocol and its image in memory, on a
-- little-endian host (the sources swap 64-bit fields for that case only).
pub mod Bytes
pub mod Content
use compostela.Prelude.{
  ℕ, zero, suc, ◌+◌, ◌*◌, ◌/◌, ◌%◌, ◌^◌, List, [], ◌∷◌, ◌++◌, Option, none, some, ◌>>=◌, drop, ltb,
  if◌then◌else◌, ◌-◌,
}
use compostela.AzBuffer.{Heap, fill}

-- `SCM_MSG_*` and `SCM_RESP_*`.
abbrev pub scm_msg_none : ℕ
scm_msg_none = 0

abbrev pub scm_msg_init : ℕ
scm_msg_init = 101

abbrev pub scm_msg_sync : ℕ
scm_msg_sync = 102

abbrev pub scm_msg_data : ℕ
scm_msg_data = 103

abbrev pub scm_msg_seek : ℕ
scm_msg_seek = 104

abbrev pub scm_msg_rele : ℕ
scm_msg_rele = 105

abbrev pub scm_msg_move : ℕ
scm_msg_move = 106

abbrev pub scm_resp_ok : ℕ
scm_resp_ok = 1001

abbrev pub scm_resp_ng : ℕ
scm_resp_ng = 1999

-- `sc_log_message`: the bit patterns of its two `int16_t` and its `int32_t`, and the bytes that the
-- block has room for behind them.
pub record Message : Type 0 where
  pub code : ℕ
  pub channel : ℕ
  pub content_length : ℕ
  pub content : List ℕ

-- `sc_log_message_new`: the fields but the length are what the block happens to hold.
unfoldable pub new : Heap → ℕ → Option Message
unfolding fill
new none content_size = none
new (some junk) content_size = some (record {
  code = junk 0 % 2 ^ 16;
  channel = junk 1 % 2 ^ 16;
  content_length = content_size % 2 ^ 32;
  content = fill junk content_size;
})

-- `htons` and `ntohs`, `htonl` and `ntohl`, `bswap_64`.
unfoldable pub htons : ℕ → ℕ
htons w = w % 2 ^ 8 * 2 ^ 8 + w / 2 ^ 8

unfoldable pub htonl : ℕ → ℕ
unfolding htons
htonl w = htons (w % 2 ^ 16) * 2 ^ 16 + htons (w / 2 ^ 16)

unfoldable pub bswap_64 : ℕ → ℕ
unfolding htonl
bswap_64 w = htonl (w % 2 ^ 32) * 2 ^ 32 + htonl (w / 2 ^ 32)

-- An integer's bytes in memory.
unfoldable pub store16 : ℕ → List ℕ
store16 w = w % 2 ^ 8 ∷ w / 2 ^ 8 ∷ []

unfoldable pub store32 : ℕ → List ℕ
unfolding store16
store32 w = store16 (w % 2 ^ 16) ++ store16 (w / 2 ^ 16)

unfoldable pub store64 : ℕ → List ℕ
unfolding store32
store64 w = store32 (w % 2 ^ 32) ++ store32 (w / 2 ^ 32)

-- `*(int32_t*)p` and `*(int64_t*)p`; `none` is a read past the end.
unfoldable pub load16 : List ℕ → Option ℕ
load16 (a ∷ b ∷ rest) = some (a + b * 2 ^ 8)
load16 short = none

unfoldable pub load32 : List ℕ → Option ℕ
load32 (a ∷ b ∷ c ∷ d ∷ rest) = some (a + b * 2 ^ 8 + (c + d * 2 ^ 8) * 2 ^ 16)
load32 short = none

unfoldable pub load64 : List ℕ → Option ℕ
unfolding load32
load64 p = do low ← load32 p; high ← load32 (drop 4 p); some (low + high * 2 ^ 32)

-- `offsetof(sc_log_message, content)`.
abbrev pub header_size : ℕ
header_size = 8

-- The block of a message, from its start.
unfoldable pub header_bytes : Message → List ℕ
unfolding store16 store32
header_bytes m = store16 m.code ++ (store16 m.channel ++ store32 m.content_length)

unfoldable pub image : Message → List ℕ
unfolding header_bytes
image m = header_bytes m ++ m.content

-- The three assignments that bring a header into network order, or back.
unfoldable pub swap_header : Message → Message
unfolding htons htonl
swap_header m = record m {
  code = htons m.code;
  channel = htons m.channel;
  content_length = htonl m.content_length;
}

-- The fields of a header that was received.
pub record Header : Type 0 where
  pub code : ℕ
  pub channel : ℕ
  pub content_length : ℕ

unfoldable pub load_header : List ℕ → Option Header
unfolding load16 load32 htons htonl
load_header p = do
  code ← load16 p
  channel ← load16 (drop 2 p)
  content_length ← load32 (drop 4 p)
  some
      (record { code = htons code; channel = htons channel; content_length = htonl content_length })

-- `(size_t)len` of an `int32_t`.
unfoldable pub sign_extend : ℕ → ℕ
sign_extend len = if ltb len (2 ^ 31) then len else len + (2 ^ 64 - 2 ^ 32)
