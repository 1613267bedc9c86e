-- ===== src/Aggregator/Channels.antt =====
-- The channels of a connection: `sc_channel` and `sc_connection` of aggregator/main.c. A pointer to
-- a channel is its address, `self`; a channel from `malloc` has an address of its own.
pub mod Registry
pub mod Buffers
use compostela.Prelude.{
  ℕ, zero, suc, ◌+◌, ◌^◌, ◌%◌, List, [], ◌∷◌, Option, none, some, ◌>>=◌, Bool, true, false, ◌&&◌,
  ◌==◌, ltb, if◌then◌else◌,
}
use compostela.Prelude.Words.{ℤ, pos, negsuc}
use compostela.AzList
use compostela.AzBuffer.{AzBuffer, Heap}
use compostela.AzBuffer
use compostela.Supports.{pathcat}
use compostela.Aggregator.Config.{AggregateContext}

pub record Channel : Type 0 where
  pub self : ℕ
  pub id : ℕ
  pub filename : List ℕ
  pub filename_fullpath : List ℕ
  pub buffer : AzBuffer
  pub aggregate_context : Option AggregateContext

-- `sc_connection`. The remote address is missing where `getnameinfo` failed.
pub record Connection : Type 0 where
  pub remote_addr : Option (List ℕ)
  pub channel_list : List Channel
  pub socket : ℕ

abbrev pub line_buffer_size : ℕ
line_buffer_size = 1024

-- `sc_channel_new` for a name: the path is `logdir/remote_addr/fname`. A missing log directory is a
-- null pointer that `pathcat` reads. The id is not set yet.
unfoldable pub channel_new : Heap → ℕ → Option (List ℕ) → Connection → List ℕ → Option Channel
channel_new heap self logdir conn fname = do
  dir ← logdir
  fullpath ← pathcat dir (conn.remote_addr ∷ some fname ∷ [])
  buffer ← AzBuffer.new true heap line_buffer_size
  some (record {
    self = self;
    id = 0;
    filename = fname;
    filename_fullpath = fullpath;
    buffer = buffer;
    aggregate_context = none;
  })

-- The loop over the list: `none` is a channel that is registered already, or the largest id, which is
-- an `int`: a pattern with its top bit set is negative, and smaller than any `id` of the loop.
pub highest_id : List Channel → ℕ → ℕ → Option ℕ
highest_id [] self id = some id
highest_id (c ∷ li) self id =
    let more = highest_id li self (if ltb id c.id && ltb c.id (2 ^ 31) then c.id else id) in
    if self == c.self then none else more

unfoldable pub register_channel : Connection → Channel → ℤ × Connection × Channel
unfolding highest_id
register_channel conn channel = elim (highest_id conn.channel_list channel.self 0) [
  | none ↦ (negsuc 0, conn, channel)
  | some id ↦
      let registered = record channel { id = (id + 1) % 2 ^ 32 } in
      (pos 0, record conn { channel_list = AzList.add conn.channel_list registered }, registered)
]

-- The loop variable is what is returned, also where no id fits.
unfoldable pub channel_loop : List Channel → Option Channel → ℕ → Option Channel
channel_loop [] channel id = channel
channel_loop (c ∷ li) channel id = if c.id == id then some c else channel_loop li (some c) id

-- The id comes from an `int16_t`: a pattern with its top bit set is negative, and no id.
unfoldable pub connection_channel : Connection → ℕ → Option Channel
unfolding channel_loop
connection_channel conn id =
    channel_loop conn.channel_list none (if ltb id (2 ^ 15) then id else id + 2 ^ 32)

abbrev pub same_channel : ℕ → Channel → Bool
same_channel self c = self == c.self

unfoldable pub delete_channel : Connection → ℕ → Option Connection
unfolding AzList.delete
delete_channel conn self = AzList.delete (same_channel self) conn.channel_list >>= λ li.
    some (record conn { channel_list = li })

-- A write through the pointer to a channel.
unfoldable pub set_buffer : List Channel → ℕ → AzBuffer → List Channel
set_buffer [] self buffer = []
set_buffer (c ∷ li) self buffer =
    let rest = set_buffer li self buffer in
    if self == c.self then record c { buffer = buffer } ∷ li else c ∷ rest

unfoldable pub set_context : List Channel → ℕ → Option AggregateContext → List Channel
set_context [] self aggr = []
set_context (c ∷ li) self aggr =
    let rest = set_context li self aggr in
    if self == c.self then record c { aggregate_context = aggr } ∷ li else c ∷ rest
