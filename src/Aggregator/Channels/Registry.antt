-- ===== src/Aggregator/Channels/Registry.antt =====
-- Which channel of aggregator/main.c a message reaches.
use compostela.Prelude.{
  ℕ, suc, ◌+◌, ◌^◌, ◌%◌, ◌≤◌, ◌<◌, ◌≡◌, refl, ◌≢◌, List, [], ◌∷◌, ◌++◌, Option, none, some, arith,
  lt→ltb,
}
use compostela.Prelude.Words.{pos}
use compostela.AzList
use compostela.Aggregator.Channels.{
  Channel, Connection, highest_id, register_channel, channel_loop, connection_channel,
}

-- Ids fall along the list and stay below the bound, and no two channels share an address.
abbrev pub Below : ℕ → List Channel → Type 0
Below n [] = Unit {0}
Below n (c ∷ li) = (c.id < n) × (0 < c.id) × Below c.id li

abbrev pub NotAt : ℕ → List Channel → Type 0
NotAt self [] = Unit {0}
NotAt self (c ∷ li) = (self ≢ c.self) × NotAt self li

abbrev pub Apart : List Channel → Type 0
Apart [] = Unit {0}
Apart (c ∷ li) = NotAt c.self li × Apart li

abbrev pub top : List Channel → ℕ
top [] = 0
top (c ∷ li) = c.id

-- The ids of a registry.
pub record IsRegistry (li : List Channel) : Type 0 where
  pub ordered : Below (suc (top li)) li
  pub apart : Apart li

pub Below-mono : {m n : ℕ} (li : List Channel) → m ≤ n → Below m li → Below n li
Below-mono [] h b = tt
Below-mono (c ∷ li) h b = (omega arith, b.1, b.2)

highest_id-Below :
    (li : List Channel) (self id : ℕ)
    → NotAt self li
    → Below (suc id) li
    → highest_id li self id ≡ some id
unfolding highest_id
highest_id-Below [] self id fresh b = refl
highest_id-Below (c ∷ li) self id fresh b =
    ground (arith, highest_id-Below li self id fresh.1 (Below-mono li (omega arith) b.2))

highest_id-top :
    (li : List Channel) (self : ℕ)
    → NotAt self li
    → top li < 2 ^ 31
    → Below (suc (top li)) li
    → highest_id li self 0 ≡ some (top li)
unfolding highest_id
highest_id-top [] self fresh small b = refl
highest_id-top (c ∷ li) self fresh small b =
    ground (arith, small, highest_id-Below li self c.id fresh.1 (Below-mono li (omega arith) b.2))

-- While an id more fits an `int`, a new channel gets an id above all others and positive, goes to the front of the list, and the
-- registry stays in order, with ids that differ.
pub register_channel-IsRegistry :
    (conn : Connection) (channel : Channel)
    → IsRegistry conn.channel_list
    → NotAt channel.self conn.channel_list
    → top conn.channel_list + 1 < 2 ^ 31
    → let id = top conn.channel_list + 1 in
      (register_channel conn channel ≡ (
        pos 0,
        record conn { channel_list = record channel { id = id } ∷ conn.channel_list },
        record channel { id = id },
      ))
      × IsRegistry (record channel { id = id } ∷ conn.channel_list)
unfolding register_channel AzList.add
register_channel-IsRegistry conn channel v fresh small = (
  rw (
    register_channel,
    highest_id-top conn.channel_list channel.self fresh (omega (arith, small)) v.ordered,
    fits,
  ),
  record {
    ordered = (omega arith, omega arith, Below-mono conn.channel_list (omega arith) v.ordered);
    apart = (fresh, v.apart);
  },
)
  where
    fits : (top conn.channel_list + 1) % 2 ^ 32 ≡ top conn.channel_list + 1
    fits = omega (arith, small)

above-ne :
    (n : ℕ) (before : List Channel) (c : Channel) (after : List Channel)
    → Below n (before ++ (c ∷ after))
    → c.id < n
above-ne n [] c after b = b.0
above-ne n (d ∷ before) c after b = omega (arith, above-ne d.id before c after b.2, b.0)

channel_loop-found :
    (n : ℕ) (before : List Channel) (c : Channel) (after : List Channel) (cur : Option Channel)
    → Below n (before ++ (c ∷ after))
    → channel_loop (before ++ (c ∷ after)) cur c.id ≡ some c
unfolding channel_loop
channel_loop-found n [] c after cur b = ground arith
channel_loop-found n (d ∷ before) c after cur b =
    ground
      (arith, above-ne d.id before c after b.2, channel_loop-found d.id before c after (some d) b.2)

-- A message with the id of a registered channel, below 32768, reaches that channel.
pub connection_channel-found :
    (conn : Connection) (before : List Channel) (c : Channel) (after : List Channel)
    → conn.channel_list ≡ before ++ (c ∷ after)
    → IsRegistry (before ++ (c ∷ after))
    → c.id < 2 ^ 15
    → connection_channel conn c.id ≡ some c
unfolding connection_channel
connection_channel-found conn before c after e v small =
    rw (e, lt→ltb c.id (2 ^ 15) small)
      (channel_loop-found (suc (top (before ++ (c ∷ after)))) before c after none v.ordered)

-- No channel has the id.
abbrev pub NoId : ℕ → List Channel → Type 0
NoId id [] = Unit {0}
NoId id (c ∷ li) = (c.id ≢ id) × NoId id li

channel_loop-missing :
    (li : List Channel) (oldest : Channel) (cur : Option Channel) (id : ℕ)
    → NoId id (li ++ (oldest ∷ []))
    → channel_loop (li ++ (oldest ∷ [])) cur id ≡ some oldest
unfolding channel_loop
channel_loop-missing [] oldest cur id h = ground arith
channel_loop-missing (c ∷ li) oldest cur id h =
    ground (arith, channel_loop-missing li oldest (some c) id h.1)

-- On a connection that has channels, a message with an id below 32768 that none of them has reaches
-- the oldest channel, not none.
pub connection_channel-missing :
    (conn : Connection) (li : List Channel) (oldest : Channel) (id : ℕ)
    → conn.channel_list ≡ li ++ (oldest ∷ [])
    → NoId id (li ++ (oldest ∷ []))
    → id < 2 ^ 15
    → connection_channel conn id ≡ some oldest
unfolding connection_channel
connection_channel-missing conn li oldest id e h small =
    rw (e, lt→ltb id (2 ^ 15) small) (channel_loop-missing li oldest none id h)
