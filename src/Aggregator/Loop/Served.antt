-- ===== src/Aggregator/Loop/Served.antt =====
-- What the handlers of aggregator/main.c leave of the channels of a connection.
use compostela.Prelude.{
  ℕ, suc, ◌*◌, ◌≤◌, ◌≡◌, refl, subst, sym, ◌∙◌, List, [], ◌∷◌, Option, none, some, arith,
  Bool-cases, inl, inr, ◌==◌,
}
use compostela.AzList
use compostela.AzList.Laws.{Thinned, delete-Thinned}
use compostela.AzBuffer.{AzBuffer}
use compostela.AzBuffer.Holds.{Holds}
use compostela.Aggregator.Channels.{
  Channel, Connection, set_buffer, connection_channel, channel_loop, same_channel,
}
use compostela.Aggregator.Channels.Buffers.{Below-top, set_buffer-IsRegistry}
use compostela.Aggregator.Channels.Registry.{IsRegistry, Below, Below-mono, NotAt, Apart, top}

-- The buffer of a channel holds something, and its block is no larger than the bound, which leaves
-- 8192 bytes for each id up to that of the channel.
abbrev pub IsSound : ℕ → Channel → Type 0
IsSound size c = ((q : List ℕ) × Holds c.buffer q) × (c.buffer.size ≤ size) × (c.id * 8192 ≤ size)

abbrev pub AllHold : ℕ → List Channel → Type 0
AllHold size [] = Unit {0}
AllHold size (c ∷ li) = IsSound size c × AllHold size li

-- The channels of a connection as they should be.
pub record IsServed (size : ℕ) (li : List Channel) : Type 0 where
  pub registry : IsRegistry li
  pub buffers : AllHold size li

pub AllHold-mono : {m n : ℕ} (li : List Channel) → m ≤ n → AllHold m li → AllHold n li
AllHold-mono [] h a = tt
AllHold-mono (c ∷ li) h a =
    ((a.0.0, omega (arith, h, a.0.1), omega (arith, h, a.0.2)), AllHold-mono li h a.1)

set_buffer-AllHold :
    {size : ℕ} {q : List ℕ} (li : List Channel) (self : ℕ) (b : AzBuffer)
    → Holds b q
    → b.size ≤ size
    → AllHold size li
    → AllHold size (set_buffer li self b)
unfolding set_buffer
set_buffer-AllHold [] self b holds fits h = tt
set_buffer-AllHold {size} {q} (c ∷ li) self b holds fits h = elim (Bool-cases (self == c.self)) [
  | inl e ↦ rw e (((q, holds), fits, h.0.2), h.1)
  | inr e ↦ rw e (h.0, set_buffer-AllHold li self b holds fits h.1)
]

pub set_buffer-IsServed :
    {size : ℕ} {q : List ℕ} (li : List Channel) (self : ℕ) (b : AzBuffer)
    → Holds b q
    → b.size ≤ size
    → IsServed size li
    → IsServed size (set_buffer li self b)
set_buffer-IsServed li self b holds fits v = record {
  registry = set_buffer-IsRegistry li self b v.registry;
  buffers = set_buffer-AllHold li self b holds fits v.buffers;
}

-- `az_list_delete` of a channel: the others stay in order.
Thinned-Below : (n : ℕ) {li left : List Channel} → Thinned li left → Below n li → Below n left
Thinned-Below n (Thinned.here c li) h = Below-mono li (omega arith) h.2
Thinned-Below n (Thinned.there c rest) h = (h.0, h.1, Thinned-Below c.id rest h.2)

Thinned-NotAt : (x : ℕ) {li left : List Channel} → Thinned li left → NotAt x li → NotAt x left
Thinned-NotAt x (Thinned.here c li) h = h.1
Thinned-NotAt x (Thinned.there c rest) h = (h.0, Thinned-NotAt x rest h.1)

Thinned-Apart : {li left : List Channel} → Thinned li left → Apart li → Apart left
Thinned-Apart (Thinned.here c li) h = h.1
Thinned-Apart (Thinned.there c rest) h = (Thinned-NotAt c.self rest h.0, Thinned-Apart rest h.1)

Thinned-AllHold :
    (size : ℕ) {li left : List Channel} → Thinned li left → AllHold size li → AllHold size left
Thinned-AllHold size (Thinned.here c li) h = h.1
Thinned-AllHold size (Thinned.there c rest) h = (h.0, Thinned-AllHold size rest h.1)

pub delete-IsServed :
    {size : ℕ} (li : List Channel) (self : ℕ) {left : List Channel}
    → AzList.delete (same_channel self) li ≡ some left
    → IsServed size li
    → IsServed size left
delete-IsServed {size} li self {left} e v =
    let thin = delete-Thinned (same_channel self) li e in
    record {
      registry = record {
        ordered =
            Below-top (suc (top li)) left (Thinned-Below (suc (top li)) thin v.registry.ordered);
        apart = Thinned-Apart thin v.registry.apart;
      };
      buffers = Thinned-AllHold size thin v.buffers;
    }

-- The channel that a message reaches has a buffer in order.
channel_loop-Holds :
    {size : ℕ} (li : List Channel) (cur : Option Channel) (id : ℕ) {c : Channel}
    → AllHold size li
    → ((d : Channel) → cur ≡ some d → IsSound size d)
    → channel_loop li cur id ≡ some c
    → IsSound size c
unfolding channel_loop
channel_loop-Holds [] cur id {c} h now e = now c e
channel_loop-Holds {size} (d ∷ li) cur id {c} h now e = elim (Bool-cases (d.id == id)) [
  | inl same ↦ let it : d ≡ c = ground (arith, same, e) in subst (IsSound size) it h.0
  | inr other ↦
      channel_loop-Holds li (some d) id h.1
        (λ k at. let it : d ≡ k = ground (arith, at) in subst (IsSound size) it h.0)
        (sym (rw other refl) ∙ e)
]

pub connection_channel-Holds :
    {size : ℕ} (conn : Connection) (id : ℕ) {c : Channel}
    → IsServed size conn.channel_list
    → connection_channel conn id ≡ some c
    → IsSound size c
unfolding connection_channel
connection_channel-Holds conn id v e =
    channel_loop-Holds conn.channel_list none _ v.buffers (λ d at. absurd (ground (arith, at))) e

pub IsServed-mono : {m n : ℕ} (li : List Channel) → m ≤ n → IsServed m li → IsServed n li
IsServed-mono li h v = record { registry = v.registry; buffers = AllHold-mono li h v.buffers }
