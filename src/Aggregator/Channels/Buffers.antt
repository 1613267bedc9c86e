-- ===== src/Aggregator/Channels/Buffers.antt =====
-- A write to the buffer of a channel of aggregator/main.c, through the pointer to the channel.
use compostela.Prelude.{
  ap, false, ◌≢◌, ◌++◌, ℕ, suc, ◌≡◌, List, [], ◌∷◌, arith, Bool-cases, inl, inr, ◌==◌,
}
use compostela.AzBuffer.{AzBuffer}
use compostela.Aggregator.Channels.{Channel, set_buffer}
use compostela.Aggregator.Channels.Registry.{IsRegistry, Below, NotAt, Apart, top}

-- An order of the ids, from any bound.
pub Below-top : (n : ℕ) (li : List Channel) → Below n li → Below (suc (top li)) li
Below-top n [] b = tt
Below-top n (c ∷ li) b = (omega arith, b.1, b.2)

-- `set_buffer`: ids and addresses stay.
set_buffer-Below :
    (n : ℕ) (li : List Channel) (self : ℕ) (b : AzBuffer)
    → Below n li
    → Below n (set_buffer li self b)
unfolding set_buffer
set_buffer-Below n [] self b h = tt
set_buffer-Below n (c ∷ li) self b h = elim (Bool-cases (self == c.self)) [
  | inl e ↦ rw e (h.0, h.1, h.2)
  | inr e ↦ rw e (h.0, h.1, set_buffer-Below c.id li self b h.2)
]

set_buffer-NotAt :
    (x : ℕ) (li : List Channel) (self : ℕ) (b : AzBuffer)
    → NotAt x li
    → NotAt x (set_buffer li self b)
unfolding set_buffer
set_buffer-NotAt x [] self b h = tt
set_buffer-NotAt x (c ∷ li) self b h = elim (Bool-cases (self == c.self)) [
  | inl e ↦ rw e (h.0, h.1)
  | inr e ↦ rw e (h.0, set_buffer-NotAt x li self b h.1)
]

set_buffer-Apart :
    (li : List Channel) (self : ℕ) (b : AzBuffer) → Apart li → Apart (set_buffer li self b)
unfolding set_buffer
set_buffer-Apart [] self b h = tt
set_buffer-Apart (c ∷ li) self b h = elim (Bool-cases (self == c.self)) [
  | inl e ↦ rw e (h.0, h.1)
  | inr e ↦ rw e (set_buffer-NotAt c.self li self b h.0, set_buffer-Apart li self b h.1)
]

pub set_buffer-IsRegistry :
    (li : List Channel) (self : ℕ) (b : AzBuffer)
    → IsRegistry li
    → IsRegistry (set_buffer li self b)
set_buffer-IsRegistry li self b v = record {
  ordered =
      Below-top (suc (top li)) (set_buffer li self b)
        (set_buffer-Below (suc (top li)) li self b v.ordered);
  apart = set_buffer-Apart li self b v.apart;
}

apart-NotAt :
    (before : List Channel) (c : Channel) (after : List Channel) (x : ℕ)
    → NotAt x (before ++ (c ∷ after))
    → x ≢ c.self
apart-NotAt [] c after x h = h.0
apart-NotAt (d ∷ before) c after x h = apart-NotAt before c after x h.1

-- The channel is the one with the address.
pub set_buffer-found :
    (before : List Channel) (c : Channel) (after : List Channel) (b : AzBuffer)
    → Apart (before ++ (c ∷ after))
    → set_buffer (before ++ (c ∷ after)) c.self b ≡ before ++ (record c { buffer = b } ∷ after)
unfolding set_buffer
set_buffer-found [] c after b h = ground arith
set_buffer-found (d ∷ before) c after b h =
    let other : d.self ≢ c.self = apart-NotAt before c after d.self h.0 in
    let further : (c.self == d.self) ≡ false = ground (arith, other) in
    rw further (ap (λ li. d ∷ li) (set_buffer-found before c after b h.1))
