-- ===== src/AzList.antt =====
-- common/azlist.c: the singly linked list, as the sequence of its objects. `none` is a dereference
-- of the null pointer. Cells are taken to be available: `malloc` of a cell succeeds.
pub mod Laws
mod Tests
use compostela.Prelude.{
  ℕ, List, [], ◌∷◌, Option, none, some, ◌>>=◌, Bool, true, false, if◌then◌else◌,
}

module _ {ℓ} {A : Type ℓ} where
  unfoldable pub add : List A → A → List A
  add li object = object ∷ li

  -- `same` tells the object looked for, by its address. The end of the list is dereferenced.
  unfoldable pub delete : (A → Bool) → List A → Option (List A)
  delete same [] = none
  delete same (x ∷ li) =
      let rest = delete same li in if same x then some li else (rest >>= λ r. some (x ∷ r))

  -- The loop: `top` is reversed already.
  pub reverse_loop : List A → List A → List A
  reverse_loop top [] = top
  reverse_loop top (x ∷ i) = reverse_loop (x ∷ top) i

  unfoldable pub reverse : List A → List A
  unfolding reverse_loop
  reverse [] = []
  reverse (x ∷ li) = reverse_loop (x ∷ []) li

  -- The walk stops where `func` returns something other than 0 (`true` here).
  unfoldable pub foreach {κ} : {S : Type κ} → List A → (A → S → S × Bool) → S → S
  foreach [] func state = state
  foreach (x ∷ li) func state =
      let (state', stop) = func x state in
      let rest = foreach li func state' in if stop then state' else rest

  unfoldable pub find_ex : List A → (A → Bool) → Option A
  find_ex [] func = none
  find_ex (x ∷ li) func = if func x then some x else find_ex li func
