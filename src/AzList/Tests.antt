-- ===== src/AzList/Tests.antt =====
-- The list of common/azlist.c on short lists.
use compostela.Prelude.{◌≡◌, refl, [], ◌∷◌, none, some, ◌==◌, ℕ}
use compostela.AzList.{delete, reverse, reverse_loop}

deletes : delete (λ x. x == 2) (1 ∷ 2 ∷ 3 ∷ []) ≡ some (1 ∷ 3 ∷ [])
unfolding delete
deletes = refl

misses : delete (λ x. x == 4) (1 ∷ 2 ∷ 3 ∷ []) ≡ none
unfolding delete
misses = refl

reverses : reverse {A = ℕ} (1 ∷ 2 ∷ 3 ∷ []) ≡ 3 ∷ 2 ∷ 1 ∷ []
unfolding reverse reverse_loop
reverses = refl
