-- ===== src/AzList/Laws.antt =====
-- What the list of common/azlist.c does with its objects.
use mathlib.Core.List
use mathlib.Core.List.{Perm, perm_middle, reverse-cons}
use mathlib.Core.List.Perm
use compostela.Prelude.{
  ◌≡◌, refl, sym, ap, ◌∙◌, List, [], ◌∷◌, ◌++◌, append_assoc, none, some, Bool, true, false, subst,
  arith, Bool-cases, inl, inr, >>=-eq-some,
}
use compostela.AzList.{delete, reverse, reverse_loop, find_ex}

module _ {ℓ} {A : Type ℓ} where
  reverse_loop-eq : (top i : List A) → reverse_loop top i ≡ List.reverse i ++ top
  unfolding reverse_loop
  reverse_loop-eq top [] = refl
  reverse_loop-eq top (x ∷ i) =
      reverse_loop-eq (x ∷ top) i
      ∙ sym (append_assoc (List.reverse i) (x ∷ []) top)
      ∙ ap (λ t. t ++ top) (sym (reverse-cons x i))

  -- `az_list_reverse` gives the objects in the opposite order.
  pub reverse_lem : (li : List A) → reverse li ≡ List.reverse li
  unfolding reverse
  reverse_lem [] = refl
  reverse_lem (x ∷ li) = reverse_loop-eq (x ∷ []) li ∙ sym (reverse-cons x li)

  -- No object of the list is the one looked for.
  abbrev pub Absent : (A → Bool) → List A → Type 0
  Absent same [] = Unit {0}
  Absent same (x ∷ li) = (same x ≡ false) × Absent same li

  -- `az_list_delete` of an object that the list has takes out the first cell with it and keeps the
  -- rest in order.
  pub delete-present :
      (same : A → Bool) (before : List A) (x : A) (after : List A)
      → Absent same before
      → same x ≡ true
      → delete same (before ++ (x ∷ after)) ≡ some (before ++ after)
  unfolding delete
  delete-present same [] x after h e = rw e
  delete-present same (y ∷ before) x after h e = rw (h.0, delete-present same before x after h.1 e)

  -- `az_list_delete` of an object that the list does not have dereferences the null pointer at its
  -- end.
  pub delete-Absent : (same : A → Bool) (li : List A) → Absent same li → delete same li ≡ none
  unfolding delete
  delete-Absent same [] h = refl
  delete-Absent same (x ∷ li) h = rw (h.0, delete-Absent same li h.1)

  -- What a deletion leaves: the list without one of its objects.
  pub data Thinned : List A → List A → Type ℓ where
    here : (x : A) (li : List A) → Thinned (x ∷ li) li
    there : (x : A) {li left : List A} → Thinned li left → Thinned (x ∷ li) (x ∷ left)

  pub delete-Thinned :
      (same : A → Bool) (li : List A) {left : List A} → delete same li ≡ some left → Thinned li left
  unfolding delete
  delete-Thinned same [] e = cc
  delete-Thinned same (x ∷ li) {left} e = elim (Bool-cases (same x)) [
    | inl found ↦ subst (Thinned (x ∷ li)) (ground (arith, found, e)) (Thinned.here x li)
    | inr other ↦
        let rest = >>=-eq-some (delete same li) (λ r. some (x ∷ r)) (sym (rw other refl) ∙ e) in
        subst (Thinned (x ∷ li)) (ground (arith, rest.2))
          (Thinned.there x (delete-Thinned same li rest.1))
  ]

  -- `az_list_find_ex` returns the first object that the function accepts.
  pub find_ex-first :
      (func : A → Bool) (before : List A) (x : A) (after : List A)
      → Absent func before
      → func x ≡ true
      → find_ex (before ++ (x ∷ after)) func ≡ some x
  unfolding find_ex
  find_ex-first func [] x after h e = rw e
  find_ex-first func (y ∷ before) x after h e = rw (h.0) (find_ex-first func before x after h.1 e)
