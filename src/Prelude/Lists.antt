-- ===== src/Prelude/Lists.antt =====
-- Lists measured and indexed by native numbers, under the library's names.
use Prim.Native.Nat.{ℕ, zero, suc, ◌+◌, ◌-◌, ◌≤◌, min}
use mathlib.Core.Path.{◌≡◌, refl, ap}
use mathlib.Core.List.{List, [], ◌∷◌, ◌++◌}
use mathlib.Core.Option.{Option, none, some}
use native.Mathlib.Omega.{arith}

module _ {ℓ} {A : Type ℓ} where
  abbrev pub length : List A → ℕ
  length [] = 0
  length (x ∷ xs) = suc (length xs)

  abbrev pub get_elem? : List A → ℕ → Option A
  get_elem? [] i = none
  get_elem? (x ∷ xs) zero = some x
  get_elem? (x ∷ xs) (suc i) = get_elem? xs i

  abbrev pub take : ℕ → List A → List A
  take zero xs = []
  take (suc n) [] = []
  take (suc n) (x ∷ xs) = x ∷ take n xs

  abbrev pub drop : ℕ → List A → List A
  drop zero xs = xs
  drop (suc n) [] = []
  drop (suc n) (x ∷ xs) = drop n xs

  pub length-append : (xs ys : List A) → length (xs ++ ys) ≡ length xs + length ys
  length-append [] ys = omega arith
  length-append (x ∷ xs) ys = omega (arith, length-append xs ys)

  pub take-append-drop : (n : ℕ) (xs : List A) → take n xs ++ drop n xs ≡ xs
  take-append-drop zero xs = refl
  take-append-drop (suc n) [] = refl
  take-append-drop (suc n) (x ∷ xs) = ap (λ t. x ∷ t) (take-append-drop n xs)

  pub length-take : (n : ℕ) (xs : List A) → length (take n xs) ≡ min n (length xs)
  length-take zero xs = omega arith
  length-take (suc n) [] = omega arith
  length-take (suc n) (x ∷ xs) = omega (arith, length-take n xs)

  pub length-drop : (n : ℕ) (xs : List A) → length (drop n xs) ≡ length xs - n
  length-drop zero xs = omega arith
  length-drop (suc n) [] = omega arith
  length-drop (suc n) (x ∷ xs) = omega (arith, length-drop n xs)

  -- What a `take` or a `drop` of exactly the first part gives.
  pub take-append : (xs ys : List A) (n : ℕ) → n ≡ length xs → take n (xs ++ ys) ≡ xs
  take-append [] ys zero h = refl
  take-append [] ys (suc n) h = absurd (omega arith)
  take-append (x ∷ xs) ys zero h = absurd (omega arith)
  take-append (x ∷ xs) ys (suc n) h = ap (λ t. x ∷ t) (take-append xs ys n (omega arith))

  pub drop-append : (xs ys : List A) (n : ℕ) → n ≡ length xs → drop n (xs ++ ys) ≡ ys
  drop-append [] ys zero h = refl
  drop-append [] ys (suc n) h = absurd (omega arith)
  drop-append (x ∷ xs) ys zero h = absurd (omega arith)
  drop-append (x ∷ xs) ys (suc n) h = drop-append xs ys n (omega arith)

  pub take_all : (n : ℕ) (xs : List A) → length xs ≤ n → take n xs ≡ xs
  take_all zero [] h = refl
  take_all zero (x ∷ xs) h = absurd (omega arith)
  take_all (suc n) [] h = refl
  take_all (suc n) (x ∷ xs) h = ap (λ t. x ∷ t) (take_all n xs (omega arith))

  pub drop_all : (n : ℕ) (xs : List A) → length xs ≤ n → drop n xs ≡ []
  drop_all zero [] h = refl
  drop_all zero (x ∷ xs) h = absurd (omega arith)
  drop_all (suc n) [] h = refl
  drop_all (suc n) (x ∷ xs) h = drop_all n xs (omega arith)

  pub length-eq-zero : (xs : List A) → length xs ≡ 0 → xs ≡ []
  length-eq-zero [] h = refl
  length-eq-zero (x ∷ xs) h = absurd (omega arith)

  -- `take` and `drop` across the joint of two lists.
  pub take-append_over :
      (xs ys : List A) (n k : ℕ) → n ≡ length xs + k → take n (xs ++ ys) ≡ xs ++ take k ys
  take-append_over [] ys n k h = ap (λ m. take m ys) (omega arith)
  take-append_over (x ∷ xs) ys zero k h = absurd (omega arith)
  take-append_over (x ∷ xs) ys (suc n) k h =
      ap (λ t. x ∷ t) (take-append_over xs ys n k (omega arith))

  pub drop-append_over :
      (xs ys : List A) (n k : ℕ) → n ≡ length xs + k → drop n (xs ++ ys) ≡ drop k ys
  drop-append_over [] ys n k h = ap (λ m. drop m ys) (omega arith)
  drop-append_over (x ∷ xs) ys zero k h = absurd (omega arith)
  drop-append_over (x ∷ xs) ys (suc n) k h = drop-append_over xs ys n k (omega arith)

  pub take-append_within : (xs ys : List A) (n : ℕ) → n ≤ length xs → take n (xs ++ ys) ≡ take n xs
  take-append_within [] ys zero h = refl
  take-append_within [] ys (suc n) h = absurd (omega arith)
  take-append_within (x ∷ xs) ys zero h = refl
  take-append_within (x ∷ xs) ys (suc n) h =
      ap (λ t. x ∷ t) (take-append_within xs ys n (omega arith))

  pub drop-append_within :
      (xs ys : List A) (n : ℕ) → n ≤ length xs → drop n (xs ++ ys) ≡ drop n xs ++ ys
  drop-append_within [] ys zero h = refl
  drop-append_within [] ys (suc n) h = absurd (omega arith)
  drop-append_within (x ∷ xs) ys zero h = refl
  drop-append_within (x ∷ xs) ys (suc n) h = drop-append_within xs ys n (omega arith)
