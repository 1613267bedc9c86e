-- ===== src/Supports/Paths.antt =====
-- The paths that `pathcat` of common/supports.c joins.
use compostela.Prelude.{
  ℕ, ◌+◌, ◌≤◌, ◌<◌, ◌≡◌, refl, sym, ap, List, [], ◌∷◌, ◌++◌, some, length, leb, ◌==◌, if◌then◌else◌,
  arith, length-append, take, map, inl, inr, Bool-cases, leb→le, le→leb, lt→ltb, take_all, subst,
  true, false, ◌⊎◌,
}
use compostela.Supports.{path_room, ends_in_slash, with_slash, pathcat, pathcat_loop}

-- A text with a slash at its end.
abbrev pub slashed : List ℕ → List ℕ
slashed [] = b'/' ∷ []
slashed (c ∷ []) = if c == b'/' then c ∷ [] else c ∷ b'/' ∷ []
slashed (c ∷ d ∷ cs) = c ∷ slashed (d ∷ cs)

-- The parts behind a directory, with a slash put behind what does not end in one.
abbrev pub join : List ℕ → List (List ℕ) → List ℕ
join p [] = p
join p (s ∷ parts) = join (slashed p ++ s) parts

length-slashed : (p : List ℕ) → length p ≤ length (slashed p)
length-slashed [] = omega arith
length-slashed (c ∷ []) = elim (Bool-cases (c == b'/')) [
  | inl e ↦ rw e (omega arith)
  | inr e ↦ rw e (omega arith)
]
length-slashed (c ∷ d ∷ cs) = omega (arith, length-slashed (d ∷ cs))

length-join : (p : List ℕ) (parts : List (List ℕ)) → length p ≤ length (join p parts)
length-join p [] = omega arith
length-join p (s ∷ parts) =
    omega (arith, length-slashed p, length-append (slashed p) s, length-join (slashed p ++ s) parts)

with_slash-cons :
    (c : ℕ) (cs : List ℕ)
    → (ends_in_slash (c ∷ cs) ≡ some true) × (slashed (c ∷ cs) ≡ c ∷ cs)
      ⊎ (ends_in_slash (c ∷ cs) ≡ some false) × (slashed (c ∷ cs) ≡ c ∷ (cs ++ (b'/' ∷ [])))
unfolding ends_in_slash
with_slash-cons c [] = elim (Bool-cases (c == b'/')) [
  | inl e ↦ inl (rw e refl, rw e refl)
  | inr e ↦ inr (rw e refl, rw e refl)
]
with_slash-cons c (d ∷ cs) = elim (with_slash-cons d cs) [
  | inl (ends, same) ↦ inl (ends, ap (λ t. c ∷ t) same)
  | inr (ends, same) ↦ inr (ends, ap (λ t. c ∷ t) same)
]

with_slash-slashed :
    (c : ℕ) (cs : List ℕ)
    → length (c ∷ cs) < path_room
    → with_slash (c ∷ cs) ≡ some (slashed (c ∷ cs))
unfolding with_slash
with_slash-slashed c cs small = elim (with_slash-cons c cs) [
  | inl (ends, same) ↦ rw (with_slash, ends, same) refl
  | inr (ends, same) ↦ rw (with_slash, ends, same, room) refl
]
  where
    room : leb (length (c ∷ cs) + 1) path_room ≡ true
    room = le→leb _ _ (omega (arith, small))

pathcat_loop-join :
    (before : List (List ℕ)) (c : ℕ) (cs s : List ℕ)
    → length (join (c ∷ cs) before) < path_room
    → pathcat_loop (c ∷ cs) (map some before ++ (some s ∷ []))
      ≡ some (take path_room (join (c ∷ cs) (before ++ (s ∷ []))))
unfolding pathcat_loop
pathcat_loop-join [] c cs s small =
    let q : List ℕ = slashed (c ∷ cs) in
    elim (Bool-cases (leb (length q + length s) path_room)) [
      | inl fits ↦
          rw (pathcat_loop, with_slash-slashed c cs small, fits)
            (ap some (sym (take_all path_room (q ++ s) (whole q fits))))
      | inr long ↦ rw (pathcat_loop, with_slash-slashed c cs small, long) refl
    ]
  where
    whole : (q : List ℕ) → leb (length q + length s) path_room ≡ true → length (q ++ s) ≤ path_room
    whole q e = omega (arith, leb→le _ _ e, length-append q s)
pathcat_loop-join (t ∷ before) c cs s small =
    by_cons (slashed (c ∷ cs) ++ t) refl (λ d q h. pathcat_loop-join before d q s h)
  where
    fits : (q : List ℕ) → slashed (c ∷ cs) ++ t ≡ q → length q < path_room
    fits q e = omega (arith, ap length e, length-join (slashed (c ∷ cs) ++ t) before, small)

    by_cons :
        (q : List ℕ)
        → slashed (c ∷ cs) ++ t ≡ q
        → ((d : ℕ) (q' : List ℕ)
            → length (join (d ∷ q') before) < path_room
            → pathcat_loop (d ∷ q') (map some before ++ (some s ∷ []))
              ≡ some (take path_room (join (d ∷ q') (before ++ (s ∷ [])))))
        → pathcat_loop (c ∷ cs) (map some (t ∷ before) ++ (some s ∷ []))
          ≡ some (take path_room (join (slashed (c ∷ cs) ++ t) (before ++ (s ∷ []))))
    by_cons [] e ih =
        absurd
          (omega (arith, ap length e, length-slashed (c ∷ cs), length-append (slashed (c ∷ cs)) t))
    by_cons (d ∷ q) e ih =
        rw
          (
            pathcat_loop,
            with_slash-slashed c cs (
                omega (
                  arith,
                  small,
                  length-slashed (c ∷ cs),
                  length-append (slashed (c ∷ cs)) t,
                  length-join (slashed (c ∷ cs) ++ t) before,
                )),
            room,
            e,
          )
          (ih d q (subst (λ p. length (join p before) < path_room) e small))
      where
        room : leb (length (slashed (c ∷ cs)) + length t) path_room ≡ true
        room =
            le→leb _ _
              (omega (arith, length-append (slashed (c ∷ cs)) t, ap length e, fits (d ∷ q) e))

-- A directory that is not empty and any parts behind it, which leave room in the buffer of `PATH_MAX`
-- for one more: `pathcat` joins them and the one more, with a slash put behind what does not end in
-- one, and cuts the path to the 4095 bytes that fit the buffer with its NUL.
pub pathcat-join :
    (c : ℕ) (cs : List ℕ) (before : List (List ℕ)) (s : List ℕ)
    → length (join (c ∷ cs) before) < path_room
    → pathcat (c ∷ cs) (map some before ++ (some s ∷ []))
      ≡ some (take path_room (join (c ∷ cs) (before ++ (s ∷ []))))
unfolding pathcat
pathcat-join c cs before s small =
    rw
      (
        pathcat,
        lt→ltb (length (c ∷ cs)) path_room (omega (arith, small, length-join (c ∷ cs) before)),
      )
      (pathcat_loop-join before c cs s small)
