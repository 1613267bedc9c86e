-- ===== src/Supports/Tests.antt =====
-- The path helpers of common/supports.c, after tests/supports_tests.c.
use compostela.Prelude.{◌≡◌, refl, [], ◌∷◌, ◌++◌, none, some, arith, map, take}
use compostela.Prelude.Text.{codes}
use compostela.Supports.{path_room, pathcat, pathcat_loop, with_slash, ends_in_slash}
use compostela.Supports.Paths.{pathcat-join}

joined : pathcat (codes "/a/") (some (codes "b") ∷ none ∷ []) ≡ some (codes "/a/b")
unfolding pathcat pathcat_loop with_slash ends_in_slash
joined = refl

-- A host behind a directory, and a name with a slash of its own.
pathcat-join_example :
    pathcat (codes "l") (map some (codes "h" ∷ []) ++ (some (codes "/f") ∷ []))
    ≡ some (take path_room (codes "l/h//f"))
pathcat-join_example = pathcat-join b'l' [] (codes "h" ∷ []) (codes "/f") (omega arith)
