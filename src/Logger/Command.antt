-- ===== src/Logger/Command.antt =====
-- The command that logger/main.c sends, and what follower/main.c makes of it.
use compostela.Prelude.{ℕ, List, ◌∷◌, ◌++◌}
use compostela.Prelude.Text.{codes}
use compostela.AzBuffer.{AzBuffer}
use compostela.AzBuffer.Holds.{Holds}

-- The command without its last character.
abbrev pub command : List ℕ → List ℕ → List ℕ
command tag path = codes "OPEN -d " ++ (tag ++ (b' ' ∷ path ++ codes "\r"))
