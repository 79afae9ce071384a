-- ===== src/Plans/Healing/Words.antt =====
-- The string methods that `classify` of src/brain/agent/self-heal-loop.service.ts uses.
use zxql_ai.Prelude.{Bool, if◌then◌else◌, nat_beq, leb}
use Prim.Native.Char.{Char, code}
use Prim.Native.String.{String, [], ◌∷◌, find, len}

-- The letter of the second text at the place that a letter has in the first.
abbrev letter : String → String → Char → Char
letter [] lower c = c
letter (u ∷ upper) [] c = c
letter (u ∷ upper) (l ∷ lower) c =
    let rest = letter upper lower c in if nat_beq (code u) (code c) then l else rest

unfoldable pub to_lower_case : String → String
to_lower_case [] = []
to_lower_case (c ∷ s) =
    letter "ABCDEFGHIJKLMNOPQRSTUVWXYZ" "abcdefghijklmnopqrstuvwxyz" c ∷ to_lower_case s

unfoldable pub includes : String → String → Bool
includes s t = leb (find s t) (len s)
