-- ===== src/Prelude/Strings.antt =====
-- Functions of Go's `strings` on native strings.
use Prim.Native.Char.{Char, code}
use Prim.Native.String.{String, compare}
use Prim.Native.Nat.{Ordering}
use mathlib.Core.Bool.{Bool, true, false, ◌&&◌, ◌||◌}
use mathlib.Core.List.{List, [], ◌∷◌}
use text.Mathlib.Text.{◌==◌}
use lieutenant_operator.Prelude.Tests.{nat_eq, ltb, if◌then◌else◌}

-- `unicode.IsSpace`
unfoldable pub is_space : Char → Bool
is_space ch =
    let c = code ch in
    (ltb 8 c && ltb c 14)
    || nat_eq c 32
    || nat_eq c 0x85
    || nat_eq c 0xa0
    || nat_eq c 0x1680
    || (ltb 0x1fff c && ltb c 0x200b)
    || nat_eq c 0x2028
    || nat_eq c 0x2029
    || nat_eq c 0x202f
    || nat_eq c 0x205f
    || nat_eq c 0x3000

trim_left : String → String
unfolding is_space
trim_left String.[] = ""
trim_left (String.◌∷◌ c s) = let rest = trim_left s in if is_space c then rest else String.◌∷◌ c s

trim_right : String → String
unfolding is_space
trim_right String.[] = ""
trim_right (String.◌∷◌ c s) =
    let rest = trim_right s in if is_space c && rest == "" then "" else String.◌∷◌ c rest

-- `strings.TrimSpace`
unfoldable pub trim_space : String → String
unfolding trim_left trim_right
trim_space s = trim_right (trim_left s)

put : Char → List String → List String
put c [] = String.◌∷◌ c "" ∷ []
put c (s ∷ ss) = String.◌∷◌ c s ∷ ss

-- `strings.Split(s, sep)` at a separator of one character: never an empty list.
unfoldable pub split : String → Char → List String
unfolding put
split String.[] sep = "" ∷ []
split (String.◌∷◌ c s) sep =
    let rest = split s sep in if nat_eq (code c) (code sep) then "" ∷ rest else put c rest

-- `a < b`
abbrev pub str_ltb : String → String → Bool
str_ltb a b = elim (compare a b) [ Ordering.lt ↦ true | _ ↦ false ]
