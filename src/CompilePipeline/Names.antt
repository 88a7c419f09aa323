-- ===== src/CompilePipeline/Names.antt =====
-- The functions of Go's `sort`, `strings` and `slices` on cluster names.
use Prim.Native.Char.{code}
use Prim.Native.String.{compare}
use Prim.Native.Nat.{Ordering}
use lieutenant_operator.Prelude.{
  String, Bool, true, false, ◌&&◌, List, [], ◌∷◌, ◌==◌, ◌<>◌, nat_eq, if◌then◌else◌,
}

-- The order of strings by bytes.
abbrev pub str_leb : String → String → Bool
str_leb a b = elim (compare a b) [ Ordering.gt ↦ false | _ ↦ true ]

unfoldable pub insert_sorted : String → List String → List String
insert_sorted s [] = s ∷ []
insert_sorted s (t ∷ ts) = if str_leb s t then s ∷ t ∷ ts else t ∷ insert_sorted s ts

-- `sort.Strings`: equal strings cannot be told apart, so any sorting gives this list.
unfoldable pub sort_strings : List String → List String
unfolding insert_sorted
sort_strings [] = []
sort_strings (s ∷ ss) = insert_sorted s (sort_strings ss)

-- `strings.Join`
unfoldable pub join : List String → String → String
join [] sep = ""
join (s ∷ []) sep = s
join (s ∷ (t ∷ ts)) sep = s <> sep <> join (t ∷ ts) sep

-- `strings.Replace(s, "-", "_", -1)`
unfoldable pub replace_dashes : String → String
replace_dashes String.[] = ""
replace_dashes (String.◌∷◌ c s) =
    let rest = replace_dashes s in
    if nat_eq (code c) b'-' then String.◌∷◌ "_" rest else String.◌∷◌ c rest

-- `slices.Equal`
abbrev pub strings_equal : List String → List String → Bool
strings_equal [] [] = true
strings_equal [] (y ∷ ys) = false
strings_equal (x ∷ xs) [] = false
strings_equal (x ∷ xs) (y ∷ ys) = x == y && strings_equal xs ys
