-- ===== src/Prelude/Paths.antt =====
-- Functions of Go's `path`: `Clean`, `Join` and `Dir` on paths with slashes.
use Prim.Native.Char.{code}
use Prim.Native.String.{String}
use mathlib.Core.Bool.{Bool, false, ◌||◌}
use mathlib.Core.List.{List, [], ◌∷◌}
use text.Mathlib.Text.{◌==◌}
use lieutenant_operator.Prelude.Tests.{nat_eq, ◌<>◌, if◌then◌else◌}
use lieutenant_operator.Prelude.Strings.{split}

-- The path starts at the root.
unfoldable pub is_rooted : String → Bool
is_rooted String.[] = false
is_rooted (String.◌∷◌ c s) = nat_eq (code c) b'/'

-- An element `..`: it takes the last element with it, if there is one to take.
abbrev pub back_out : Bool → List String → List String
back_out rooted [] = if rooted then [] else ".." ∷ []
back_out rooted (x ∷ xs) = if x == ".." then ".." ∷ x ∷ xs else xs

-- The elements that are kept, the last one first.
unfoldable pub keep_elements : Bool → List String → List String → List String
keep_elements rooted kept [] = kept
keep_elements rooted kept (e ∷ es) =
    keep_elements rooted
      (if e == "" || e == "." then kept else if e == ".." then back_out rooted kept else e ∷ kept)
      es

-- The elements joined by slashes; they are given the last one first.
unfoldable pub joined : List String → String → String
joined [] tail = tail
joined (e ∷ es) tail = joined es (if tail == "" then e else e <> "/" <> tail)

-- `path.Clean`
unfoldable pub clean : String → String
unfolding is_rooted keep_elements joined
clean s =
    let rooted = is_rooted s in
    let body = joined (keep_elements rooted [] (split s "/")) "" in
    if rooted then "/" <> body else if body == "" then "." else body

unfoldable pub with_slashes : List String → String
with_slashes [] = ""
with_slashes (e ∷ es) =
    let rest = with_slashes es in
    if e == "" then rest else if rest == "" then e else e <> "/" <> rest

-- `path.Join`: empty elements do not count.
unfoldable pub join_path : List String → String
unfolding with_slashes clean
join_path es = let s = with_slashes es in if s == "" then "" else clean s

-- The path up to its last slash, which stays.
unfoldable pub up_to_slash : List String → String
up_to_slash [] = ""
up_to_slash (e ∷ []) = ""
up_to_slash (e ∷ (f ∷ es)) = e <> "/" <> up_to_slash (f ∷ es)

-- `path.Dir`
unfoldable pub dir : String → String
unfolding up_to_slash clean
dir s = clean (up_to_slash (split s "/"))
