-- ===== src/Prelude/PathTests.antt =====
-- Go's documented answers of `path` at concrete paths.
use mathlib.Core.Path.{◌≡◌, refl}
use mathlib.Core.List.{[], ◌∷◌}
use lieutenant_operator.Prelude.Strings.{split}
use lieutenant_operator.Prelude.Paths.{join_path, dir}

join_plain : join_path ("kv" ∷ "data" ∷ "t-acme/c-1/steward" ∷ []) ≡ "kv/data/t-acme/c-1/steward"
unfolding join_path split
join_plain = refl

join_dots : join_path ("a/" ∷ "" ∷ "../b" ∷ "./c//d" ∷ []) ≡ "b/c/d"
unfolding join_path split
join_dots = refl

join_root : join_path ("/" ∷ "../a/" ∷ []) ≡ "/a"
unfolding join_path split
join_root = refl

dir_plain : dir "t-acme/c-1/steward" ≡ "t-acme/c-1"
unfolding dir split
dir_plain = refl

dir_none : dir "steward" ≡ "."
unfolding dir split
dir_none = refl
