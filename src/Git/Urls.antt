-- ===== src/Git/Urls.antt =====
-- net/url, as far as the code takes a URL apart. Parsing and printing are left to the parameter.
use Prim.Native.Char.{Char, code}
use lieutenant_operator.Prelude.{
  String, Bool, true, false, Option, none, some, nat_eq, if◌then◌else◌,
}
use lieutenant_operator.Errors.{Outcome}

-- `url.URL`: the parts that the code reads or sets, and those that it carries along.
pub record Url : Type 0 where
  pub scheme : String
  pub user : String
  pub host : String
  pub path : String
  pub raw_path : String
  pub query : String
  pub fragment : String

-- `url.Parse` and `URL.String`
pub record UrlLibrary : Type 0 where
  pub parse : String → Outcome Url
  pub to_text : Url → String

-- The text before the first of these characters, or all of it.
unfoldable pub before_first : Char → String → String
before_first c String.[] = ""
before_first c (String.◌∷◌ d s) =
    let rest = before_first c s in if nat_eq (code d) (code c) then "" else String.◌∷◌ d rest

-- The text behind the first of these characters, if there is one.
unfoldable pub after_first : Char → String → Option String
after_first c String.[] = none
after_first c (String.◌∷◌ d s) =
    let rest = after_first c s in if nat_eq (code d) (code c) then some s else rest

-- The character is in the text.
unfoldable pub has_char : Char → String → Bool
has_char c String.[] = false
has_char c (String.◌∷◌ d s) =
    let rest = has_char c s in if nat_eq (code d) (code c) then true else rest

-- The text behind the last of these characters, or all of it.
unfoldable pub after_last : Char → String → String
unfolding has_char
after_last c String.[] = ""
after_last c (String.◌∷◌ d s) =
    let rest = after_last c s in
    if has_char c s then rest else if nat_eq (code d) (code c) then s else String.◌∷◌ d s
