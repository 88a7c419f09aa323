-- ===== src/Gitlab/Implementation/Addresses.antt =====
-- The address of a project for SSH.
use Prim.Native.Char.{code}
use Prim.Native.String.append
use lieutenant_operator.Prelude.{
  String, ◌≡◌, refl, true, false, some, ◌==◌, ◌<>◌, nat_eq, Bool-cases, inl, inr,
}
use lieutenant_operator.Git.Urls.{has_char, after_first}
use lieutenant_operator.Gitlab.{Gitlab}
use lieutenant_operator.Gitlab.Implementation.{strip_slash, without_host, full_url}

after_first-append :
    (h rest : String) → has_char "/" h ≡ false → after_first "/" (h <> "/" <> rest) ≡ some rest
unfolding after_first has_char
after_first-append String.[] rest n =
    rw (append.nil ("/" <> rest), append.cons "/" "" rest, append.nil rest) refl
after_first-append (String.◌∷◌ c h) rest n = elim (Bool-cases (nat_eq (code c) b'/')) [
  | inl y ↦ let never : true ≡ false = rw y at n in absurd (cc)
  | inr f ↦ rw (append.cons c h ("/" <> rest), f) (after_first-append h rest (rw f at n))
]

strip_slash-append :
    (h rest : String)
    → (h == "") ≡ false
    → has_char "/" h ≡ false
    → strip_slash (h <> rest) ≡ h <> rest
unfolding strip_slash has_char
strip_slash-append String.[] rest e n = absurd (cc)
strip_slash-append (String.◌∷◌ c h) rest e n = elim (Bool-cases (nat_eq (code c) b'/')) [
  | inl y ↦ let never : true ≡ false = rw y at n in absurd (cc)
  | inr f ↦ rw (append.cons c h rest, f) refl
]

-- A host that is not empty is taken off the path.
without_host-append :
    (h rest : String)
    → (h == "") ≡ false
    → has_char "/" h ≡ false
    → without_host (h <> "/" <> rest) ≡ "/" <> rest
unfolding without_host
without_host-append h rest e n =
    rw (without_host, strip_slash-append h ("/" <> rest) e n, after_first-append h rest n) refl

-- For a URL without a host, whose path begins with a host that is not empty and has no slash, as it
-- is parsed from an endpoint without a scheme: where there is an SSH host, the address of the
-- project has it in place of the other, the rest of the path, and the ending of a Git repository,
-- for the user `git`.
pub full_url-without_scheme :
    (g : Gitlab) (h rest : String)
    → (h == "") ≡ false
    → has_char "/" h ≡ false
    → g.url.host ≡ ""
    → g.url.path ≡ h <> "/" <> rest
    → (g.ssh_host == "") ≡ false
    → full_url g ≡ record (g.url) {
      scheme = "ssh";
      user = "git";
      host = g.ssh_host;
      path = ("/" <> rest) <> ".git";
    }
unfolding full_url
full_url-without_scheme g h rest e n u p s =
    rw (full_url, s, u, p, without_host-append h rest e n) refl
