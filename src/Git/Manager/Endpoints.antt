-- ===== src/Git/Manager/Endpoints.antt =====
-- What `parseSSHEndpoint` gives, and the keys that are merged.
use Prim.Native.Char.{Char, code}
use Prim.Native.String.append
use text.Mathlib.TextEquality.{Char-path}
use lieutenant_operator.Prelude.{
  ◌<>◌, sym, ap, ◌∙◌, String, ◌≡◌, refl, subst, ◌⊎◌, inl, inr, true, false, none, some, [], ◌∷◌,
  ◌==◌, arith, Dict, lookup, insert, lookup-insert, trim_space, nat_eq, Bool-cases, eq_iff,
}
use lieutenant_operator.Errors.{ok, err, Outcome-cases, ok-injective}
use lieutenant_operator.Api.GitRepo.{GitRepo, DeployKey}
use lieutenant_operator.Git.Urls.{Url, UrlLibrary, has_char, before_first, after_last}
use lieutenant_operator.Git.Helpers.Laws.{HasDistinctKeys}
use lieutenant_operator.Git.Manager.{
  bare_host, host_of, parse_ssh_endpoint, put_keys, merged_keys, generated,
}

before_first-clean : (c : Char) (s : String) → has_char c (before_first c s) ≡ false
unfolding has_char before_first
before_first-clean c String.[] = refl
before_first-clean c (String.◌∷◌ d s) = elim (Bool-cases (nat_eq (code d) (code c))) [
  | inl y ↦ rw y refl
  | inr n ↦ rw (n, n) (before_first-clean c s)
]

after_last-clean : (c : Char) (s : String) → has_char c (after_last c s) ≡ false
unfolding has_char after_last
after_last-clean c String.[] = refl
after_last-clean c (String.◌∷◌ d s) = elim (Bool-cases (has_char c s)) [
  | inl y ↦ rw y (after_last-clean c s)
  | inr n ↦ elim (Bool-cases (nat_eq (code d) (code c))) [
    | inl y ↦ rw (n, y) n
    | inr m ↦ rw (n, m, m) n
  ]
]

-- A text that is empty or begins with the character.
abbrev pub BeginsWith : Char → String → Type 0
BeginsWith c s = (s ≡ "") ⊎ ((t : String) × (s ≡ String.◌∷◌ c t))

same_char : (d c : Char) → nat_eq (code d) (code c) ≡ true → d ≡ c
same_char d c y = let e : code d ≡ code c = ground (arith) in Char-path d c e

before_first-split :
    (c : Char) (s : String) → (post : String) × (s ≡ before_first c s <> post) × BeginsWith c post
unfolding before_first
before_first-split c String.[] = ("", sym (append.nil ""), inl refl)
before_first-split c (String.◌∷◌ d s) = elim (Bool-cases (nat_eq (code d) (code c))) [
  | inl y ↦ rw y (
    String.◌∷◌ d s,
    sym (append.nil (String.◌∷◌ d s)),
    inr (s, ap (λ (x : Char). String.◌∷◌ x s) (same_char d c y)),
  )
  | inr n ↦
      let (post, e, b) = before_first-split c s in
      rw n (
        post,
        ap (λ (t : String). String.◌∷◌ d t) e ∙ sym (append.cons d (before_first c s) post),
        b,
      )
]

-- A text that has the character ends a part in front of what is behind its last one.
after_last-split_at :
    (c : Char) (s : String)
    → has_char c s ≡ true
    → (t : String) × (s ≡ t <> String.◌∷◌ c (after_last c s))
unfolding after_last has_char
after_last-split_at c String.[] h = cc
after_last-split_at c (String.◌∷◌ d s) h = elim (Bool-cases (has_char c s)) [
  | inl y ↦
      let (t, e) = after_last-split_at c s y in
      rw y (
        String.◌∷◌ d t,
        ap (λ (x : String). String.◌∷◌ d x) e
            ∙ sym (append.cons d t (String.◌∷◌ c (after_last c s))),
      )
  | inr n ↦ elim (Bool-cases (nat_eq (code d) (code c))) [
    | inl y ↦
        rw (n, y)
          (
            "",
            ap (λ (x : Char). String.◌∷◌ x s) (same_char d c y) ∙ sym (append.nil (String.◌∷◌ c s)),
          )
    | inr m ↦ let never : false ≡ true = rw (m, n) at h in absurd (cc)
  ]
]

after_last-without : (c : Char) (s : String) → has_char c s ≡ false → after_last c s ≡ s
unfolding after_last has_char
after_last-without c String.[] h = refl
after_last-without c (String.◌∷◌ d s) h = elim (Bool-cases (nat_eq (code d) (code c))) [
  | inl y ↦ let never : true ≡ false = rw y at h in absurd (cc)
  | inr m ↦ let n : has_char c s ≡ false = rw m at h in rw (n, m) refl
]

-- What stands in front of the last of these characters: nothing, where there is none.
after_last-split :
    (c : Char) (s : String)
    → (s ≡ after_last c s) ⊎ ((t : String) × (s ≡ t <> String.◌∷◌ c (after_last c s)))
after_last-split c s = elim (Bool-cases (has_char c s)) [
  | inl y ↦ inr (after_last-split_at c s y)
  | inr n ↦ inl (sym (after_last-without c s n))
]

-- The host that stands in a text: behind the last `@`, or at the beginning where there is none, and before
-- the first `/` from there on, or at the end where there is none. It is not empty.
abbrev pub IsHostIn : String → String → Type 0
IsHostIn path h =
    (rest : String) × (post : String) × ((path ≡ rest)
      ⊎ ((pre : String) × (path ≡ pre <> String.◌∷◌ "@" rest)))
    × (has_char "@" rest ≡ false)
    × (rest ≡ h <> post)
    × (has_char "/" h ≡ false)
    × BeginsWith "/" post
    × ((h == "") ≡ false)

bare_host-IsHostIn : (path h : String) → bare_host path ≡ ok h → IsHostIn (trim_space path) h
unfolding bare_host
bare_host-IsHostIn path h e = elim (Bool-cases (trim_space path == "")) [
  | inl y ↦ let never : err _ ≡ ok h = rw y at e in absurd (cc)
  | inr n ↦
      let host = after_last "@" (trim_space path) in
      elim (Bool-cases (before_first "/" host == "")) [
        | inl y ↦ let never : err _ ≡ ok h = rw (n, y) at e in absurd (cc)
        | inr m ↦
            let same : ok (before_first "/" host) ≡ ok h = rw (n, m) at e in
            let (post, joined, slash) = before_first-split "/" host in
            subst (IsHostIn (trim_space path)) (ok-injective same) (
              host,
              post,
              after_last-split "@" (trim_space path),
              after_last-clean "@" (trim_space path),
              joined,
              before_first-clean "/" host,
              slash,
              m,
            )
      ]
]

-- The host of the URL or, where that has none, the one that stands in its path.
abbrev pub HostOf : Url → String → Type 0
HostOf u h = ((u.host ≡ h) × ((h == "") ≡ false)) ⊎ ((u.host ≡ "") × IsHostIn (trim_space u.path) h)

host_of_lem : (u : Url) (h : String) → host_of u ≡ ok h → HostOf u h
host_of_lem u h e = elim (Bool-cases (u.host == "")) [
  | inl y ↦ inr ((eq_iff u.host "").0 y, bare_host-IsHostIn u.path h (rw y at e))
  | inr n ↦
      let same : u.host ≡ h = ok-injective (rw n at e) in
      inl (same, subst (λ x. (x == "") ≡ false) same n)
]

-- Where an endpoint that is not blank has a host, the endpoint was parsed into a URL, and the host is the
-- one of the URL or, where that has none, what stands in the URL's path, without space around it, between
-- its last `@` and the first `/` behind that, each of which may be missing; it is not empty.
pub parse_ssh_endpoint_lem :
    (library : UrlLibrary) (raw h : String)
    → (trim_space raw == "") ≡ false
    → parse_ssh_endpoint library raw ≡ ok h
    → (u : Url) × (library.parse (trim_space raw) ≡ ok u) × HostOf u h
unfolding parse_ssh_endpoint
parse_ssh_endpoint_lem library raw h b e = elim (Outcome-cases (library.parse (trim_space raw))) [
  | inl (u, p) ↦ (u, p, host_of_lem u h (rw (b, p) at e))
  | inr (x, p) ↦ let never : err x ≡ ok h = rw (b, p) at e in absurd (cc)
]

-- The keys of a set over those that are there, for a set in which no key stands twice.
lookup-put_keys :
    (k : String) (keys m : Dict DeployKey)
    → HasDistinctKeys keys
    → lookup k (put_keys keys m) ≡ (elim (lookup k keys) [ none ↦ lookup k m | some v ↦ some v ])
unfolding lookup put_keys
lookup-put_keys k [] m d = refl
lookup-put_keys k ((j, v) ∷ keys) m d =
    ground (arith, eq_iff j k, lookup-insert j k v m, lookup-put_keys k keys (insert j v m) d.1)

-- Where no key of the spec and no generated key stands twice, the merged keys have a key of the spec as it
-- is there, and otherwise the generated one, if there is one.
pub lookup-merged_keys :
    (k : String) (g : GitRepo)
    → HasDistinctKeys g.spec.git_repo_template.deploy_keys
    → HasDistinctKeys (generated g.status.generated_deploy_keys)
    → lookup k (merged_keys g) ≡ (elim (lookup k g.spec.git_repo_template.deploy_keys) [
      | none ↦ lookup k (generated g.status.generated_deploy_keys)
      | some v ↦ some v
    ])
unfolding merged_keys lookup
lookup-merged_keys k g d e = ground (
  arith,
  lookup-put_keys k g.spec.git_repo_template.deploy_keys
      (put_keys (generated g.status.generated_deploy_keys) []),
  lookup-put_keys k (generated g.status.generated_deploy_keys) [],
)
