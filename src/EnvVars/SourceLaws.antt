-- ===== src/EnvVars/SourceLaws.antt =====
-- What `updateEnvVarValueFrom` does to the entry of each name.
use lieutenant_operator.Prelude.{
  ℕ, String, ◌≡◌, refl, subst, ◌⊎◌, ◌∙◌, Bool, true, false, ◌&&◌, Option, none, some, List, [], ◌∷◌,
  ◌++◌, arith, ◌==◌, eq_refl, set, if◌then◌else◌, ap, sym, Bool-cases, inl, inr,
}
use lieutenant_operator.Errors.{ok, err, panicked}
use lieutenant_operator.Api.GitRepo.{EnvVar, SecretKeySelector}
use lieutenant_operator.EnvVars.{
  env_var_index, secret_env_var, source_of, selector, set_source, update_env_var_value_from,
}
use lieutenant_operator.EnvVars.Find.{
  find_var, replace_first, IndexCases, index_cases, name-find_var,
}
use lieutenant_operator.EnvVars.Laws.{IsUpdate, IsUpdate-snoc, IsUpdate-keep, IsUpdate-replace}

-- The entry's source is this key of this secret.
abbrev pub refers_to : String → String → EnvVar → Bool
refers_to secret key e = elim (selector e) [
  | err _ ↦ false
  | ok k ↦ (k.name == secret) && (k.key == key)
]

-- The entry of a name after its source is set.
abbrev pub resourced : String → String → String → Option EnvVar → EnvVar
resourced name secret key none = secret_env_var name secret key
resourced name secret key (some e) =
    if refers_to secret key e then e else record e { value_from = some (source_of secret key) }

resourced_same :
    (name secret key : String) (e : EnvVar)
    → refers_to secret key e ≡ true
    → resourced name secret key (some e) ≡ e
resourced_same name secret key e h = rw h

refers_to-selector :
    (secret key : String) (e : EnvVar) (k : SecretKeySelector)
    → selector e ≡ ok k
    → refers_to secret key e ≡ ((k.name == secret) && (k.key == key))
refers_to-selector secret key e k q = ground arith

refers_to-source_of :
    (secret key : String) (e : EnvVar)
    → refers_to secret key (record e { value_from = some (source_of secret key) }) ≡ true
refers_to-source_of secret key e = rw (eq_refl secret, eq_refl key)

set_source_same :
    (secret key : String) (list : List EnvVar) (i : ℕ) (e : EnvVar) (k : SecretKeySelector)
    → ((k.name == secret) && (k.key == key)) ≡ true
    → set_source secret key list i e k ≡ (list, false)
unfolding set_source
set_source_same secret key list i e k h = ground arith

set_source_other :
    (secret key : String) (list : List EnvVar) (i : ℕ) (e : EnvVar) (k : SecretKeySelector)
    → ((k.name == secret) && (k.key == key)) ≡ false
    → set_source secret key list i e k
      ≡ (set list i (record e { value_from = some (source_of secret key) }), true)
unfolding set_source
set_source_other secret key list i e k h = ground arith

set_source-IsUpdate :
    (name secret key : String) (list : List EnvVar) (i : ℕ) (e : EnvVar) (k : SecretKeySelector)
    → find_var name list ≡ some e
    → ((v : EnvVar) → set list i v ≡ replace_first name (λ _. v) list)
    → selector e ≡ ok k
    → IsUpdate name (resourced name secret key (some e)) list (set_source secret key list i e k)
set_source-IsUpdate name secret key list i e k f s q =
    elim (Bool-cases ((k.name == secret) && (k.key == key))) [
      | inl y ↦
          rw (set_source_same secret key list i e k y, refers_to-selector secret key e k q ∙ y)
            (IsUpdate-keep name e list f)
      | inr n ↦
          let v : EnvVar = record e { value_from = some (source_of secret key) } in
          let r : refers_to secret key e ≡ false = refers_to-selector secret key e k q ∙ n in
          rw (set_source_other secret key list i e k n, r, s v)
            (IsUpdate-replace name v e list f (name-find_var name e list f)
              (λ p. cc (ap (refers_to secret key) p, refers_to-source_of secret key e, r)))
    ]

-- The outcome of setting a source, of a name that may have an entry already.
abbrev pub SetsSource : String → String → String → List EnvVar → Type 0
SetsSource name secret key list =
    ((r : List EnvVar × Bool) × (update_env_var_value_from name secret key list ≡ ok r)
      × IsUpdate name (resourced name secret key (find_var name list)) list r)
    ⊎ ((e : EnvVar) × (find_var name list ≡ some e)
        × (selector e ≡ err panicked)
        × (update_env_var_value_from name secret key list ≡ err panicked))

selector_cases :
    (e : EnvVar) → (selector e ≡ err panicked) ⊎ ((k : SecretKeySelector) × (selector e ≡ ok k))
selector_cases e = ground arith

-- Setting a source panics where the name's entry has no source with a selector. Otherwise the name
-- refers to the key of the secret afterwards, every other name has the entry that it had, and the
-- flag tells whether that changed anything.
pub find_var-update_env_var_value_from :
    (name secret key : String) (list : List EnvVar) → SetsSource name secret key list
unfolding update_env_var_value_from
find_var-update_env_var_value_from name secret key list =
    go (env_var_index name list) refl (index_cases name list)
  where
    v : EnvVar
    v = secret_env_var name secret key

    go :
        (o : Option ℕ)
        → env_var_index name list ≡ o
        → IndexCases name list o
        → SetsSource name secret key list
    go none p f = inl (
      (list ++ v ∷ [], true),
      rw (p, update_env_var_value_from),
      subst (λ o. IsUpdate name (resourced name secret key o) list (list ++ v ∷ [], true)) (sym f)
          (IsUpdate-snoc v list f),
    )
    go (some i) p (e, f, g, s, _) = elim (selector_cases e) [
      | inl q ↦ inr (e, f, q, rw (p, g, q, update_env_var_value_from))
      | inr (k, q) ↦ inl (
        set_source secret key list i e k,
        rw (p, g, q, update_env_var_value_from),
        subst
            (λ o.
              IsUpdate name (resourced name secret key o) list (set_source secret key list i e k))
            (sym f) (set_source-IsUpdate name secret key list i e k f s q),
      )
    ]

-- Setting a source panics wherever the name's entry has no source with a selector.
pub update_env_var_value_from_panics :
    (name secret key : String) (list : List EnvVar) (e : EnvVar)
    → find_var name list ≡ some e
    → selector e ≡ err panicked
    → update_env_var_value_from name secret key list ≡ err panicked
unfolding update_env_var_value_from
update_env_var_value_from_panics name secret key list e f q =
    go (env_var_index name list) refl (index_cases name list)
  where
    go :
        (o : Option ℕ)
        → env_var_index name list ≡ o
        → IndexCases name list o
        → update_env_var_value_from name secret key list ≡ err panicked
    go none p g = cc (sym f ∙ g)
    go (some i) p (e', f', g, _, _) =
        let same : e ≡ e' = cc (sym f ∙ f') in
        let q' : selector e' ≡ err panicked = rw same at q in
        rw (p, g, q', update_env_var_value_from)
