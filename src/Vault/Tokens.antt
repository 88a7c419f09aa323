-- ===== src/Vault/Tokens.antt =====
-- Which token of a service account is stored in Vault.
use mathlib.Core.List.{Mem, mem-cons_self, mem-cons_of_mem}
use mathlib.Core.List.Perm
use lieutenant_operator.Prelude.{
  ℕ, Bool, String, ◌≡◌, refl, ◌≤◌, true, false, List, [], ◌∷◌, arith, value_of, All, Bool-cases,
  inl, inr, nat_eq, ltb, if◌then◌else◌, sort_by-perm, All-unsorted, Ascending, sort_by-Ascending,
}
use lieutenant_operator.Errors.{Outcome, ok, err}
use lieutenant_operator.Api.Core.{Secret}
use lieutenant_operator.Kube.{Client}
use lieutenant_operator.Vault.Steps.{
  less, newest_first, token_for, first_token, get_service_account_token,
}

-- The first secret is no older.
abbrev pub NoOlder : Secret → Secret → Type 0
NoOlder a b = b.meta.creation_timestamp ≤ a.meta.creation_timestamp

abbrev first : Secret → Secret → Bool
first a b = less b a

NoOlder-trans : (a b c : Secret) → NoOlder a b → NoOlder b c → NoOlder a c
NoOlder-trans a b c p q = omega arith

tested_le : (m n : ℕ) (b : Bool) → (if nat_eq m n then b else ltb m n) ≡ true → m ≤ n
tested_le m n b h = ground (arith)

untested_le : (m n : ℕ) (b : Bool) → (if nat_eq m n then b else ltb m n) ≡ false → n ≤ m
untested_le m n b h = ground (arith)

NoOlder-if : (w v : Secret) → first w v ≡ true → NoOlder w v
NoOlder-if w v h = tested_le v.meta.creation_timestamp w.meta.creation_timestamp _ h

NoOlder-else : (w v : Secret) → first w v ≡ false → NoOlder v w
NoOlder-else w v h = untested_le v.meta.creation_timestamp w.meta.creation_timestamp _ h

module _ (name : String) where
  -- No secret of these that has a token of the account is newer.
  abbrev pub Newest : Secret → List Secret → Type 0
  Newest s = All (λ u. token_for name u ≡ true → NoOlder s u)

  -- The answer is the token of a newest one of the account's secrets, or there is none among them.
  abbrev pub Chosen : List Secret → Outcome String → Type 0
  Chosen secrets (ok t) =
      (s : Secret) × Mem s secrets
      × (token_for name s ≡ true)
      × (value_of "token" s.contents ≡ t)
      × Newest s secrets
  Chosen secrets (err e) = All (λ u. token_for name u ≡ false) secrets

  All-to_Newest : (s : Secret) (ss : List Secret) → All (NoOlder s) ss → Newest s ss
  All-to_Newest s [] a = tt
  All-to_Newest s (u ∷ us) a = ((λ h. a.0), All-to_Newest s us a.1)

  later :
      (s : Secret) (ss : List Secret) (r : Outcome String)
      → token_for name s ≡ false
      → Chosen ss r
      → Chosen (s ∷ ss) r
  later s ss (ok t) n (u, m, h, e, a) = (u, mem-cons_of_mem s m, h, e, ((λ y. cc), a))
  later s ss (err e) n a = (n, a)

  first_token-Chosen : (ss : List Secret) → Ascending NoOlder ss → Chosen ss (first_token name ss)
  unfolding first_token
  first_token-Chosen [] o = tt
  first_token-Chosen (s ∷ ss) o = elim (Bool-cases (token_for name s)) [
    | inl y ↦
        rw (Chosen, first_token, y)
          (s, mem-cons_self, y, refl, ((λ h. omega arith), All-to_Newest s ss o.0))
    | inr n ↦
        rw (Chosen, first_token, n) (later s ss (first_token name ss) n (first_token-Chosen ss o.1))
  ]

  unsorted : (ss : List Secret) (r : Outcome String) → Chosen (newest_first ss) r → Chosen ss r
  unfolding newest_first
  unsorted ss (ok t) (u, m, h, e, a) = (
    u,
    (Perm.mem_iff (sort_by-perm first ss)).0 m,
    h,
    e,
    All-unsorted first (λ v. token_for name v ≡ true → NoOlder u v) ss a,
  )
  unsorted ss (err e) a = All-unsorted first (λ u. token_for name u ≡ false) ss a

  -- Where the secrets can be listed, the answer is the token of a secret of the account that is
  -- populated and than which none such is newer; it is an error only if there is none such.
  pub get_service_account_token_lem :
      {W : Type 0} (cli : Client W) (w : W) (secrets : List Secret)
      → cli.list_secrets w ≡ ok secrets
      → Chosen secrets (get_service_account_token cli name w)
  unfolding get_service_account_token newest_first
  get_service_account_token_lem cli w secrets l =
      rw (get_service_account_token, l)
        (unsorted secrets (first_token name (newest_first secrets)) (
          first_token-Chosen (newest_first secrets)
            (sort_by-Ascending first NoOlder NoOlder-trans NoOlder-if NoOlder-else secrets)))
