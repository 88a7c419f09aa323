-- ===== src/Repository/DeployKeys.antt =====
-- `ensureGeneratedDeployKeys` of controllers/gitrepo/steps.go: a secret with a key for each template, and
-- the public keys in the status.
use lieutenant_operator.Prelude.{
  ℕ, zero, suc, String, Bool, Option, none, some, List, [], ◌∷◌, ◌++◌, ◌==◌, ◌<>◌, Dict, lookup,
  insert, delete, is_some, split, if◌then◌else◌,
}
use lieutenant_operator.Errors.{
  Error, Outcome, ok, err, msg, wrap, panicked, is_not_found, Multierr,
}
use lieutenant_operator.Exec.{Exec, pure, lift, annotated, ◌>>=◌, ◌>>◌}
use lieutenant_operator.Api.Meta.{NamespacedName}
use lieutenant_operator.Api.GitRepo.{GitRepo, DeployKeyTemplate, DeployKeyStatus}
use lieutenant_operator.Api.Core.{Secret}
use lieutenant_operator.Kube.{Client, Resource}
use lieutenant_operator.Repository.{
  Tools, Work, instance_of, change, asking, calling, running, attempt, done_or, is_panic,
}

abbrev pub name_infix : String
name_infix = "-deploy-key-"

abbrev pub generated_prefix : String
generated_prefix = "generated-"

abbrev pub secret_pubkey : String
secret_pubkey = "publicKey"

abbrev pub secret_privkey : String
secret_privkey = "privateKey"

-- `s[n:]`, which is out of range for a shorter text. The keys that the code makes are ASCII there.
unfoldable pub drop_chars : ℕ → String → Option String
drop_chars zero s = some s
drop_chars (suc n) String.[] = none
drop_chars (suc n) (String.◌∷◌ c s) = drop_chars n s

abbrev pub set_generated : Dict DeployKeyStatus → GitRepo → GitRepo
set_generated keys g = record g { status = record (g.status) { generated_deploy_keys = keys } }

unfoldable pub without_keys : List String → Dict DeployKeyStatus → Dict DeployKeyStatus
without_keys [] m = m
without_keys (k ∷ ks) m = without_keys ks (delete k m)

-- The status of the key in a public key's text, whose second word must be there.
unfoldable pub key_status : String → Bool → String → Outcome DeployKeyStatus
key_status secret_name write_access pubkey = elim (split pubkey " ") [
  | [] ↦ err panicked
  | type ∷ rest ↦ elim rest [
    | [] ↦ err panicked
    | key ∷ _ ↦ ok (record {
      deploy_key = record { type = type; key = key; write_access = write_access };
      secret_ref = secret_name;
    })
  ]
]

-- The new status is noted if there was none or one with another key.
unfoldable pub note_key : String → DeployKeyStatus → Dict DeployKeyStatus → Dict DeployKeyStatus
note_key name new keys = elim (lookup name keys) [
  | none ↦ insert name new keys
  | some old ↦ if old.deploy_key.key == new.deploy_key.key then keys else insert name new keys
]

-- An error that the loops collect, and a panic that ends them.
abbrev pub collected : {W : Type 0} → Outcome (Unit {0}) → Exec W (List Error)
collected (ok _) = pure []
collected (err e) = if is_panic e then lift (err e) else pure (e ∷ [])

module _ {W : Type 0} (cli : Client W) where
  clean_secret : NamespacedName → Exec (Work W) (Unit {0})
  clean_secret key = do
    secret ← annotated "could not get deploy key secret" (asking (cli.get_secret key))
    annotated "could not clean up deploy key secret" (running (cli.delete_secret secret))

  -- The errors, and the keys of the status whose secrets are gone.
  unfoldable pub clean_up :
      Dict DeployKeyTemplate → Dict DeployKeyStatus → Exec (Work W) (List Error × List String)
  unfolding drop_chars clean_secret
  clean_up wanted [] = pure ([], [])
  clean_up wanted ((old_key, settings) ∷ keys) = do
    g ← instance_of
    base ← lift (elim (drop_chars 10 old_key) [ none ↦ err panicked | some b ↦ ok b ])
    if is_some (lookup base wanted) then clean_up wanted keys else do
      r ←
          attempt
            (clean_secret (record { namespace = g.meta.namespace; name = settings.secret_ref }))
      errors ← collected r
      (es, ds) ← clean_up wanted keys
      pure (errors ++ es, elim r [ ok _ ↦ old_key ∷ ds | err _ ↦ ds ])

  module _ (tools : Tools W) where
    -- `generateNewDeployKeySecret`: the secret, which was written.
    unfoldable pub generate_new_deploy_key_secret :
        DeployKeyTemplate → String → GitRepo → Exec (Work W) Secret
    generate_new_deploy_key_secret settings name owner = do
      (public, private) ← calling (tools.new_key (settings.type == "ssh-rsa"))
      let secret : Secret = record {
        meta = record {
          name = name;
          namespace = owner.meta.namespace;
          labels = [];
          annotations = [];
          finalizers = [];
          owner_references = record { kind = "GitRepo"; name = owner.meta.name } ∷ [];
          deletion_timestamp = none;
          creation_timestamp = 0;
        };
        type = "";
        contents = (secret_pubkey, public) ∷ (secret_privkey, private) ∷ [];
      }
      running (cli.create (Resource.secret secret))
      pure secret

    secret_for : DeployKeyTemplate → String → GitRepo → Exec (Work W) Secret
    unfolding generate_new_deploy_key_secret
    secret_for settings name g = do
      r ← attempt (asking (cli.get_secret (record { namespace = g.meta.namespace; name = name })))
      elim r [
        | ok s ↦ pure s
        | err e ↦
            if is_not_found e
            then annotated "Could not create new deploy key secret"
                (generate_new_deploy_key_secret settings name g)
            else lift (err (wrap "Could not retrieve deploy key secret" e))
      ]

    provide_one : String → DeployKeyTemplate → Exec (Work W) (Unit {0})
    unfolding secret_for key_status note_key
    provide_one gen_key settings = do
      g ← instance_of
      let secret_name = g.meta.name <> name_infix <> gen_key
      secret ← secret_for settings secret_name g
      pubkey ← lift (elim (lookup secret_pubkey secret.contents) [
        | some k ↦ ok k
        | none ↦ err (msg "could not retrieve deploy key from secret: missing key: publicKey")
      ])
      new ← lift (key_status secret_name settings.write_access pubkey)
      change (λ x.
          set_generated (note_key (generated_prefix <> gen_key) new x.status.generated_deploy_keys)
            x)

    unfoldable pub provide : Dict DeployKeyTemplate → Exec (Work W) (List Error)
    unfolding provide_one
    provide [] = pure []
    provide ((gen_key, settings) ∷ keys) = do
      r ← attempt (provide_one gen_key settings)
      errors ← collected r
      es ← provide keys
      pure (errors ++ es)

    module _ (multierr : Multierr) where
      unfoldable pub ensure_generated_deploy_keys : Exec (Work W) (Unit {0})
      unfolding clean_up without_keys provide
      ensure_generated_deploy_keys = do
        g ← instance_of
        let wanted = g.spec.git_repo_template.generated_deploy_keys
        (errors, deletions) ← clean_up wanted g.status.generated_deploy_keys
        change (λ x. set_generated (without_keys deletions x.status.generated_deploy_keys) x)
        errors' ← provide wanted
        lift (done_or (multierr.combine (errors ++ errors')))
