-- ===== src/Repository/Tokens.antt =====
-- `ensureAccessToken` of controllers/gitrepo/steps.go: the token in the secret that the template names.
use lieutenant_operator.Prelude.{String, [], ◌∷◌, ◌==◌, insert, value_of, none, if◌then◌else◌}
use lieutenant_operator.Exec.{Exec, pure, lift, annotated, ◌>>=◌, ◌>>◌}
use lieutenant_operator.Api.GitRepo.{GitRepo}
use lieutenant_operator.Api.Core.{Secret}
use lieutenant_operator.Repository.{IssuedToken, Repo, Tools, Work, instance_of, calling}

abbrev pub uid_annotation : String
uid_annotation = "lieutenant.syn.tools/accessTokenUID"

abbrev pub expires_at_annotation : String
expires_at_annotation = "lieutenant.syn.tools/accessTokenExpiresAt"

-- The secret with a token. One that was known already has no text, and leaves the secret alone.
unfoldable pub note_token : IssuedToken → Secret → Secret
note_token pat secret = if pat.token == "" then secret else record secret {
  meta = record (secret.meta) {
    annotations =
        insert expires_at_annotation pat.expires_at
          (insert uid_annotation pat.uid secret.meta.annotations);
  };
  contents = ("token", pat.token) ∷ [];
}

-- The object that `CreateOrUpdate` is given.
abbrev pub named_secret : String → GitRepo → Secret
named_secret name g = record {
  meta = record {
    name = name;
    namespace = g.meta.namespace;
    labels = [];
    annotations = [];
    finalizers = [];
    owner_references = [];
    deletion_timestamp = none;
    creation_timestamp = 0;
  };
  type = "";
  contents = [];
}

module _ {W : Type 0} (tools : Tools W) (repo : Repo W) where
  -- The function that `CreateOrUpdate` is given.
  unfoldable pub mutate : GitRepo → Secret → Exec W Secret
  unfolding note_token
  mutate g secret = do
    pat ← annotated "error ensuring project access token" (
        repo.ensure_project_access_token g.meta.name
          (value_of uid_annotation secret.meta.annotations))
    lift (tools.set_controller_reference g (note_token pat secret))

  unfoldable pub ensure_access_token : Exec (Work W) (Unit {0})
  unfolding mutate
  ensure_access_token = do
    g ← instance_of
    let name = g.spec.git_repo_template.access_token
    if name == "" then pure tt else do
      annotated "error creating or updating access token secret"
          (calling (tools.create_or_update (named_secret name g) (mutate g)))
      pure tt
