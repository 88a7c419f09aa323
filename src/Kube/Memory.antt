-- ===== src/Kube/Memory.antt =====
-- A server in memory, at which the theorems about any client are applied to concrete input.
use lieutenant_operator.Prelude.{
  String, ◌≡◌, Bool, true, false, ◌&&◌, Option, none, some, List, [], ◌∷◌, ◌++◌, arith, ◌==◌,
  eq_iff, contains, value_of, if◌then◌else◌,
}
use lieutenant_operator.Errors.{Error, Outcome, ok, err, status, not_found, conflict}
use lieutenant_operator.Api.Meta.{ObjectMeta, NamespacedName, label_name_tenant}
use lieutenant_operator.Api.GitRepo.{GitRepo}
use lieutenant_operator.Api.Cluster.{Cluster}
use lieutenant_operator.Api.Tenant.{Tenant}
use lieutenant_operator.Api.Core.{Secret}
use lieutenant_operator.Api.Object.{Object}
use lieutenant_operator.Kube.{Resource, Client, Library, FinalizerLaws}

pub record Server : Type 0 where
  pub clusters : List Cluster
  pub tenants : List Tenant
  pub git_repos : List GitRepo
  pub secrets : List Secret
  -- Every update meets a conflict.
  pub busy : Bool
  -- The writes, the latest first.
  pub log : List Resource

abbrev pub empty_server : Server
empty_server = record {
  clusters = [];
  tenants = [];
  git_repos = [];
  secrets = [];
  busy = false;
  log = [];
}

abbrev find {ℓ} : {A : Type ℓ} → (A → ObjectMeta) → NamespacedName → List A → Outcome A
find meta k [] = err (status not_found)
find meta k (x ∷ xs) =
    if (meta x).name == k.name && (meta x).namespace == k.namespace then ok x else find meta k xs

abbrev labelled : String → String → List Cluster → List Cluster
labelled ns label [] = []
labelled ns label (c ∷ cs) =
    let rest = labelled ns label cs in
    if c.meta.namespace == ns && value_of label_name_tenant c.meta.labels == label
    then c ∷ rest
    else rest

abbrev write {ℓ} : {A : Type ℓ} → Resource → A → Server → Outcome A × Server
write r a w = if w.busy then (err (status conflict), w) else (ok a, record w { log = r ∷ w.log })

abbrev pub memory : Client Server
memory = record {
  get_cluster = λ k w. find (λ c. c.meta) k w.clusters;
  get_tenant = λ k w. find (λ t. t.meta) k w.tenants;
  get_tenant_template = λ k w. err (status not_found);
  get_git_repo = λ k w. find (λ g. g.meta) k w.git_repos;
  get_secret = λ k w. find (λ s. s.meta) k w.secrets;
  get_role = λ k w. err (status not_found);
  get_role_binding = λ k w. err (status not_found);
  list_clusters = λ ns label w. ok (labelled ns label w.clusters);
  list_clusters_of = λ ns name w. ok (labelled ns name w.clusters);
  list_all_clusters = λ ns w. ok w.clusters;
  list_tenants = λ ns w. ok w.tenants;
  list_secrets = λ w. ok w.secrets;
  create = λ r w. (none, record w { log = r ∷ w.log });
  update =
      λ r w. if w.busy then (some (status conflict), w) else (none, record w { log = r ∷ w.log });
  update_cluster = λ c w. write (Resource.custom (Object.cluster c)) c w;
  update_tenant = λ t w. write (Resource.custom (Object.tenant t)) t w;
  update_tenant_status = λ t w. write (Resource.custom (Object.tenant t)) t w;
  update_status = λ o w.
      if w.busy
      then (some (status conflict), o, w)
      else (none, o, record w { log = Resource.custom o ∷ w.log });
  delete_secret = λ s w. (none, record w { log = Resource.secret s ∷ w.log });
}

unfoldable pub without : String → List String → List String
without f [] = []
without f (g ∷ l) = let rest = without f l in if g == f then rest else g ∷ rest

abbrev strings_eq : List String → List String → Bool
strings_eq [] [] = true
strings_eq [] (y ∷ ys) = false
strings_eq (x ∷ xs) [] = false
strings_eq (x ∷ xs) (y ∷ ys) = x == y && strings_eq xs ys

unfoldable pub library : Library
unfolding without
library = record {
  add_finalizer = λ l f. if contains f l then (l, false) else (l ++ f ∷ [], true);
  remove_finalizer = λ l f. (without f l, contains f l);
  meta_equal = λ a b. strings_eq a.finalizers b.finalizers;
  spec_equal = λ a b. true;
  status_equal = λ a b. true;
}

contains-snoc :
    (f g : String) (l : List String)
    → contains g (l ++ f ∷ []) ≡ (if f == g then true else contains g l)
unfolding contains
contains-snoc f g [] = ground arith
contains-snoc f g (x ∷ l) = ground (arith, contains-snoc f g l)

contains-without :
    (f g : String) (l : List String)
    → contains g (without f l) ≡ (if f == g then false else contains g l)
unfolding contains without
contains-without f g [] = ground arith
contains-without f g (x ∷ l) =
    ground (arith, contains-without f g l, eq_iff x f, eq_iff x g, eq_iff f g)

pub library-FinalizerLaws : FinalizerLaws library
unfolding library
library-FinalizerLaws = record {
  contains-add = λ f g l. ground (arith, contains-snoc f g l, eq_iff f g);
  contains-remove = contains-without;
}

-- A client whose world is a part of a larger one.
module _ {V W : Type 0} (get : V → W) (put : W → V → V) (cli : Client W) where
  abbrev within : {A : Type 0} → V → A × W → A × V
  within v (a, w) = (a, put w v)

  abbrev within_object : V → Option Error × Object × W → Option Error × Object × V
  within_object v (e, o, w) = (e, o, put w v)

  abbrev pub focused : Client V
  focused = record {
    get_cluster = λ k v. cli.get_cluster k (get v);
    get_tenant = λ k v. cli.get_tenant k (get v);
    get_tenant_template = λ k v. cli.get_tenant_template k (get v);
    get_git_repo = λ k v. cli.get_git_repo k (get v);
    get_secret = λ k v. cli.get_secret k (get v);
    get_role = λ k v. cli.get_role k (get v);
    get_role_binding = λ k v. cli.get_role_binding k (get v);
    list_clusters = λ ns label v. cli.list_clusters ns label (get v);
    list_clusters_of = λ ns name v. cli.list_clusters_of ns name (get v);
    list_all_clusters = λ ns v. cli.list_all_clusters ns (get v);
    list_tenants = λ ns v. cli.list_tenants ns (get v);
    list_secrets = λ v. cli.list_secrets (get v);
    create = λ r v. within v (cli.create r (get v));
    update = λ r v. within v (cli.update r (get v));
    update_cluster = λ c v. within v (cli.update_cluster c (get v));
    update_tenant = λ t v. within v (cli.update_tenant t (get v));
    update_tenant_status = λ t v. within v (cli.update_tenant_status t (get v));
    update_status = λ o v. within_object v (cli.update_status o (get v));
    delete_secret = λ s v. within v (cli.delete_secret s (get v));
  }
