-- ===== src/Kube.antt =====
-- The libraries of Kubernetes that the code calls, as parameters: the client of
-- sigs.k8s.io/controller-runtime over a world `W` that it reads and writes, and the pure helpers.
pub mod Memory
use lieutenant_operator.Prelude.{
  String, ◌≡◌, Bool, true, false, Option, List, contains, ◌==◌, if◌then◌else◌,
}
use lieutenant_operator.Errors.{Error, Outcome}
use lieutenant_operator.Api.Meta.{ObjectMeta, NamespacedName}
use lieutenant_operator.Api.GitRepo.{GitRepo}
use lieutenant_operator.Api.Cluster.{Cluster}
use lieutenant_operator.Api.Tenant.{Tenant, TenantSpec}
use lieutenant_operator.Api.Core.{Secret, PolicyRule, Role, RoleRef, Subject, RoleBinding}
use lieutenant_operator.Api.Object.{Object, Spec, Status}

-- What the code creates or updates.
pub data Resource : Type 0 where
  custom : Object → Resource
  secret : Secret → Resource
  service_account : ObjectMeta → Resource
  role : Role → Resource
  role_binding : RoleBinding → Resource

-- A read does not change the world. A write may fail, and may change the world also where it fails.
-- The client decodes the server's answer into the object that it was given; where the code goes on
-- with that object, the write returns it.
pub record Client (W : Type 0) : Type 0 where
  pub get_cluster : NamespacedName → W → Outcome Cluster
  pub get_tenant : NamespacedName → W → Outcome Tenant
  -- A `TenantTemplate` is a name and a tenant's spec.
  pub get_tenant_template : NamespacedName → W → Outcome (ObjectMeta × TenantSpec)
  pub get_git_repo : NamespacedName → W → Outcome GitRepo
  pub get_secret : NamespacedName → W → Outcome Secret
  pub get_role : NamespacedName → W → Outcome Role
  pub get_role_binding : NamespacedName → W → Outcome RoleBinding
  -- The clusters of a namespace with this value of the tenant label.
  pub list_clusters : String → String → W → Outcome (List Cluster)
  -- The clusters of a namespace with this `spec.tenantRef.name`.
  pub list_clusters_of : String → String → W → Outcome (List Cluster)
  -- The clusters and the tenants of a namespace.
  pub list_all_clusters : String → W → Outcome (List Cluster)
  pub list_tenants : String → W → Outcome (List Tenant)
  pub list_secrets : W → Outcome (List Secret)
  pub create : Resource → W → Option Error × W
  pub update : Resource → W → Option Error × W
  pub update_cluster : Cluster → W → Outcome Cluster × W
  pub update_tenant : Tenant → W → Outcome Tenant × W
  pub update_status : Object → W → Option Error × Object × W
  pub update_tenant_status : Tenant → W → Outcome Tenant × W
  pub delete_secret : Secret → W → Option Error × W

-- `controllerutil.AddFinalizer` and `RemoveFinalizer` on the list of finalizers, with whether the
-- list was changed, and `equality.Semantic.DeepEqual` at the types that the code compares.
pub record Library : Type 0 where
  pub add_finalizer : List String → String → List String × Bool
  pub remove_finalizer : List String → String → List String × Bool
  pub meta_equal : ObjectMeta → ObjectMeta → Bool
  pub spec_equal : Spec → Spec → Bool
  pub status_equal : Status → Status → Bool

-- What the two functions on finalizers document: the one is there afterwards, or is not, and the
-- others stay as they were.
pub record FinalizerLaws (lib : Library) : Type 0 where
  pub contains-add :
      (f g : String) (l : List String)
      → contains g (lib.add_finalizer l f).0 ≡ (if f == g then true else contains g l)
  pub contains-remove :
      (f g : String) (l : List String)
      → contains g (lib.remove_finalizer l f).0 ≡ (if f == g then false else contains g l)
