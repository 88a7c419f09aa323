-- ===== src/Api/Meta.antt =====
-- The parts of Kubernetes' object metadata that the code uses, and api/v1alpha1/constants.go.
use lieutenant_operator.Prelude.{ℕ, String, Bool, true, Option, none, some, List, Dict, nat_eq}

pub record OwnerReference : Type 0 where
  pub kind : String
  pub name : String

pub record ObjectMeta : Type 0 where
  pub name : String
  pub namespace : String
  pub labels : Dict String
  pub annotations : Dict String
  pub finalizers : List String
  pub owner_references : List OwnerReference
  pub deletion_timestamp : Option ℕ
  pub creation_timestamp : ℕ

-- `GetDeletionTimestamp().IsZero()`
abbrev pub is_zero : Option ℕ → Bool
is_zero none = true
is_zero (some t) = nat_eq t 0

pub record NamespacedName : Type 0 where
  pub namespace : String
  pub name : String

abbrev pub label_name_tenant : String
label_name_tenant = "syn.tools/tenant"

abbrev pub finalizer_name : String
finalizer_name = "cluster.lieutenant.syn.tools"

abbrev pub pipeline_finalizer_name : String
pipeline_finalizer_name = "cluster.lieutenant.syn.tools/pipelines"

abbrev pub delete_protection_annotation : String
delete_protection_annotation = "syn.tools/protected-delete"
