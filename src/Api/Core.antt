-- ===== src/Api/Core.antt =====
-- The Kubernetes resources beside the custom ones, with the fields that the code sets or reads.
use lieutenant_operator.Prelude.{String, List, Dict}
use lieutenant_operator.Api.Meta.{ObjectMeta}

pub record Secret : Type 0 where
  pub meta : ObjectMeta
  pub type : String
  pub contents : Dict String

pub record PolicyRule : Type 0 where
  pub api_groups : List String
  pub verbs : List String
  pub resources : List String
  pub resource_names : List String

pub record Role : Type 0 where
  pub meta : ObjectMeta
  pub rules : List PolicyRule

pub record RoleRef : Type 0 where
  pub api_group : String
  pub kind : String
  pub name : String

pub record Subject : Type 0 where
  pub kind : String
  pub namespace : String
  pub name : String

pub record RoleBinding : Type 0 where
  pub meta : ObjectMeta
  pub role_ref : RoleRef
  pub subjects : List Subject
