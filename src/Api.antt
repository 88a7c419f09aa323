-- ===== src/Api.antt =====
-- api/v1alpha1: the custom resources. A named Go string type is a text, since any text may stand in
-- it; a pointer is an option; times are seconds, and 0 is the zero time.
pub mod Meta
pub mod GitRepo
pub mod Cluster
pub mod Tenant
pub mod Core
pub mod Object
