-- ===== src/Tenants/Files.antt =====
-- What the template of a tenant asks for each file.
use lieutenant_operator.Prelude.{
  String, ◌≡◌, refl, Bool, false, ◌&&◌, ◌||◌, Option, none, some, List, [], ◌∷◌, arith, ◌==◌,
  eq_iff, Dict, lookup, insert, delete, lookup-insert, lookup-delete, is_some, if◌then◌else◌,
  Bool-cases, inl, inr,
}
use lieutenant_operator.Api.Cluster.{Cluster}
use lieutenant_operator.Api.Tenant.{Tenant, get_compile_pipeline_spec}
use lieutenant_operator.Tenants.{
  cluster_class_content, cluster_file, put_clusters, put_all, left_over, put_left_overs,
  tenant_files,
}

-- Whether the file is that of a cluster.
unfoldable pub is_cluster_file : String → List Cluster → Bool
is_cluster_file name [] = false
is_cluster_file name (c ∷ cs) = cluster_file c == name || is_cluster_file name cs

-- The first of two that is there.
abbrev pub or_else : Option String → Option String → Option String
or_else none b = b
or_else (some a) b = some a

-- No name stands twice in the map.
abbrev pub HasDistinctNames : Dict String → Type 0
HasDistinctNames [] = Unit
HasDistinctNames ((k, v) ∷ m) = (lookup k m ≡ none) × HasDistinctNames m

module _ (name : String) where
  lookup-put_clusters :
      (content : String) (cs : List Cluster) (f o : Dict String)
      → lookup name (put_clusters content cs (f, o)).0
        ≡ (if is_cluster_file name cs then some content else lookup name f)
  unfolding put_clusters is_cluster_file
  lookup-put_clusters content [] f o = refl
  lookup-put_clusters content (c ∷ cs) f o = ground (
    arith,
    lookup-insert (cluster_file c) name content f,
    lookup-put_clusters content cs (insert (cluster_file c) content f) (delete (cluster_file c) o),
  )

  rest-put_clusters :
      (content : String) (cs : List Cluster) (f o : Dict String)
      → lookup name (put_clusters content cs (f, o)).1
        ≡ (if is_cluster_file name cs then none else lookup name o)
  unfolding put_clusters is_cluster_file
  rest-put_clusters content [] f o = refl
  rest-put_clusters content (c ∷ cs) f o = ground (
    arith,
    lookup-delete (cluster_file c) name o,
    rest-put_clusters content cs (insert (cluster_file c) content f) (delete (cluster_file c) o),
  )

  lookup-put_all :
      (m f o : Dict String)
      → HasDistinctNames m
      → lookup name (put_all m (f, o)).0 ≡ or_else (lookup name m) (lookup name f)
  unfolding put_all lookup
  lookup-put_all [] f o d = refl
  lookup-put_all ((k, v) ∷ m) f o d = ground (
    arith,
    eq_iff k name,
    lookup-insert k name v f,
    lookup-put_all m (insert k v f) (delete k o) d.1,
  )

  rest-put_all :
      (m f o : Dict String)
      → lookup name (put_all m (f, o)).1 ≡ (if is_some (lookup name m) then none else lookup name o)
  unfolding put_all lookup
  rest-put_all [] f o = refl
  rest-put_all ((k, v) ∷ m) f o =
      ground (arith, lookup-delete k name o, rest-put_all m (insert k v f) (delete k o))

  lookup-put_left_overs :
      (o f : Dict String)
      → lookup name (put_left_overs o f)
        ≡ (if is_some (lookup name o) then some (left_over name) else lookup name f)
  unfolding put_left_overs lookup
  lookup-put_left_overs [] f = refl
  lookup-put_left_overs ((k, v) ∷ o) f = ground (
    arith,
    eq_iff k name,
    lookup-insert k name (left_over k) f,
    lookup-put_left_overs o (insert k (left_over k) f),
  )

  -- What is asked of the file.
  abbrev pub expected : Tenant → List Cluster → Dict String → Option String
  expected t clusters old =
      let spec = get_compile_pipeline_spec t in
      if spec.enabled && is_some (lookup name spec.pipeline_files)
      then lookup name spec.pipeline_files
      else if is_cluster_file name clusters
      then some (cluster_class_content t.meta.name)
      else if is_some (lookup name old)
      then some (left_over name)
      else none

  lookup_empty : lookup {V = String} name [] ≡ none
  unfolding lookup
  lookup_empty = refl

  -- Where no file of the pipeline stands twice, the files of the template are exactly those that the clusters, the files of an enabled pipeline and
  -- the files of before ask for: a file of the pipeline comes first, then the class of a cluster, and a
  -- file that is left over is to be deleted, but for the common class, which is emptied.
  pub lookup-tenant_files :
      (t : Tenant) (clusters : List Cluster) (old : Dict String)
      → HasDistinctNames (get_compile_pipeline_spec t).pipeline_files
      → lookup name (tenant_files t clusters old) ≡ expected t clusters old
  unfolding tenant_files
  lookup-tenant_files t clusters old d =
      let content = cluster_class_content t.meta.name in
      let pipeline = (get_compile_pipeline_spec t).pipeline_files in
      let put = put_clusters content clusters ([], old) in
      let all = put_all pipeline (put.0, put.1) in
      elim (Bool-cases (get_compile_pipeline_spec t).enabled) [
        | inl y ↦
            rw (tenant_files, y)
              (ground (
                arith,
                lookup_empty,
                lookup-put_clusters content clusters [] old,
                rest-put_clusters content clusters [] old,
                lookup-put_all pipeline put.0 put.1 d,
                rest-put_all pipeline put.0 put.1,
                lookup-put_left_overs all.1 all.0,
              ))
        | inr n ↦
            rw (tenant_files, n)
              (ground (
                arith,
                lookup_empty,
                lookup-put_clusters content clusters [] old,
                rest-put_clusters content clusters [] old,
                lookup-put_left_overs put.1 put.0,
              ))
      ]
