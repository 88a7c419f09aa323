-- ===== src/CompilePipeline/Status.antt =====
-- The status of the compile pipeline: the names of its clusters.
use lieutenant_operator.Prelude.{
  String, ◌≡◌, refl, ◌∙◌, ap, true, false, ◌||◌, List, [], ◌∷◌, arith, ◌==◌, eq_iff, eq_refl,
  contains,
}
use lieutenant_operator.Api.Cluster.{Cluster}
use lieutenant_operator.Api.Tenant.{Tenant, get_compile_pipeline_status}
use lieutenant_operator.CompilePipeline.{
  sorted_cluster_names, cluster_names, filter_deleted_clusters, ensure_status,
}
use lieutenant_operator.CompilePipeline.Names.{insert_sorted, sort_strings, strings_equal}

strings_equal→eq : (a b : List String) → strings_equal a b ≡ true → a ≡ b
strings_equal→eq [] [] h = refl
strings_equal→eq [] (y ∷ b) h = cc
strings_equal→eq (x ∷ a) [] h = cc
strings_equal→eq (x ∷ a) (y ∷ b) h = ground (arith, eq_iff x y, strings_equal→eq a b)

strings_equal_refl : (a : List String) → strings_equal a a ≡ true
strings_equal_refl [] = refl
strings_equal_refl (x ∷ a) = rw (eq_refl x) (strings_equal_refl a)

contains-insert_sorted :
    (n s : String) (l : List String) → contains n (insert_sorted s l) ≡ ((s == n) || contains n l)
unfolding contains insert_sorted
contains-insert_sorted n s [] = ground arith
contains-insert_sorted n s (t ∷ l) = ground (arith, contains-insert_sorted n s l)

pub contains-sort_strings :
    (n : String) (l : List String) → contains n (sort_strings l) ≡ contains n l
unfolding contains sort_strings
contains-sort_strings n [] = refl
contains-sort_strings n (s ∷ l) =
    contains-insert_sorted n s (sort_strings l)
    ∙ ap (λ b. (s == n) || b) (contains-sort_strings n l)

ensure_status_again :
    (t : Tenant) (clusters : List Cluster)
    → (get_compile_pipeline_status t).clusters
      ≡ sorted_cluster_names (filter_deleted_clusters clusters)
    → (ensure_status t clusters).1 ≡ false
unfolding ensure_status
ensure_status_again t clusters h = ground (
  arith,
  h,
  strings_equal_refl (sorted_cluster_names (filter_deleted_clusters clusters)),
  ap (λ l. strings_equal l (sorted_cluster_names (filter_deleted_clusters clusters))) h,
)

module _ (t : Tenant) (clusters : List Cluster) where
  clusters-ensure_status :
      (get_compile_pipeline_status (ensure_status t clusters).0).clusters
      ≡ sorted_cluster_names (filter_deleted_clusters clusters)
  unfolding ensure_status
  clusters-ensure_status = ground (
    arith,
    strings_equal→eq (get_compile_pipeline_status t).clusters
        (sorted_cluster_names (filter_deleted_clusters clusters)),
  )

  -- The status lists exactly the names of the clusters that are not being deleted, and a second run
  -- over the same clusters finds nothing to write.
  pub ensure_status_lem :
      ((n : String)
        → contains n (get_compile_pipeline_status (ensure_status t clusters).0).clusters
          ≡ contains n (cluster_names (filter_deleted_clusters clusters)))
      × ((ensure_status (ensure_status t clusters).0 clusters).1 ≡ false)
  ensure_status_lem = (
    (λ n. rw clusters-ensure_status (
        unfold sorted_cluster_names in
        contains-sort_strings n (cluster_names (filter_deleted_clusters clusters)))),
    again,
  )
    where
      again : (ensure_status (ensure_status t clusters).0 clusters).1 ≡ false
      again = ensure_status_again (ensure_status t clusters).0 clusters clusters-ensure_status
