-- ===== src/CompilePipeline/Release.antt =====
-- Every cluster that is being deleted is released in the end.
use lieutenant_operator.Prelude.{
  ◌<>◌, ◌⊎◌, ◌≡◌, sym, subst, ◌∙◌, ap, Bool, true, false, not, ◌&&◌, List, [], ◌∷◌, All, Bool-cases,
  inl, inr,
}
use lieutenant_operator.Errors.{Outcome, ok, err, annotate}
use lieutenant_operator.Exec
use lieutenant_operator.Exec.{Exec, pure, annotated, continue_keeps, continue_ok}
use lieutenant_operator.Api.Meta.{is_zero, pipeline_finalizer_name}
use lieutenant_operator.Api.Cluster.{Cluster}
use lieutenant_operator.Kube.{Client, Library}
use lieutenant_operator.CompilePipeline.Ordering.{with_finalizers}
use lieutenant_operator.CompilePipeline.Reconcile.{remove_pipeline_finalizer, release_clusters}

annotate_ok {ℓ} : {A : Type ℓ} (s : _) (r : Outcome A) (a : A) → annotate s r ≡ ok a → r ≡ ok a
annotate_ok s (ok b) a h = h
annotate_ok s (err e) a h = cc

module _ {W : Type 0} (cli : Client W) (lib : Library) where
  -- The cluster without the finalizer of the pipeline.
  abbrev pub freed : Cluster → Cluster
  freed c = with_finalizers (lib.remove_finalizer c.meta.finalizers pipeline_finalizer_name).0 c

  -- A cluster that is being deleted and still has the finalizer.
  abbrev pub is_held : Cluster → Bool
  is_held c =
      not (is_zero c.meta.deletion_timestamp)
      && (lib.remove_finalizer c.meta.finalizers pipeline_finalizer_name).1

  remove_held :
      (c : Cluster) (w : W)
      → is_held c ≡ true
      → remove_pipeline_finalizer cli lib c w
        ≡ Exec.continue
            (λ _. pure tt)
            (annotate
              ("error removing finalizer from cluster " <> c.meta.name)
              (cli.update_cluster (freed c) w).0)
            (cli.update_cluster (freed c) w).1
  unfolding remove_pipeline_finalizer
  remove_held c w h = rw (remove_pipeline_finalizer, h)

  module _ (released : Cluster → W → Type 0)
      (writes : (c : Cluster) (w : W) (a : Cluster)
        → (cli.update_cluster (freed c) w).0 ≡ ok a
        → released c (cli.update_cluster (freed c) w).1)
      (keeps : (c d : Cluster) (w : W) → released c w → released c (cli.update_cluster d w).1) where
    remove_keeps :
        (c d : Cluster) (w : W)
        → released c w
        → released c (remove_pipeline_finalizer cli lib d w).1
    unfolding remove_pipeline_finalizer
    remove_keeps c d w h =
        elim (Bool-cases (
          not (is_zero d.meta.deletion_timestamp)
          && (lib.remove_finalizer d.meta.finalizers pipeline_finalizer_name).1)) [
            | inl y ↦
                rw (y, remove_pipeline_finalizer)
                  (continue_keeps (released c) (λ _. pure tt)
                    (annotate ("error removing finalizer from cluster " <> d.meta.name)
                      (cli.update_cluster (freed d) w).0)
                    (cli.update_cluster (freed d) w).1 (keeps c (freed d) w h)
                    (λ _. keeps c (freed d) w h))
            | inr n ↦ rw (n, remove_pipeline_finalizer) h
          ]

    remove_releases :
        (c : Cluster) (w w' : W)
        → is_held c ≡ true
        → remove_pipeline_finalizer cli lib c w ≡ (ok tt, w')
        → released c w'
    remove_releases c w w' held h =
        let e = remove_held c w held in
        let u = cli.update_cluster (freed c) w in
        let (a, q, f) =
          continue_ok (λ _. pure tt)
            (annotate ("error removing finalizer from cluster " <> c.meta.name) u.0) u.1 w' tt
            (sym e ∙ h) in
        subst (released c) (ap (λ (x : Outcome (Unit {0}) × W). x.1) f) (
          writes c w a
            (annotate_ok ("error removing finalizer from cluster " <> c.meta.name) u.0 a q))

    release_keeps :
        (clusters : List Cluster) (c : Cluster) (w : W)
        → released c w
        → released c (release_clusters cli lib clusters w).1
    unfolding release_clusters
    release_keeps [] c w h = h
    release_keeps (d ∷ clusters) c w h =
        let h' = remove_keeps c d w h in
        continue_keeps (released c) (λ _. release_clusters cli lib clusters)
          (remove_pipeline_finalizer cli lib d w).0 (remove_pipeline_finalizer cli lib d w).1 h'
          (λ _. release_keeps clusters c _ h')

    -- Where the last loop succeeds, every cluster that is being deleted and still had the finalizer
    -- has been written without it.
    pub release_clusters_complete :
        (clusters : List Cluster) (w w' : W)
        → release_clusters cli lib clusters w ≡ (ok tt, w')
        → All (λ c. (is_held c ≡ false) ⊎ released c w') clusters
    unfolding release_clusters
    release_clusters_complete [] w w' h = tt
    release_clusters_complete (c ∷ clusters) w w' h =
        let r = remove_pipeline_finalizer cli lib c w in
        let (a, q, f) = continue_ok (λ _. release_clusters cli lib clusters) r.0 r.1 w' tt h in
        (
          elim (Bool-cases (is_held c)) [
            | inl held ↦ inr (
                subst (released c) (ap (λ (x : Outcome (Unit {0}) × W). x.1) f)
                  (release_keeps clusters c r.1 (remove_releases c w r.1 held (λ i. (q i, r.1)))))
            | inr free ↦ inl free
          ],
          release_clusters_complete clusters r.1 w' f,
        )
