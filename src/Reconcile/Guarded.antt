-- ===== src/Reconcile/Guarded.antt =====
-- A cluster that is being deleted, or has no finalizer yet, gets no objects.
use mathlib.Core.Option.{some-injective}
use tsdb_operator.Base.{
  String, some, false, ◌≡◌, refl, ◌∙◌, Result, ok, err, panic, arith, if◌then◌else◌, Bool-cases,
  inl, inr, ◌⊎◌, is_not_found, throw, wrap, pure, handle, modify, ap, ◌>>◌, sym,
}
use tsdb_operator.Base.Hoare.{Keeps, bind-Keeps, if-Keeps}
use tsdb_operator.Types.{Key, is_zero_time, PrometheusCluster, PodTemplate}
use tsdb_operator.Kube.Laws.{Store, SameChildren, Frames, Effects}
use tsdb_operator.Metrics.{delete_cluster}
use tsdb_operator.Reconcile.{
  Reconciler, done, finalizer_name, finalize, add_finalizer, reconcile_found, reconcile,
}

module _ {Q W : Type 0} (r : Reconciler Q W) (view : W → Store Q) where
  -- Deleting a cluster's series leaves the API server alone.
  abbrev pub MetricsApart : Type 0
  MetricsApart =
      (ns cluster : String) (w : W) → view (delete_cluster r.registry ns cluster w) ≡ view w

  module _ (frames : Frames view r.client) (apart : MetricsApart) (start : Store Q) where
    abbrev Untouched : W → Type 0
    Untouched w = SameChildren start (view w)

    update-Keeps : (pc : PrometheusCluster Q) → Keeps Untouched (r.client.update_cluster pc)
    update-Keeps pc w h =
        let same = frames.update_cluster pc w in
        record {
          stateful_sets = same.stateful_sets ∙ h.stateful_sets;
          config_maps = same.config_maps ∙ h.config_maps;
          services = same.services ∙ h.services;
        }

    forget-Keeps :
        (stored : PrometheusCluster Q)
        → Keeps Untouched
            (modify (delete_cluster r.registry stored.meta.namespace stored.meta.name) >> pure done)
    forget-Keeps stored w h = rw (apart stored.meta.namespace stored.meta.name w) h

    finalize-Keeps : (pc : PrometheusCluster Q) → Keeps Untouched (finalize r pc)
    unfolding finalize
    finalize-Keeps pc =
        if-Keeps Untouched (r.tools.contains_finalizer pc.meta finalizer_name) _ _
          (bind-Keeps Untouched _ _ (update-Keeps _) forget-Keeps) (λ w h. h)

    add_finalizer-Keeps : (pc : PrometheusCluster Q) → Keeps Untouched (add_finalizer r pc)
    unfolding add_finalizer
    add_finalizer-Keeps pc = bind-Keeps Untouched _ _ (update-Keeps _) (λ _ w h. h)

    guarded-Keeps :
        (pc : PrometheusCluster Q)
        → (is_zero_time pc.meta.deletion_timestamp ≡ false)
          ⊎ (r.tools.contains_finalizer pc.meta finalizer_name ≡ false)
        → Keeps Untouched (reconcile_found r pc)
    unfolding reconcile_found
    guarded-Keeps pc h = elim (Bool-cases (is_zero_time pc.meta.deletion_timestamp)) [
      | inr deleted ↦ rw (deleted, reconcile_found) (finalize-Keeps pc)
      | inl live ↦
          let bare : r.tools.contains_finalizer pc.meta finalizer_name ≡ false = ground arith in
          rw (live, bare, reconcile_found) (add_finalizer-Keeps pc)
    ]

    got-Keeps :
        (pc : PrometheusCluster Q) (key : Key) (w : W) (x : Result (PrometheusCluster Q) × W)
        → ((found : PrometheusCluster Q) → x.0 ≡ ok found → found ≡ pc)
        → (is_zero_time pc.meta.deletion_timestamp ≡ false)
          ⊎ (r.tools.contains_finalizer pc.meta finalizer_name ≡ false)
        → Untouched x.1
        → Untouched
            (handle x.0
              (λ e.
                if is_not_found e.reason then pure done else throw (wrap "get PrometheusCluster" e))
              (reconcile_found r)
              x.1).1
    got-Keeps pc key w (ok found, w') same guard h =
        guarded-Keeps found (rw (same found refl) guard) w' h
    got-Keeps pc key w (err e, w') same guard h =
        if-Keeps Untouched (is_not_found e.reason) (pure done) (throw _) (λ _ k. k) (λ _ k. k) w' h
    got-Keeps pc key w (panic, w') same guard h = h

-- One pass over a cluster that is being deleted or has no finalizer leaves every StatefulSet,
-- ConfigMap and Service as it is, on every outcome of every call.
pub reconcile-SameChildren :
    {Q W : Type 0} {Defaulted : PodTemplate Q → PodTemplate Q → Type 0} (r : Reconciler Q W)
    (view : W → Store Q)
    → Frames view r.client
    → Effects Defaulted view r.client
    → MetricsApart r view
    → (key : Key) (pc : PrometheusCluster Q) (w : W) → (view w).clusters key ≡ some pc
    → (is_zero_time pc.meta.deletion_timestamp ≡ false)
      ⊎ (r.tools.contains_finalizer pc.meta finalizer_name ≡ false)
    → SameChildren (view w) (view (reconcile r key w).1)
unfolding reconcile
reconcile-SameChildren r view frames effects apart key pc w stored guard =
    got-Keeps r view frames apart (view w) pc key w (r.client.get_cluster key w)
      (λ found e.
        let seen =
          effects.cluster_found key w found (r.client.get_cluster key w).1
            (ap (λ x. (x, (r.client.get_cluster key w).1)) e) in
        some-injective found pc (sym seen ∙ stored))
      guard
      (rw (frames.get_cluster key w)
        (record { stateful_sets = refl; config_maps = refl; services = refl }))
