-- ===== src/Reconcile/Finalizes.antt =====
-- A cluster that is being deleted is let go.
use tsdb_operator.Base.{
  String, List, [], ◌∷◌, none, some, true, false, ◌≡◌, ◌≢◌, ◌⊎◌, inl, inr, refl, ap, ◌∙◌, subst, ok,
  if◌then◌else◌,
}
use tsdb_operator.Types.{key_of, is_zero_time, ObjectMeta, PrometheusCluster}
use tsdb_operator.Metrics.{delete_cluster}
use tsdb_operator.Kube.Laws.{Store, remaining, is_empty}
use tsdb_operator.Reconcile.{Reconciler, done, finalizer_name, finalize, reconcile_found, reconcile}
use tsdb_operator.Reconcile.Guarded.{MetricsApart}
use tsdb_operator.Reconcile.Available.{IsAvailable}

module _ {Q W : Type 0} (r : Reconciler Q W) (view : W → Store Q) where
  abbrev pub without_finalizer : PrometheusCluster Q → PrometheusCluster Q
  without_finalizer pc = record pc { meta = r.tools.remove_finalizer pc.meta finalizer_name }

  -- The finalizer that is removed is gone; name, namespace and the deletion stay.
  abbrev pub RemovesFinalizer : Type 0
  RemovesFinalizer =
      (m : ObjectMeta)
      → (r.tools.contains_finalizer (r.tools.remove_finalizer m finalizer_name) finalizer_name
          ≡ false)
        × (key_of (r.tools.remove_finalizer m finalizer_name) ≡ key_of m)
        × ((r.tools.remove_finalizer m finalizer_name).deletion_timestamp ≡ m.deletion_timestamp)

  -- The cluster is gone from the API server if it has no other finalizer, and else it is stored
  -- without this one, all else as it was.
  abbrev pub IsLetGo : PrometheusCluster Q → W → Type 0
  IsLetGo pc w' =
      (((without_finalizer pc).meta.finalizers ≡ []) × ((view w').clusters (key_of pc.meta) ≡ none))
      ⊎ (((without_finalizer pc).meta.finalizers ≢ [])
          × ((view w').clusters (key_of pc.meta) ≡ some (without_finalizer pc))
          × (r.tools.contains_finalizer (without_finalizer pc).meta finalizer_name ≡ false))

  remaining-deleted :
      (pc : PrometheusCluster Q)
      → is_zero_time pc.meta.deletion_timestamp ≡ false
      → ((pc.meta.finalizers ≡ []) × (remaining pc ≡ none))
        ⊎ ((pc.meta.finalizers ≢ []) × (remaining pc ≡ some pc))
  remaining-deleted pc deleting =
      let on : remaining pc ≡ (if is_empty pc.meta.finalizers then none else some pc) =
        rw deleting refl in
      elim (empty_cases pc.meta.finalizers) [
        | inl (same, empty) ↦ inl (same, on ∙ ap (λ b. if b then none else some pc) empty)
        | inr (other, full) ↦ inr (other, on ∙ ap (λ b. if b then none else some pc) full)
      ]
    where
      empty_cases :
          (xs : List String)
          → ((xs ≡ []) × (is_empty xs ≡ true)) ⊎ ((xs ≢ []) × (is_empty xs ≡ false))
      empty_cases [] = inl (refl, refl)
      empty_cases (x ∷ xs) = inr (λ e. cc, refl)

  -- While the API server takes every write: a pass over a cluster that is being deleted and has the
  -- finalizer succeeds and is done. The cluster is then gone from the API server, unless it has other
  -- finalizers: then it is stored without this one, all else as it was.
  pub reconcile-finalizes :
      IsAvailable r view
      → MetricsApart r view
      → RemovesFinalizer
      → (pc : PrometheusCluster Q) (w : W) → (view w).clusters (key_of pc.meta) ≡ some pc
      → is_zero_time pc.meta.deletion_timestamp ≡ false
      → r.tools.contains_finalizer pc.meta finalizer_name ≡ true
      → (w' : W) × (reconcile r (key_of pc.meta) w ≡ (ok done, w')) × IsLetGo pc w'
  unfolding reconcile reconcile_found finalize
  reconcile-finalizes up apart removes pc w stored deleting held =
      let key = key_of pc.meta in
      let (w₀, q) = up.reads key w pc stored in
      let (w₁, q₁, there) = up.updates (without_finalizer pc) w₀ in
      let (gone, same_key, same_time) = removes pc.meta in
      let meta = (without_finalizer pc).meta in
      let w₂ = delete_cluster r.registry meta.namespace meta.name w₁ in
      let passed : reconcile r key w ≡ (ok done, w₂) = rw (q, deleting, held, q₁) refl in
      let after : (view w₂).clusters key ≡ remaining (without_finalizer pc) =
        ap (λ s. s.clusters key) (apart meta.namespace meta.name w₁)
        ∙ subst (λ k. (view w₁).clusters k ≡ remaining (without_finalizer pc)) same_key there in
      (
        w₂,
        passed,
        elim (remaining-deleted (without_finalizer pc) (ap is_zero_time same_time ∙ deleting)) [
          | inl (empty, none_left) ↦ inl (empty, after ∙ none_left)
          | inr (other, kept) ↦ inr (other, after ∙ kept, gone)
        ],
      )
