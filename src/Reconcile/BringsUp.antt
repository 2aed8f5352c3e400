-- ===== src/Reconcile/BringsUp.antt =====
-- Two passes bring up a new cluster.
use tsdb_operator.Base.{Option, Result, some, true, false, ◌≡◌, refl, sym, ap, ◌∙◌, subst, ok}
use tsdb_operator.Types.{Key, key_of, is_zero_time, PrometheusCluster, StatefulSet, PodTemplate}
use tsdb_operator.Kube.Laws.{Store, remaining, Frames, Effects, OwnerKeepsKey}
use tsdb_operator.Reconcile.{
  Reconciler, done, requeue, finalizer_name, add_finalizer, reconcile_found, reconcile,
}
use tsdb_operator.Reconcile.Steps.{PhasesApart, RegisterApart}
use tsdb_operator.Reconcile.Settled.{IsSettled, child_key}
use tsdb_operator.Reconcile.Converges.{reconcile-IsSettled}
use tsdb_operator.Reconcile.Available.{IsAvailable, IsAccepted, children-Returns}

abbrev pub with_finalizer :
    {Q W : Type 0} → Reconciler Q W → PrometheusCluster Q → PrometheusCluster Q
with_finalizer r pc = record pc { meta = r.tools.add_finalizer pc.meta finalizer_name }

module _ {Q W : Type 0} (Defaulted : PodTemplate Q → PodTemplate Q → Type 0) (r : Reconciler Q W)
    (view : W → Store Q) (frames : Frames view r.client) (effects : Effects Defaulted view r.client)
    (owners : OwnerKeepsKey r.tools) (apart : PhasesApart r view)
    (registering : RegisterApart r view) (up : IsAvailable r view) where
  -- Its StatefulSet, if there is one.
  abbrev pub set_of : PrometheusCluster Q → W → Option (StatefulSet Q)
  set_of pc w = (view w).stateful_sets (child_key pc pc.meta.name)

  settles :
      (pc : PrometheusCluster Q)
      → IsAccepted r view pc
      → (key : Key) (w : W) → (view w).clusters key ≡ some pc
      → is_zero_time pc.meta.deletion_timestamp ≡ true
      → r.tools.contains_finalizer pc.meta finalizer_name ≡ true
      → (w' : W) × (reconcile r key w ≡ (ok done, w'))
        × IsSettled Defaulted r pc (set_of pc w) (view w')
  unfolding reconcile reconcile_found
  settles pc accepted key w stored live held =
      let (w₁, q) = up.reads key w pc stored in
      let (n, w₂, q₂, is_done) = children-Returns r view up pc accepted w₁ in
      let passed : reconcile r key w ≡ (ok done, w₂) = rw (q, live, held, q₂, is_done) refl in
      (
        w₂,
        passed,
        reconcile-IsSettled Defaulted r view pc frames effects owners apart registering key w done
            w₂ stored live held passed,
      )

  -- While the API server takes every write and no other client writes, for a cluster whose backups
  -- are off or whose registration the scheduler takes (if the reconciler has one): the first pass
  -- over a new cluster adds the finalizer and asks for another pass, and the second succeeds, is
  -- done, and leaves the children and the status as the specification asks.
  pub reconcile-brings_up :
      (pc : PrometheusCluster Q) (w : W)
      → (view w).clusters (key_of pc.meta) ≡ some pc
      → is_zero_time pc.meta.deletion_timestamp ≡ true
      → r.tools.contains_finalizer pc.meta finalizer_name ≡ false
      → IsAccepted r view (with_finalizer r pc)
      → (w₁ w₂ : W) × (reconcile r (key_of pc.meta) w ≡ (ok requeue, w₁))
        × (reconcile r (key_of pc.meta) w₁ ≡ (ok done, w₂))
        × IsSettled Defaulted r (with_finalizer r pc) (set_of (with_finalizer r pc) w) (view w₂)
  unfolding reconcile reconcile_found add_finalizer
  reconcile-brings_up pc w stored live bare accepted =
      let key = key_of pc.meta in
      let (w₀, q) = up.reads key w pc stored in
      let (w₁, q₁, there) = up.updates (with_finalizer r pc) w₀ in
      let (has, same_key, same_time) = up.adds_finalizer pc.meta in
      let first : reconcile r key w ≡ (ok requeue, w₁) = rw (q, live, bare, q₁) refl in
      let still : is_zero_time (with_finalizer r pc).meta.deletion_timestamp ≡ true =
        ap is_zero_time same_time ∙ live in
      let kept : remaining (with_finalizer r pc) ≡ some (with_finalizer r pc) = rw still refl in
      let (w₂, second, settled) =
        settles (with_finalizer r pc) accepted key w₁
          (subst (λ k. (view w₁).clusters k ≡ some (with_finalizer r pc)) same_key (there ∙ kept))
          still has in
      let read : view w₀ ≡ view w =
        ap (λ (x : Result (PrometheusCluster Q) × W). view x.1) (sym q)
        ∙ frames.get_cluster key w in
      let same = frames.update_cluster (with_finalizer r pc) w₀ in
      let sets : (view w₁).stateful_sets ≡ (view w).stateful_sets =
        ap (λ (x : Result (PrometheusCluster Q) × W). (view x.1).stateful_sets) (sym q₁)
        ∙ same.stateful_sets
        ∙ ap (λ (s : Store Q). s.stateful_sets) read in
      (
        w₁,
        w₂,
        first,
        second,
        subst (λ s. IsSettled Defaulted r (with_finalizer r pc) s (view w₂))
            (ap (λ f. f (child_key (with_finalizer r pc) (with_finalizer r pc).meta.name)) sets)
            settled,
      )
