-- ===== src/Reconcile/Converges.antt =====
-- A pass that succeeds leaves the objects of the cluster as the specification asks.
use mathlib.Core.Option.{some-injective}
use tsdb_operator.Base.{
  Option, Option-cases, Result, some, true, false, ◌≡◌, refl, sym, ap, ◌∙◌, subst, inl, inr,
  if◌then◌else◌, Bool-cases, ok, err, Error, pure, throw, wrap, is_not_found,
}
use tsdb_operator.Base.Hoare.{Keeps, if-Keeps, Yields, bind-Yields, wrapping-Yields, attempt-Yields}
use tsdb_operator.Types.{Key, is_zero_time, PrometheusCluster, StatefulSet, PodTemplate}
use tsdb_operator.Kube.Laws.{Store, Frames, Effects, OwnerKeepsKey}
use tsdb_operator.Reconcile.{
  Reconciler, Next, done, register_backup, reconcile_children, reconcile_found, reconcile,
  finalizer_name,
}
use tsdb_operator.Reconcile.Steps.{
  Untouched, RegisterApart, Configured, Served, Settled, PhasesApart, config_map-Yields,
  service-Yields,
}
use tsdb_operator.Reconcile.Settled.{IsSettled, child_key}
use tsdb_operator.Reconcile.StatefulSets.{stateful_set-Yields}

module _ {Q W : Type 0} (Defaulted : PodTemplate Q → PodTemplate Q → Type 0) (r : Reconciler Q W)
    (view : W → Store Q) (pc : PrometheusCluster Q) (frames : Frames view r.client)
    (effects : Effects Defaulted view r.client) (owners : OwnerKeepsKey r.tools)
    (apart : PhasesApart r view) (registering : RegisterApart r view) where
  module _ (before : Option (StatefulSet Q)) where
    abbrev First : W → Type 0
    First = Untouched Defaulted r view pc before

    abbrev End : W → Type 0
    End = Settled Defaulted r view pc before

    register-Keeps : Keeps First (register_backup r pc)
    unfolding register_backup
    register-Keeps = elim (Option-cases r.register) [
      | inl off ↦ rw (off, register_backup) (λ w h. h)
      | inr (register, on) ↦
          rw (on, register_backup)
            (if-Keeps First pc.spec.backup.enabled _ _
              (λ w h.
                ap (λ s. s.stateful_sets (child_key pc pc.meta.name)) (registering register on pc w)
                ∙ h)
              (λ w h. h))
    ]

    register-Yields : Yields First (register_backup r pc) (λ _. First)
    register-Yields w h a w' e = subst (λ (x : Result Unit × W). First x.1) e (register-Keeps w h)

    children-Yields : Yields First (reconcile_children r pc) (λ _. End)
    unfolding reconcile_children
    children-Yields =
        bind-Yields _ _ (λ _. First) _ (λ _. End) register-Yields
          λ _.
            bind-Yields _ _ (λ _. Configured Defaulted r view pc before) _ (λ _. End)
              (wrapping-Yields _ _ _ _
                (config_map-Yields Defaulted r view pc before frames effects))
              λ _.
                bind-Yields _ _ (λ _. Served Defaulted r view pc before) _ (λ _. End)
                  (wrapping-Yields _ _ _ _
                    (service-Yields Defaulted r view pc before frames effects))
                  λ _. stateful_set-Yields Defaulted r view pc before frames effects owners apart

  missing :
      (key : Key) (w : W) (e : Error) (w' : W)
      → (view w).clusters key ≡ some pc
      → r.client.get_cluster key w ≡ (err e, w')
      → is_not_found e.reason ≡ false
  missing key w e w' stored q = elim (Bool-cases (is_not_found e.reason)) [
    | inl gone ↦ cc (effects.cluster_missing key w e w' q gone)
    | inr other ↦ other
  ]

  failed :
      (before : Option (StatefulSet Q)) (e : Error) (w : W)
      → is_not_found e.reason ≡ false
      → (a : Next) (w' : W)
      → (if is_not_found e.reason
            then pure {A = Next} done
            else throw (wrap "get PrometheusCluster" e))
          w
        ≡ (ok a, w')
      → IsSettled Defaulted r pc before (view w')
  failed before e w here a w' q =
      let q' : throw {A = Next} (wrap "get PrometheusCluster" e) w ≡ (ok a, w') = rw here at q in cc

  found_children :
      is_zero_time pc.meta.deletion_timestamp ≡ true
      → r.tools.contains_finalizer pc.meta finalizer_name ≡ true
      → reconcile_found r pc ≡ reconcile_children r pc
  unfolding reconcile_found
  found_children live held = rw (live, held, reconcile_found)

  -- A pass over a live cluster that has the finalizer: if it succeeds, the ConfigMap holds the
  -- rendered configuration, the Service is headless, selects the pods and has port 9090, and the
  -- StatefulSet has the replicas of the specification and the desired pod template (as Kubernetes
  -- completes or compares it). The status says Provisioning with no ready replicas if there was no
  -- StatefulSet before the pass. If there was, it has the ready replicas of the StatefulSet, and says
  -- Scaling if the replicas were others than the specification asks for; if not, Provisioning while
  -- fewer are ready than asked for, and Active otherwise.
  pub reconcile-IsSettled :
      (key : Key) (w : W) (n : Next) (w' : W)
      → (view w).clusters key ≡ some pc
      → is_zero_time pc.meta.deletion_timestamp ≡ true
      → r.tools.contains_finalizer pc.meta finalizer_name ≡ true
      → reconcile r key w ≡ (ok n, w')
      → IsSettled Defaulted r pc ((view w).stateful_sets (child_key pc pc.meta.name)) (view w')
  unfolding reconcile
  reconcile-IsSettled key w n w' stored live held e =
      let child = child_key pc pc.meta.name in
      let before = (view w).stateful_sets (child_key pc pc.meta.name) in
      attempt-Yields (λ v. v ≡ w) (r.client.get_cluster key) (λ e _. is_not_found e.reason ≡ false)
        (λ found u. (found ≡ pc) × First before u) _ (reconcile_found r) (λ _. End before)
        (λ v same x u q.
          missing key w x u stored (subst (λ y. r.client.get_cluster key y ≡ (err x, u)) same q))
        (λ v same found w'' q. (
          some-injective found pc (
              sym (effects.cluster_found key v found w'' q)
              ∙ subst (λ u. (view u).clusters key ≡ some pc) (sym same) stored),
          ap (λ (x : Result (PrometheusCluster Q) × W). (view x.1).stateful_sets child) (sym q)
              ∙ ap (λ (s : Store Q). s.stateful_sets child) (frames.get_cluster key v)
              ∙ ap (λ u. (view u).stateful_sets child) same,
        ))
        (λ x u here a u' q. failed before x u here a u' q)
        (λ found u (same, first) a u' q. children-Yields before u first a u' (
          sym (ap (λ m. m u) (found_children live held))
          ∙ subst (λ f. reconcile_found r f u ≡ (ok a, u')) same q))
        w refl n w' e
