-- ===== src/Failover/Only.antt =====
-- Only pods that fail their check are deleted.
use tsdb_operator.Base.{
  Any, refl, attempt, some, Option, err, panic, ◌∙◌, ℕ, suc, ◌≤◌, String, none, List, [], ◌∷◌, Bool,
  true, false, ◌==◌, eq_iff, ◌≡◌, ◌≢◌, ◌⊎◌, inl, inr, All, arith, length, ok, Result, Error, pure,
  if◌then◌else◌, leb, handle, Bool-cases, ◌<◌,
}
use tsdb_operator.Base.Hoare.{
  Keeps, bind-Keeps, attempt-Keeps, handle-Keeps, wrapping-Keeps, if-Keeps,
}
use tsdb_operator.Base.Loops.{Wake, cancelled, ticker_loop-Keeps, ticker_loop-ends}
use tsdb_operator.Types.{PrometheusCluster}
use tsdb_operator.Failover.{
  Pod, Checker, ready_url, record_failover, trigger_failover, check_pod, check_pods, check_cluster,
  check_clusters, check_all, start,
}

-- What is seen of the world: the pods deleted, the last one first, and the failovers counted.
pub record Seen : Type 0 where
  pub deleted : List Pod
  pub failovers : ℕ

logged :
    {W : Type 0} (x : Result Unit × W)
    → x.0 ≢ panic
    → (handle x.0 (λ e. pure tt) pure x.1).0 ≢ panic
logged (ok a, w) h e = cc
logged (err x, w) h e = cc
logged (panic, w) h e = h refl

module _ {Q W : Type 0} (h : Checker Q W) (seen : W → Seen) (healthy : (url : String) → Bool) where
  -- Calls delete no pod and count no failover, except those whose work that is; a healthy address
  -- answers with a code below 500.
  pub record CheckerLaws : Type 0 where
    pub list_clusters : (w : W) → seen (h.list_clusters w).1 ≡ seen w
    pub list_pods :
        (ns : String) (labels : List (String × String)) (w : W)
        → seen (h.list_pods ns labels w).1 ≡ seen w
    pub update_status :
        (pc : PrometheusCluster Q) (w : W) → seen (h.update_cluster_status pc w).1 ≡ seen w
    pub event :
        (pc : PrometheusCluster Q) (reason message : String) (w : W)
        → seen (h.event pc reason message w) ≡ seen w
    pub get : (url : String) (w : W) → seen (h.get url w).1 ≡ seen w
    pub answer :
        (url : String) (w : W)
        → healthy url ≡ true
        → (code : ℕ) × ((h.get url w).0 ≡ ok code) × (code < 500)
    pub counted :
        (ns cluster : String) (w : W)
        → seen (h.registry.inc_failover_total ns cluster w)
          ≡ record { deleted = (seen w).deleted; failovers = suc (seen w).failovers }
    pub deletes :
        (pod : Pod) (w : W)
        → (seen (h.delete_pod pod w).1 ≡ seen w)
          ⊎ (seen (h.delete_pod pod w).1
              ≡ record { deleted = pod ∷ (seen w).deleted; failovers = (seen w).failovers })

  abbrev pub IsFailing : Pod → Type 0
  IsFailing pod = (pod.ip ≢ "") × (healthy (ready_url pod) ≡ false)

  -- All pods deleted were failing, and each was counted.
  abbrev pub IsJustified : W → Type 0
  IsJustified w = All IsFailing (seen w).deleted × (length (seen w).deleted ≤ (seen w).failovers)

  module _ (laws : CheckerLaws) where
    same-IsJustified : (w w' : W) → seen w' ≡ seen w → IsJustified w → IsJustified w'
    same-IsJustified w w' e j = rw e j

    record-Keeps : (pc : PrometheusCluster Q) → Keeps IsJustified (record_failover h pc)
    unfolding record_failover
    record-Keeps pc w =
        attempt-Keeps IsJustified (h.update_cluster_status _) _ _
          (λ w j. same-IsJustified w _ (laws.update_status _ w) j) (λ e w j. j) (λ a w j. j) w

    deleted-IsJustified :
        (pod : Pod) (w w₁ : W)
        → IsFailing pod
        → seen w₁ ≡ record { deleted = (seen w).deleted; failovers = suc (seen w).failovers }
        → IsJustified w
        → IsJustified (h.delete_pod pod w₁).1
    deleted-IsJustified pod w w₁ failing counted (all, few) = elim (laws.deletes pod w₁) [
      | inl e ↦ rw (e, counted) (all, omega arith)
      | inr e ↦ rw (e, counted) ((failing, all), omega arith)
    ]

    trigger-Keeps :
        (pc : PrometheusCluster Q) (pod : Pod) (cause : Option Error)
        → IsFailing pod
        → Keeps IsJustified (trigger_failover h pc pod cause)
    unfolding trigger_failover
    trigger-Keeps pc pod cause failing w j =
        let w₁ =
          h.event pc "FailoverTriggered" _
            (h.registry.inc_failover_total pc.meta.namespace pc.meta.name w) in
        let counted =
          laws.event pc "FailoverTriggered" _ _ ∙ laws.counted pc.meta.namespace pc.meta.name w in
        handle-Keeps IsJustified (h.delete_pod pod w₁).0 (λ e. pure pc) (λ _. record_failover h pc)
          (h.delete_pod pod w₁).1 (λ e w j. j) (λ _. record-Keeps pc)
          (deleted-IsJustified pod w w₁ failing counted j)

    get-Keeps : (url : String) → Keeps IsJustified (h.get url)
    get-Keeps url w j = same-IsJustified w _ (laws.get url w) j

    answered-Keeps :
        (pc : PrometheusCluster Q) (pod : Pod) (code : ℕ) (r : Result ℕ) (w : W)
        → r ≡ ok code
        → code < 500
        → IsJustified w
        → IsJustified
            (handle r
              (λ e. trigger_failover h pc pod (some e))
              (λ code. if leb 500 code then trigger_failover h pc pod none else pure pc)
              w).1
    answered-Keeps pc pod code r w at small j =
        let fine : leb 500 code ≡ false = ground arith in rw at (rw fine j)

    pod-Keeps : (pc : PrometheusCluster Q) (pod : Pod) → Keeps IsJustified (check_pod h pc pod)
    unfolding check_pod
    pod-Keeps pc pod w j = elim (Bool-cases (pod.ip == "")) [
      | inl e ↦ rw (e, check_pod) j
      | inr e ↦
          rw (e, check_pod)
            (elim (Bool-cases (healthy (ready_url pod))) [
              | inl up ↦
                  let (code, at, small) = laws.answer (ready_url pod) w up in
                  answered-Keeps pc pod code _ _ at small (get-Keeps (ready_url pod) w j)
              | inr down ↦
                  let failing : IsFailing pod = (ground (arith, eq_iff pod.ip ""), down) in
                  attempt-Keeps IsJustified (h.get (ready_url pod)) _ _ (get-Keeps (ready_url pod))
                    (λ e. trigger-Keeps pc pod (some e) failing)
                    (λ code.
                      if-Keeps IsJustified (leb 500 code) _ _ (trigger-Keeps pc pod none failing)
                        (λ w j. j))
                    w j
            ])
    ]

    pods-Keeps :
        (pc : PrometheusCluster Q) (pods : List Pod) → Keeps IsJustified (check_pods h pc pods)
    unfolding check_pods
    pods-Keeps pc [] = λ w j. j
    pods-Keeps pc (pod ∷ pods) =
        bind-Keeps IsJustified _ _ (pod-Keeps pc pod) (λ current. pods-Keeps current pods)

    cluster-Keeps : (pc : PrometheusCluster Q) → Keeps IsJustified (check_cluster h pc)
    unfolding check_cluster
    cluster-Keeps pc =
        let labels = ("app.kubernetes.io/instance", pc.meta.name) ∷ [] in
        attempt-Keeps IsJustified (h.list_pods pc.meta.namespace labels) (λ e. pure pc)
          (check_pods h pc)
          (λ w j. same-IsJustified w _ (laws.list_pods pc.meta.namespace labels w) j) (λ e w j. j)
          (pods-Keeps pc)

    clusters-Keeps : (pcs : List (PrometheusCluster Q)) → Keeps IsJustified (check_clusters h pcs)
    unfolding check_clusters
    clusters-Keeps [] = λ w j. j
    clusters-Keeps (pc ∷ pcs) =
        bind-Keeps IsJustified _ _ (cluster-Keeps pc) (λ _. clusters-Keeps pcs)

    -- A round of checks, on every outcome of every call: if before it all pods deleted by failovers
    -- had an address that was not healthy, and each had been counted, then so after it.
    pub check_all-IsJustified : (w : W) → IsJustified w → IsJustified (check_all h w).1
    unfolding check_all
    check_all-IsJustified =
        bind-Keeps IsJustified _ _
          (wrapping-Keeps IsJustified "list clusters" h.list_clusters
            (λ w j. same-IsJustified w _ (laws.list_clusters w) j))
          clusters-Keeps

    -- A whole run of the checker, however often its ticker fires and on every outcome of every call:
    -- if before it all pods deleted by failovers had an address that was not healthy, and each had
    -- been counted, then so after it.
    pub start-IsJustified :
        (wakes : List Wake) (w : W) → IsJustified w → IsJustified (start h wakes w).1
    unfolding start
    start-IsJustified = ticker_loop-Keeps IsJustified (attempt (check_all h) (λ e. pure tt) pure) (
        attempt-Keeps IsJustified (check_all h) (λ e. pure tt) pure check_all-IsJustified
          (λ e w j. j) (λ a w j. j))

-- A checker whose rounds do not panic ends without an error once its context is over, whatever
-- errors the rounds met.
pub start-ends :
    {Q W : Type 0} (h : Checker Q W)
    → ((w : W) → (check_all h w).0 ≢ panic)
    → (wakes : List Wake) (w : W) → Any (λ k. k ≡ cancelled) wakes
    → (start h wakes w).0 ≡ some (ok tt)
unfolding start
start-ends h calm =
    ticker_loop-ends (attempt (check_all h) (λ e. pure tt) pure)
      (λ w. logged (check_all h w) (calm w))
