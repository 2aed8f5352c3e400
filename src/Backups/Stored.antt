-- ===== src/Backups/Stored.antt =====
-- A run that succeeds has stored the backup.
use tsdb_operator.Base.{
  String, List, ◌==◌, ◌≡◌, refl, ap, ◌∙◌, subst, Any, ok, err, panic, Result, not, ◌||◌,
}
use tsdb_operator.Base.Hoare.{
  Yields, bind-Yields, wrapping-Yields, attempt-Yields, pure-Yields, if-Yields,
}
use tsdb_operator.Types.{PrometheusCluster, Time}
use tsdb_operator.Backups.{
  Services, object_key, backed_up, stream_result, tar_stream, cleanup_snapshot, upload, upload_now,
  record_backup, back_up, run_once,
}

pub record Stored : Type 0 where
  pub bucket : String
  pub key : String

module _ {Q W : Type 0} (s : Services Q W) (objects : W → List Stored) where
  abbrev pub Has : (bucket key : String) → W → Type 0
  Has bucket key w = Any (λ o. (o.bucket ≡ bucket) × (o.key ≡ key)) (objects w)

  -- An upload that succeeds stores its object, and the calls after it leave the store alone.
  pub record StoreLaws : Type 0 where
    pub put_stores :
        (bucket key body : String) (w w' : W)
        → s.put_object bucket key body w ≡ (ok tt, w')
        → Has bucket key w'
    pub stream_stores :
        (ns pod container : String) (command : List String) (bucket key : String) (w : W)
        → (s.stream ns pod container command bucket key w).0 ≡ (ok tt, ok tt)
        → Has bucket key (s.stream ns pod container command bucket key w).1
    pub exec_leaves :
        (ns pod container : String) (command : List String) (w : W)
        → objects (s.exec ns pod container command w).1 ≡ objects w
    pub status_leaves :
        (pc : PrometheusCluster Q) (w : W) → objects (s.update_cluster_status pc w).1 ≡ objects w
    pub count_leaves :
        (ns name label : String) (w : W)
        → objects (s.registry.inc_backup_total ns name label w) ≡ objects w

  -- The object of the cluster for some time.
  abbrev pub HasBackup : PrometheusCluster Q → W → Type 0
  HasBackup pc w =
      (t : Time) × Has pc.spec.backup.bucket (object_key pc.spec.backup.prefix pc.meta.name t) w

  -- The cluster as the run read it.
  abbrev pub IsRead : (namespace name : String) → PrometheusCluster Q → Type 0
  IsRead namespace name pc =
      (w₀ w₁ : W) × (s.get_cluster (record { namespace = namespace; name = name }) w₀ ≡ (ok pc, w₁))

  abbrev pub Backed : (namespace name : String) → W → Type 0
  Backed namespace name w = (pc : PrometheusCluster Q) × IsRead namespace name pc × HasBackup pc w

  stream_result-ok : (r : Result Unit × Result Unit) → stream_result r ≡ ok tt → r ≡ (ok tt, ok tt)
  stream_result-ok (ok a, ok b) e = refl
  stream_result-ok (ok a, err x) e = cc
  stream_result-ok (ok a, panic) e = cc
  stream_result-ok (err x, b) e = cc
  stream_result-ok (panic, b) e = cc

  module _ (laws : StoreLaws) where
    tar_stream-Yields :
        (pc : PrometheusCluster Q) (snap key : String)
        → Yields (λ _. Unit) (tar_stream s pc snap key) (λ _. Has pc.spec.backup.bucket key)
    unfolding tar_stream
    tar_stream-Yields pc snap key w u a w' e =
        subst (Has pc.spec.backup.bucket key) (ap (λ x. x.1) e)
          (laws.stream_stores _ _ _ _ _ key w (stream_result-ok _ (ap (λ x. x.0) e)))

    kept :
        (bucket key : String) (w w' : W)
        → objects w' ≡ objects w
        → Has bucket key w
        → Has bucket key w'
    kept bucket key w w' e h = rw e h

    cleaned :
        (bucket key : String) (pc : PrometheusCluster Q) (snap : String) (w : W) (r : Result Unit)
        → Has bucket key w
        → (w' : W) → cleanup_snapshot s pc snap w ≡ (r, w')
        → Has bucket key w'
    unfolding cleanup_snapshot
    cleaned bucket key pc snap w r h w' q =
        kept bucket key w w'
          (subst (λ v. objects v ≡ objects w) (ap (λ x. x.1) q) (laws.exec_leaves _ _ _ _ w)) h

    upload-Yields :
        (pc : PrometheusCluster Q) (snap body key : String)
        → Yields (λ _. Unit) (upload s pc snap body key) (λ _. Has pc.spec.backup.bucket key)
    unfolding upload
    upload-Yields pc snap body key =
        let stored = Has pc.spec.backup.bucket key in
        if-Yields _ (not s.can_exec || snap == "") _ _ _
          (λ _.
            wrapping-Yields _ _ _ _
              (λ w u a w' e. laws.put_stores pc.spec.backup.bucket key body w w' e))
          (λ _.
            bind-Yields _ _ (λ _. stored) _ _
              (wrapping-Yields _ _ _ _ (tar_stream-Yields pc snap key))
              (λ _.
                attempt-Yields stored (cleanup_snapshot s pc snap) (λ _. stored) (λ _. stored) _ _ _
                  (λ w h x w' q. cleaned _ _ pc snap w _ h w' q)
                  (λ w h a w' q. cleaned _ _ pc snap w _ h w' q)
                  (λ e. pure-Yields _ tt _ (λ w h. h)) (λ a. pure-Yields _ a _ (λ w h. h))))

    record-Yields :
        (pc : PrometheusCluster Q) → Yields (HasBackup pc) (record_backup s pc) (λ _. HasBackup pc)
    unfolding record_backup
    record-Yields pc w h =
        bind-Yields (λ v. v ≡ w) _ (λ _. HasBackup pc) _ (λ _. HasBackup pc)
          (wrapping-Yields _ "update status" (s.update_cluster_status (backed_up (s.now w) pc)) _
            (λ v at stored w' q.
              let (t, there) = h in
              (
                t,
                kept _ _ w w'
                    (subst (λ u. objects u ≡ objects w) (ap (λ x. x.1) q)
                      (laws.status_leaves (backed_up (s.now w) pc) v ∙ ap objects at))
                    there,
              )))
          (λ _. pure-Yields _ tt _ (λ w h. h)) w refl

    back_up-Yields :
        (namespace name : String)
        → Yields (λ _. Unit) (back_up s namespace name) (λ _. Backed namespace name)
    unfolding back_up upload_now
    back_up-Yields namespace name =
        bind-Yields _ _ (λ pc _. IsRead namespace name pc) _ _
          (wrapping-Yields _ _ _ _ (λ w u pc w' q. (w, w', q)))
          λ pc.
            bind-Yields _ _ (λ _ _. IsRead namespace name pc) _ _ (λ w got a w' q. got)
              λ taken.
                bind-Yields _ (upload_now s pc taken.0 taken.1)
                  (λ _ w. IsRead namespace name pc × HasBackup pc w) _ _
                  (λ w got a w' q. (got, (s.now w, upload-Yields pc taken.0 taken.1 _ w tt a w' q)))
                  (λ _ w both a w' q. (pc, both.0, record-Yields pc w both.1 a w' q))

    -- A run that succeeds has stored an object in the bucket of the cluster that it read, under the
    -- prefix and the name of the cluster and a time stamp.
    pub run_once-Backed :
        (namespace name : String) (w w' : W)
        → run_once s namespace name w ≡ (ok tt, w')
        → Backed namespace name w'
    unfolding run_once
    run_once-Backed namespace name w w' e =
        let after = (back_up s namespace name w).1 in
        let (pc, got, (t, there)) =
          back_up-Yields namespace name w tt tt after (ap (λ x. (x.0, after)) e) in
        (
          pc,
          got,
          (
            t,
            kept _ _ after w'
                (subst (λ v. objects v ≡ objects after) (ap (λ x. x.1) e)
                  (laws.count_leaves namespace name _ after))
                there,
          ),
        )
