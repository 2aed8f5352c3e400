-- ===== src/Backups/Counted.antt =====
-- The count of the backup runs.
use tsdb_operator.Base.{
  String, List, ◌≡◌, refl, ap, ◌∙◌, ok, Result, err, panic, not, ◌||◌, ◌==◌, wrapping, pure,
  attempt, wrapping_result,
}
use tsdb_operator.Base.Hoare.{Keeps, bind-Keeps, bind-Keeps-known, attempt-Keeps, if-Keeps}
use tsdb_operator.Types.{Key, PrometheusCluster}
use tsdb_operator.Backups.{
  Services, result_label, snapshot_url, snapshot_name, backed_up, snapshot, tar_stream,
  cleanup_snapshot, upload, upload_now, record_backup, back_up, run_once,
}

module _ {Q W V : Type 0} (s : Services Q W) (counts : W → V)
    (bump : (namespace name label : String) → V → V) where
  -- Only the counter counts.
  pub record CountLaws : Type 0 where
    pub counted :
        (ns name label : String) (w : W)
        → counts (s.registry.inc_backup_total ns name label w) ≡ bump ns name label (counts w)
    pub get_cluster : (k : Key) (w : W) → counts (s.get_cluster k w).1 ≡ counts w
    pub update_status :
        (pc : PrometheusCluster Q) (w : W) → counts (s.update_cluster_status pc w).1 ≡ counts w
    pub post : (url : String) (w : W) → counts (s.post url w).1 ≡ counts w
    pub read :
        (url : String) (w : W) (body : W → Result String × W) (w' : W)
        → s.post url w ≡ (ok body, w')
        → (v : W) → counts (body v).1 ≡ counts v
    pub put_object :
        (bucket key body : String) (w : W) → counts (s.put_object bucket key body w).1 ≡ counts w
    pub exec :
        (ns pod container : String) (command : List String) (w : W)
        → counts (s.exec ns pod container command w).1 ≡ counts w
    pub stream :
        (ns pod container : String) (command : List String) (bucket key : String) (w : W)
        → counts (s.stream ns pod container command bucket key w).1 ≡ counts w

  module _ (laws : CountLaws) (v : V) where
    abbrev Same : W → Type 0
    Same w = counts w ≡ v

    body_known :
        (url : String) (body : W → Result String × W)
        → (w w' : W) × (wrapping "trigger snapshot" (s.post url) w ≡ (ok body, w'))
        → (u : W) → counts (body u).1 ≡ counts u
    body_known url body (w, w', q) u = go (s.post url w) refl q
      where
        go :
            (x : Result (W → Result String × W) × W)
            → s.post url w ≡ x
            → ◌≡◌ {A = Result (W → Result String × W) × W}
                (wrapping_result "trigger snapshot" x.0, x.1)
                (ok body, w')
            → counts (body u).1 ≡ counts u
        go (ok b, w₁) p e = laws.read url w body w' (p ∙ e) u
        go (err x, w₁) p e = cc
        go (panic, w₁) p e = cc

    snapshot-Keeps : (pc : PrometheusCluster Q) → Keeps Same (snapshot s pc)
    unfolding snapshot
    snapshot-Keeps pc =
        let url = snapshot_url pc.meta.name pc.meta.namespace in
        bind-Keeps-known Same (wrapping "trigger snapshot" (s.post url)) _
          (λ w h. laws.post url w ∙ h)
          (λ read known.
            bind-Keeps Same (wrapping "read snapshot response" read)
              (λ body. pure (snapshot_name (s.parse body), body))
              (λ w h. body_known url read known w ∙ h) (λ body w h. h))

    upload-Keeps :
        (pc : PrometheusCluster Q) (snap body key : String) → Keeps Same (upload s pc snap body key)
    unfolding upload tar_stream cleanup_snapshot
    upload-Keeps pc snap body key =
        if-Keeps Same (not s.can_exec || snap == "") _ _
          (λ w h. laws.put_object pc.spec.backup.bucket key body w ∙ h)
          (bind-Keeps Same (wrapping "tar stream" (tar_stream s pc snap key))
            (λ _. attempt (cleanup_snapshot s pc snap) (λ e. pure tt) pure)
            (λ w h. laws.stream _ _ _ _ _ key w ∙ h)
            (λ _.
              attempt-Keeps Same (cleanup_snapshot s pc snap) (λ e. pure tt) pure
                (λ w h. laws.exec _ _ _ _ w ∙ h) (λ e w h. h) (λ a w h. h)))

    record-Keeps : (pc : PrometheusCluster Q) → Keeps Same (record_backup s pc)
    unfolding record_backup
    record-Keeps pc w =
        bind-Keeps Same
          (wrapping "update status" (s.update_cluster_status (backed_up (s.now w) pc)))
          (λ _. pure tt) (λ u h. laws.update_status (backed_up (s.now w) pc) u ∙ h) (λ a u h. h) w

    back_up-Keeps : (namespace name : String) → Keeps Same (back_up s namespace name)
    unfolding back_up upload_now
    back_up-Keeps namespace name =
        bind-Keeps Same
          (wrapping "get cluster" (s.get_cluster (record { namespace = namespace; name = name }))) _
          (λ w h. laws.get_cluster _ w ∙ h)
          (λ pc.
            bind-Keeps Same (wrapping "snapshot" (snapshot s pc)) _ (snapshot-Keeps pc) (λ taken.
              bind-Keeps Same (upload_now s pc taken.0 taken.1) (λ _. record_backup s pc)
                (λ w h. upload-Keeps pc taken.0 taken.1 _ w h) (λ _. record-Keeps pc)))

  -- The label of a run that ended so.
  abbrev pub label_for : Result Unit → String
  label_for (ok a) = "success"
  label_for (err e) = "error"
  label_for panic = "success"

  labelled : (r : Result Unit) → result_label r ≡ label_for r
  labelled (ok a) = refl
  labelled (err e) = refl
  labelled panic = refl

  -- A run counts once, on every outcome of every call: under "error" if it fails, and under
  -- "success" if it succeeds or panics.
  pub run_once-counted :
      CountLaws
      → (namespace name : String) (w : W)
      → counts (run_once s namespace name w).1
        ≡ bump namespace name (label_for (run_once s namespace name w).0) (counts w)
  unfolding run_once
  run_once-counted laws namespace name w =
      laws.counted namespace name _ _
      ∙ ap (bump namespace name _) (back_up-Keeps laws (counts w) namespace name w refl)
      ∙ ap (λ label. bump namespace name label (counts w))
          (labelled (run_once s namespace name w).0)
