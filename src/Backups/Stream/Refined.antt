-- ===== src/Backups/Stream/Refined.antt =====
-- A backup's run takes the streaming of the archive for one call; it is what the two goroutines do.
use tsdb_operator.Base.{ℕ, String, ◌≡◌, sym, ap, ◌∙◌, some, List, [], ◌∷◌, ok}
use tsdb_operator.Base.Text.{◌<>◌}
use tsdb_operator.Types.{PrometheusCluster}
use tsdb_operator.Backups.{Services, tar_stream}
use tsdb_operator.Backups.Stream.{Command, State, start, ends_of, answer, result_of, Run}
use tsdb_operator.Backups.Stream.Laws.{UploadLaws, output}
use tsdb_operator.Backups.Stream.Whole.{Run-whole}
use tsdb_operator.Backups.Stream.Ends.{step_bound, IsOver}
use tsdb_operator.Backups.Stream.Driven.{drive}
use tsdb_operator.Backups.Stream.Agreed.{Run-agrees}
use tsdb_operator.Backups.Stream.Clients.{
  ClientGo, SpdyExecutor, exec, S3Client, stream_upload, stream_upload-UploadLaws,
}

module _ {Config Clientset Executor Client Byte Q W : Type 0}
    (k : ClientGo Config Clientset Executor Byte) (executor : SpdyExecutor Config Clientset)
    (store : S3Client Client Byte) (s : Services Q W) where
  abbrev pub tar_arguments : (snap : String) → List String
  tar_arguments snap = "tar" ∷ "-C" ∷ "/prometheus/snapshots" ∷ "-cf" ∷ "-" ∷ snap ∷ []

  -- tar in the first pod of the cluster.
  abbrev pub tar_command : PrometheusCluster Q → (snap : String) → Command Byte
  tar_command pc snap =
      exec k executor pc.meta.namespace (pc.meta.name <> "-0") "prometheus" (tar_arguments snap)

  -- `tarStreamToS3` when both of its goroutines begin.
  unfoldable pub tar_stream_to_s3 : PrometheusCluster Q → (snap : String) → State Byte
  tar_stream_to_s3 pc snap = start (tar_command pc snap)

  -- The one call ends both as they end when the worker goes first.
  abbrev pub IsStreamed : Type 0
  IsStreamed =
      (namespace pod container : String) (cmd : List String) (bucket key : String) (w : W)
      → let c = exec k executor namespace pod container cmd in
        some (s.stream namespace pod container cmd bucket key w).0
        ≡ ends_of (drive (stream_upload store bucket key) (step_bound c) (start c)).caller

  -- If the call that streams an archive ends as the two goroutines do when the worker goes first as
  -- often as it can, then the streaming of a backup returns what the caller returns after any run of
  -- the two goroutines to its end, in whatever order; and if that is no error, all of the output of
  -- tar is in the store. The multipart upload is relied on to read with some room, to stop reading
  -- at the end of the pipe, and to store an object only there.
  pub tar_stream-agrees :
      ((bucket key : String) → UploadLaws (store.multipart bucket key))
      → IsStreamed
      → (pc : PrometheusCluster Q) (snap key : String) (w : W) {n : ℕ} {t : State Byte}
      → Run (stream_upload store pc.spec.backup.bucket key) (tar_stream_to_s3 pc snap) n t
      → IsOver (stream_upload store pc.spec.backup.bucket key) t
      → (answer t.caller ≡ some (tar_stream s pc snap key w).0)
        × ((tar_stream s pc snap key w).0 ≡ ok tt → t.stored ≡ some (output (tar_command pc snap)))
  unfolding tar_stream tar_stream_to_s3
  tar_stream-agrees laws streamed pc snap key w {t} run over =
      let bucket = pc.spec.backup.bucket in
      let upload = stream_upload store bucket key in
      let kept = stream_upload-UploadLaws store bucket key (laws bucket key) in
      let same : answer t.caller ≡ some (tar_stream s pc snap key w).0 =
        ap (λ x. answer x.caller) (Run-agrees upload kept (tar_command pc snap) run over)
        ∙ sym (
            ap result_of (
              streamed pc.meta.namespace (pc.meta.name <> "-0") "prometheus" (tar_arguments snap)
                bucket key w)) in
      (same, λ e. (Run-whole (tar_command pc snap) upload kept run).1 (same ∙ ap some e))
