-- ===== src/Backups.antt =====
-- internal/backup/backup.go: the cron entries of the clusters, and one run of a backup.
pub mod Entries
pub mod Stored
pub mod Memory
pub mod CronMemory
pub mod Reader
pub mod Schedules
pub mod Promised
pub mod Shipped
pub mod Counted
pub mod Stream
mod Tests
use tsdb_operator.Base.{
  take, drop, length, leb, ◌+◌, ℕ, String, Option, none, some, List, [], ◌∷◌, Bool, true, false,
  ◌==◌, if◌then◌else◌, ◌||◌, ◌&&◌, not, Map, lookup, insert, Error, wrap, Result, ok, err, panic,
  Action, pure, throw, wrapping, ◌>>=◌, ◌>>◌, modify, attempt, wrapping_result, lift,
}
use tsdb_operator.Base.Text.{◌<>◌}
use tsdb_operator.Base.Clock.{stamp}
use tsdb_operator.Types.{Key, Time, PrometheusCluster}
use tsdb_operator.Metrics.{Registry}

-- github.com/robfig/cron: entries by number, each with the cluster that its function backs up. While
-- it is started it runs them; `stop` also waits for those that run.
pub record Cron (W : Type 0) : Type 0 where
  pub start : W → W
  pub stop : W → W
  pub remove : ℕ → W → W
  pub add_func : (schedule namespace name : String) → Action W ℕ

-- The `entries` of a new scheduler.
abbrev pub no_entries : Map ℕ
no_entries = []

abbrev pub entry_key : (namespace name : String) → String
entry_key namespace name = namespace <> "/" <> name

module _ {W : Type 0} (cron : Cron W) where
  -- `wait` is the time until the context is done.
  unfoldable pub start : (wait : W → W) → Action W Unit
  start wait w = (ok tt, cron.stop (wait (cron.start w)))

  -- `s.cron.Remove(id)` if there is an entry.
  abbrev pub remove_old : Option ℕ → W → W
  remove_old none w = w
  remove_old (some id) w = cron.remove id w

  abbrev pub added : String → Map ℕ → Result ℕ × W → Result Unit × (Map ℕ × W)
  added key entries (ok id, w) = (ok tt, (insert key id entries, w))
  added key entries (err e, w) = (err (wrap "add cron entry" e), (entries, w))
  added key entries (panic, w) = (panic, (entries, w))

  -- The state is `s.entries` and the world.
  unfoldable pub register : {Q : Type 0} → PrometheusCluster Q → Action (Map ℕ × W) Unit
  register pc (entries, w) =
      let key = entry_key pc.meta.namespace pc.meta.name in
      if not pc.spec.backup.enabled || pc.spec.backup.schedule == ""
      then (ok tt, (entries, w))
      else added key entries (
          cron.add_func pc.spec.backup.schedule pc.meta.namespace pc.meta.name
            (remove_old (lookup key entries) w))

-- The answer of the snapshot endpoint, as far as the program reads it.
pub record SnapshotResponse : Type 0 where
  pub status : String
  pub name : String

-- What a run calls: the API server, the HTTP client, JSON, the object store, commands in pods, and
-- the clock. `stream` runs a command whose output is an upload's body, and tells how both ended.
pub record Services (Q W : Type 0) : Type 0 where
  pub get_cluster : Key → Action W (PrometheusCluster Q)
  pub update_cluster_status : PrometheusCluster Q → Action W (PrometheusCluster Q)
  pub post : (url : String) → Action W (W → Result String × W)
  pub parse : String → Option SnapshotResponse
  pub put_object : (bucket key body : String) → Action W Unit
  pub can_exec : Bool
  pub exec : (namespace pod container : String) → List String → Action W Unit
  pub stream :
      (namespace pod container : String)
      → List String
      → (bucket key : String) → W
      → (Result Unit × Result Unit) × W
  pub now : W → Time
  pub registry : Registry W

abbrev pub snapshot_url : (name namespace : String) → String
snapshot_url name namespace =
    "http://" <> name <> "." <> namespace <> ".svc:9090/api/v1/admin/tsdb/snapshot"

-- The name of the snapshot, empty for an answer that is not a success.
abbrev pub snapshot_name : Option SnapshotResponse → String
snapshot_name none = ""
snapshot_name (some r) = if r.status == "success" then r.name else ""

abbrev pub object_key : (prefix name : String) → Time → String
object_key prefix name t = prefix <> "/" <> name <> "/" <> stamp t <> ".tar"

abbrev pub result_label : {A : Type 0} → Result A → String
result_label (ok a) = "success"
result_label (err e) = "error"
result_label panic = "success"

-- The error of the command goes before that of the upload.
abbrev pub stream_result : Result Unit × Result Unit → Result Unit
stream_result (err e, put) = err (wrap "exec tar" e)
stream_result (panic, put) = panic
stream_result (ok a, put) = wrapping_result "put object" put

abbrev pub backed_up : {Q : Type 0} → Time → PrometheusCluster Q → PrometheusCluster Q
backed_up at pc = record pc { status = record pc.status { last_backup_time = some at } }

module _ {Q W : Type 0} (s : Services Q W) where
  -- The snapshot's name and the answer's body.
  unfoldable pub snapshot : PrometheusCluster Q → Action W (String × String)
  snapshot pc = do
    read ← wrapping "trigger snapshot" (s.post (snapshot_url pc.meta.name pc.meta.namespace))
    body ← wrapping "read snapshot response" read
    pure (snapshot_name (s.parse body), body)

  unfoldable pub tar_stream : PrometheusCluster Q → (snapshot_name key : String) → Action W Unit
  tar_stream pc snap key w =
      let (results, w') =
        s.stream pc.meta.namespace (pc.meta.name <> "-0") "prometheus"
          ("tar" ∷ "-C" ∷ "/prometheus/snapshots" ∷ "-cf" ∷ "-" ∷ snap ∷ []) pc.spec.backup.bucket
          key w in
      (stream_result results, w')

  unfoldable pub cleanup_snapshot : PrometheusCluster Q → String → Action W Unit
  cleanup_snapshot pc snap =
      s.exec pc.meta.namespace (pc.meta.name <> "-0") "prometheus"
        ("rm" ∷ "-rf" ∷ ("/prometheus/snapshots/" <> snap) ∷ [])

  unfoldable pub upload : PrometheusCluster Q → (snap body key : String) → Action W Unit
  unfolding tar_stream cleanup_snapshot
  upload pc snap body key =
      if not s.can_exec || snap == ""
      then wrapping "put object (fallback)" (s.put_object pc.spec.backup.bucket key body)
      else (do
        wrapping "tar stream" (tar_stream pc snap key)
        attempt (cleanup_snapshot pc snap) (λ e. pure tt) pure)

  unfoldable pub record_backup : PrometheusCluster Q → Action W Unit
  record_backup pc w =
      (wrapping "update status" (s.update_cluster_status (backed_up (s.now w) pc)) >>= λ _. pure tt)
        w

  unfoldable pub upload_now : PrometheusCluster Q → (snap body : String) → Action W Unit
  unfolding upload
  upload_now pc snap body w =
      upload pc snap body (object_key pc.spec.backup.prefix pc.meta.name (s.now w)) w

  unfoldable pub back_up : (namespace name : String) → Action W Unit
  unfolding snapshot upload_now record_backup
  back_up namespace name = do
    pc ← wrapping "get cluster" (s.get_cluster (record { namespace = namespace; name = name }))
    (snap, body) ← wrapping "snapshot" (snapshot pc)
    upload_now pc snap body
    record_backup pc

  -- The deferred count runs on a panic too, with no error set.
  unfoldable pub run_once : (namespace name : String) → Action W Unit
  unfolding back_up
  run_once namespace name w =
      let (r, w') = back_up namespace name w in
      (r, s.registry.inc_backup_total namespace name (result_label r) w')

-- `byteReader`: the bytes, and how many of them were read.
pub record ByteReader (Byte : Type 0) : Type 0 where
  pub b : List Byte
  pub i : ℕ

abbrev pub bytes_reader : {Byte : Type 0} → List Byte → ByteReader Byte
bytes_reader b = record { b = b; i = 0 }

-- What a call of `Read` with room for that many bytes copies, or `none` for io.EOF.
unfoldable pub read :
    {Byte : Type 0} → (room : ℕ) → ByteReader Byte → Option (List Byte) × ByteReader Byte
read room r =
    let p = take room (drop r.i r.b) in
    if leb (length r.b) r.i then (none, r) else (some p, record r { i = r.i + length p })
