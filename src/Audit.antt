-- ===== src/Audit.antt =====
-- internal/audit/audit.go: the audit log, a table of a PostgreSQL database, and its pruner.
pub mod Table
pub mod Retention
pub mod Trail
pub mod Memory
mod Tests
use tsdb_operator.Base.{
  ℕ, String, List, Bool, true, false, if◌then◌else◌, Result, ok, err, panic, Error, Action, pure,
  lift, wrapping, modify, attempt, ◌>>=◌, ◌>>◌, nat_eq,
}
use tsdb_operator.Base.Text.{◌<>◌, line}
use tsdb_operator.Base.Int.{ℤ, pos, ltb_ℤ, neg_int64, mul_int64, shift}
use tsdb_operator.Base.Loops.{Wake, Looping, go_on, ticker_loop}
use tsdb_operator.Types.{Time}
use tsdb_operator.Metrics.{Registry}

pub record Entry : Type 0 where
  pub id : ℕ
  pub cluster_name : String
  pub operation : String
  pub operator : String
  pub timestamp : Time
  pub result : String
  pub detail : String

-- The statements that the program runs on the table `audit_log`, by their parameters. A deletion
-- answers with its result, which tells the number of rows, or fails to.
pub record Database (W : Type 0) : Type 0 where
  pub insert_row : Entry → Action W Unit
  pub select_rows : (cluster : String) → (limit : ℤ) → Action W (List Entry)
  pub delete_rows : (before : ℤ) → Action W (Result ℕ)
  pub count_rows : Action W ℕ

pub record Logger (W : Type 0) : Type 0 where
  pub db : Database W
  pub registry : Registry W
  pub now : W → Time
  pub retention_days : ℤ

-- The table and its indexes, made if they are not there.
abbrev pub schema : String
schema =
    line ""
    <> line "CREATE TABLE IF NOT EXISTS audit_log ("
    <> line "    id            BIGSERIAL PRIMARY KEY,"
    <> line "    cluster_name  TEXT        NOT NULL,"
    <> line "    operation     TEXT        NOT NULL,"
    <> line "    operator      TEXT        NOT NULL,"
    <> line "    timestamp     TIMESTAMPTZ NOT NULL DEFAULT NOW(),"
    <> line "    result        TEXT        NOT NULL,"
    <> line "    detail        TEXT        NOT NULL DEFAULT ''"
    <> line ");"
    <> line
        "CREATE INDEX IF NOT EXISTS audit_log_cluster_ts ON audit_log(cluster_name, timestamp DESC);"
    <> line "CREATE INDEX IF NOT EXISTS audit_log_ts ON audit_log(timestamp);"

-- github.com/jmoiron/sqlx and the package's metrics: a connection is made, used and closed in `W`,
-- the statements of a logger act on `U`, which may be the same world.
pub record Driver (U W : Type 0) : Type 0 where
  pub connect : (dsn : String) → Action W (Database U)
  pub execute : Database U → (statements : String) → Action W Unit
  pub close : Database U → Action W Unit
  pub metrics : Registry U
  pub clock : U → Time

module _ {U W : Type 0} (d : Driver U W) where
  -- A new logger keeps its rows forever.
  unfoldable pub open_log : (dsn : String) → Action W (Logger U)
  open_log dsn = do
    db ← wrapping "connect postgres" (d.connect dsn)
    wrapping "ensure schema" (d.execute db schema)
    pure (record { db = db; registry = d.metrics; now = d.clock; retention_days = pos 0 })

  unfoldable pub close_log : Logger U → Action W Unit
  close_log l = d.close l.db

-- `-time.Duration(days) * 24 * time.Hour`, in nanoseconds.
unfoldable pub retention_offset : (days : ℤ) → ℤ
unfolding neg_int64 mul_int64
retention_offset days = mul_int64 (mul_int64 (neg_int64 days) 24) 3600000000000

module _ {W : Type 0} (l : Logger W) where
  abbrev pub stamped : Time → Entry → Entry
  stamped t e = if nat_eq e.timestamp 0 then record e { timestamp = t } else e

  unfoldable pub record_entry : Entry → Action W Unit
  record_entry e w =
      (wrapping "insert audit" (l.db.insert_row (stamped (l.now w) e)) >>= λ _.
      modify (l.registry.inc_audit_record_total e.cluster_name e.result))
        w

  abbrev pub limit_or_default : ℤ → ℤ
  limit_or_default limit = if ltb_ℤ (pos 0) limit then limit else pos 100

  unfoldable pub query : (cluster : String) → (limit : ℤ) → Action W (List Entry)
  query cluster limit = wrapping "query audit" (l.db.select_rows cluster (limit_or_default limit))

  unfoldable pub prune : (before : ℤ) → Action W ℕ
  prune before = do
    res ← wrapping "prune audit" (l.db.delete_rows before)
    n ← wrapping "rows affected" (lift res)
    modify (l.registry.add_audit_prune_total n)
    pure n

  unfoldable pub row_count : Action W ℕ
  row_count = wrapping "count audit" l.db.count_rows

  -- Errors are logged, and end the tick; an error of the count is dropped.
  unfoldable pub tick : Action W Unit
  unfolding prune row_count
  tick w =
      attempt (prune (shift (l.now w) (retention_offset l.retention_days))) (λ e. pure tt)
        (λ n. attempt row_count (λ e. pure tt) (λ count. modify (l.registry.set_audit_rows count)))
        w

  -- With no retention, `Start` waits for the end of its context; else it prunes once at once.
  unfoldable pub start : List Wake → Looping W
  unfolding tick
  start wakes w =
      if ltb_ℤ (pos 0) l.retention_days
      then go_on (ticker_loop tick wakes) (tick w)
      else ticker_loop (pure tt) wakes w
