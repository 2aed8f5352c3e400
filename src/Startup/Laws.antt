-- ===== src/Startup/Laws.antt =====
-- What the start relies on of the manager: the runnables that it has, and that only `Add` adds to
-- them.
use tsdb_operator.Base.{String, Option, List, ◌∷◌, ◌≡◌, ◌⊎◌, ok}
use tsdb_operator.Audit.{Database, schema, open_log}
use tsdb_operator.Base.{wrapping, pure, subst, sym}
use tsdb_operator.Base.Int.{pos}
use tsdb_operator.Base.Hoare.{Keeps, bind-Keeps}
use tsdb_operator.Backups.{Services}
use tsdb_operator.Startup.{ManagerOptions, Runnable, Runtime}

module _ {Q Sel Aws Exec U W : Type 0} (rt : Runtime Q Sel Aws Exec U W)
    (runs : W → List (Runnable Q Sel U)) where
  pub record RuntimeLaws : Type 0 where
    pub adds : (r : Runnable Q Sel U) (w w' : W) → rt.add r w ≡ (ok tt, w') → runs w' ≡ r ∷ runs w
    pub adds_at_most :
        (r : Runnable Q Sel U) (w : W)
        → (runs (rt.add r w).1 ≡ runs w) ⊎ (runs (rt.add r w).1 ≡ r ∷ runs w)
    pub new_manager : (o : ManagerOptions) (w : W) → runs (rt.new_manager o w).1 ≡ runs w
    pub set_up_cluster_sets : (w : W) → runs (rt.set_up_cluster_sets w).1 ≡ runs w
    pub set_up_clusters :
        (b : Option (Services Q U)) (w : W) → runs (rt.set_up_clusters b w).1 ≡ runs w
    pub register_webhook : (w : W) → runs (rt.register_webhook w).1 ≡ runs w
    pub load_aws_config : (region : String) (w : W) → runs (rt.load_aws_config region w).1 ≡ runs w
    pub new_executor : (w : W) → runs (rt.new_executor w).1 ≡ runs w
    pub connects : (dsn : String) (w : W) → runs (rt.audit_driver.connect dsn w).1 ≡ runs w
    pub executes :
        (db : Database U) (statements : String) (w : W)
        → runs (rt.audit_driver.execute db statements w).1 ≡ runs w
    pub add_check : (name : String) (w : W) → runs (rt.add_check name w).1 ≡ runs w
    pub start : (w : W) → runs (rt.start w).1 ≡ runs w

  -- Opening the audit log adds nothing.
  pub open_log-Keeps :
      (P : List (Runnable Q Sel U) → Type 0)
      → RuntimeLaws
      → (dsn : String) → Keeps (λ w. P (runs w)) (open_log rt.audit_driver dsn)
  unfolding open_log
  open_log-Keeps P laws dsn =
      bind-Keeps (λ w. P (runs w)) (wrapping "connect postgres" (rt.audit_driver.connect dsn)) _
        (λ w h. subst P (sym (laws.connects dsn w)) h)
        (λ db.
          bind-Keeps (λ w. P (runs w))
            (wrapping "ensure schema" (rt.audit_driver.execute db schema))
            (λ _. pure (record {
              db = db;
              registry = rt.audit_driver.metrics;
              now = rt.audit_driver.clock;
              retention_days = pos 0;
            }))
            (λ w h. subst P (sym (laws.executes db schema w)) h) (λ a w h. h))
