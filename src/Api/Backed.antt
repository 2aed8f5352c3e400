-- ===== src/Api/Backed.antt =====
-- What an accepted backup means.
use tsdb_operator.Base.{
  arith, String, List, some, ◌≡◌, refl, ok, Option, none, pure, modify, wrapping,
}
use tsdb_operator.Base.Hoare.{
  Keeps, bind-Yields, bind-Keeps, attempt-Keeps, attempt-Yields, Keeps-Yields, pure-Yields,
}
use tsdb_operator.Audit.{Entry, Logger, record_entry, stamped}
use tsdb_operator.Backups.{Services, run_once}
use tsdb_operator.Backups.Stored.{Stored, StoreLaws, Backed, run_once-Backed}
use tsdb_operator.Api.{
  Context, Gin, Server, Response, audit, audit_with, trigger_backup_handler, failure, respond,
  status_text,
}

module _ {Q Sel W : Type 0} (g : Gin Q Sel) (s : Server Q Sel W) (b : Services Q W)
    (objects : W → List Stored) where
  -- The audit log is no part of the object store.
  pub record LogLaws : Type 0 where
    pub insert_row :
        (l : Logger W)
        → s.audit ≡ some l
        → (e : Entry) (w : W) → objects (l.db.insert_row e w).1 ≡ objects w
    pub count_row :
        (l : Logger W)
        → s.audit ≡ some l
        → (cluster result : String) (w : W)
        → objects (l.registry.inc_audit_record_total cluster result w) ≡ objects w

  module _ (store : StoreLaws b objects) (log : LogLaws) (name : String) where
    abbrev InStore : W → Type 0
    InStore = Backed b objects s.namespace name

    still : (w w' : W) → objects w' ≡ objects w → InStore w → InStore w'
    still w w' same (pc, read, (t, there)) = (pc, read, (t, rw same there))

    audit_with-Keeps :
        (o : Option (Logger W)) → s.audit ≡ o → (e : Entry) → Keeps InStore (audit_with g s o e)
    unfolding record_entry
    audit_with-Keeps none on e = λ w h. h
    audit_with-Keeps (some l) on e =
        attempt-Keeps InStore (record_entry l e) (λ x. pure tt) pure
          (λ w h.
            bind-Keeps InStore (wrapping "insert audit" (l.db.insert_row (stamped l (l.now w) e)))
              (λ _. modify (l.registry.inc_audit_record_total e.cluster_name e.result))
              (λ v h. still v _ (log.insert_row l on _ v) h)
              (λ _ v h. still v _ (log.count_row l on e.cluster_name e.result v) h) w h)
          (λ x w h. h) (λ a w h. h)

    audit-Keeps :
        (c : Context) (cluster op result detail : String)
        → Keeps InStore (audit g s c cluster op result detail)
    unfolding audit
    audit-Keeps c cluster op result detail = audit_with-Keeps s.audit refl _

    abbrev Accepted : Response Q Sel → W → Type 0
    Accepted r w = r.code ≡ 202 → InStore w

  -- When a POST of a backup answers 202, an object of the cluster is in the store: in the bucket of
  -- the cluster that the run read, under its prefix and name and a time stamp.
  pub trigger_backup-Backed :
      StoreLaws b objects
      → LogLaws
      → s.backup ≡ some b
      → (c : Context) (w : W) (r : Response Q Sel) (w' : W)
      → trigger_backup_handler g s c w ≡ (ok r, w')
      → r.code ≡ 202
      → Backed b objects s.namespace c.name w'
  unfolding trigger_backup_handler
  trigger_backup-Backed store log has c w r w' q =
      let accepted = Accepted store log c.name in
      attempt-Yields (λ _. Unit) (run_once b s.namespace c.name) (λ _ _. Unit)
        (λ _. InStore store log c.name) _ _ accepted (λ v u e v' p. tt)
        (λ v u a v' p. run_once-Backed b objects store s.namespace c.name v v' p)
        (λ e.
          bind-Yields (λ _. Unit) (audit g s c c.name "backup" "error" e.message) (λ _ _. Unit) _
            accepted (λ v u a v' p. tt)
            (λ a. pure-Yields _ (failure 500 e) accepted (λ v u is. absurd (omega (arith, is)))))
        (λ a.
          bind-Yields (InStore store log c.name) (audit g s c c.name "backup" "success" "")
            (λ _. InStore store log c.name) _ accepted
            (Keeps-Yields _ _ (audit-Keeps store log c.name c c.name "backup" "success" ""))
            (λ x. pure-Yields _ (respond 202 (status_text "ok")) accepted (λ v h is. h)))
        w tt r w' (rw has at q)
