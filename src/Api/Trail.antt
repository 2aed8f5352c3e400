-- ===== src/Api/Trail.antt =====
-- What the handlers that write leave in the audit log, and what a query tells of it.
use tsdb_operator.Base.{
  ℕ, String, List, ◌∷◌, none, some, ◌⊎◌, inl, inr, Option-cases, if◌then◌else◌, nat_eq, ◌≡◌, refl,
  sym, ap, ◌∙◌, subst, ok, Reason, not_found, already_exists, invalid, other, pure, ◌>>=◌,
}
use tsdb_operator.Base.Hoare.{Yields, bind-Yields, attempt-Yields, attempt-From-Yields, pure-Yields}
use tsdb_operator.Types.{ObjectMeta, PrometheusCluster}
use tsdb_operator.Audit.{Entry, Logger, stamped, record_entry}
use tsdb_operator.Audit.Table.{TableLaws}
use tsdb_operator.Audit.Trail.{record_entry-Holds, row_of}
use tsdb_operator.Backups.{Services, run_once}
use tsdb_operator.Api.{
  Context, Gin, Server, Response, status_of, status_for, operator_of, audit_entry, audit,
  audit_with, new_meta, status_text, error_text, respond, failure, nothing, delete_cluster_handler,
  trigger_backup_handler,
}

abbrev pub operator : Context → String
operator c = operator_of (c.request.header "X-Operator")

abbrev pub outcome : (success code : ℕ) → String
outcome success code = if nat_eq code success then "success" else "error"

status_of-error : (r : Reason) → outcome 204 (status_of r) ≡ "error"
status_of-error not_found = refl
status_of-error already_exists = refl
status_of-error invalid = refl
status_of-error other = refl

module _ {W : Type 0} (l : Logger W) (rows : W → List Entry) where
  -- One row was added to those of `w`, for that operation on the cluster, with the time that the
  -- clock told in the world that the operation left.
  pub record Recorded (cluster op by result : String) (w left w' : W) : Type 0 where
    pub row : Entry
    pub added : rows w' ≡ row ∷ rows w
    pub cluster_name : row.cluster_name ≡ cluster
    pub operation : row.operation ≡ op
    pub operator : row.operator ≡ by
    pub outcome : row.result ≡ result
    pub time : row.timestamp ≡ l.now left

  -- The database is up: it takes every row.
  abbrev pub Accepts : Type 0
  Accepts = (e : Entry) (w : W) → (w' : W) × (l.db.insert_row e w ≡ (ok tt, w'))

  module _ {Q Sel : Type 0} (g : Gin Q Sel) (s : Server Q Sel W) where
    -- The server logs to the logger, and the calls of the API server leave the table alone.
    pub record TrailLaws : Type 0 where
      pub on : s.audit ≡ some l
      pub table : TableLaws l rows
      pub up : Accepts
      pub create_cluster :
          (pc : PrometheusCluster Q) (w : W) → rows (s.client.create_cluster pc w).1 ≡ rows w
      pub delete_cluster : (m : ObjectMeta) (w : W) → rows (s.client.delete_cluster m w).1 ≡ rows w
      pub run_once :
          (b : Services Q W)
          → s.backup ≡ some b
          → (ns name : String) (w : W) → rows (run_once b ns name w).1 ≡ rows w

    module _ (laws : TrailLaws) where
      recorded : (e : Entry) (w : W) → (w' : W) × (record_entry l e w ≡ (ok tt, w'))
      unfolding record_entry
      recorded e w =
          let (w', done) = laws.up (stamped l (l.now w) e) w in
          (l.registry.inc_audit_record_total e.cluster_name e.result w', rw done refl)

      audit_with-Yields :
          (c : Context) (cluster op result detail : String) (w left : W)
          → rows left ≡ rows w
          → Yields
              (λ v. v ≡ left)
              (audit_with g s
                (some l)
                (audit_entry (c.request.header "X-Operator") cluster op result detail))
              (λ _. Recorded cluster op (operator c) result w left)
      audit_with-Yields c cluster op result detail w left kept =
          let e = audit_entry (c.request.header "X-Operator") cluster op result detail in
          attempt-Yields (λ v. v ≡ left) (record_entry l e) (λ _ _. ⊥)
            (λ _. Recorded cluster op (operator c) result w left) (λ x. pure tt) pure _
            (λ v same x v' q. let (v₁, done) = recorded e v in let bad : ⊥ = cc in bad)
            (λ v same a v' q.
              let (id, there) = record_entry-Holds l rows laws.table e v v' q in
              record {
                row = row_of l id v e;
                added = there ∙ ap (λ rs. row_of l id v e ∷ rs) (ap rows same ∙ kept);
                cluster_name = refl;
                operation = refl;
                operator = refl;
                outcome = refl;
                time = ap l.now same;
              })
            (λ x. λ v bad. absurd bad) (λ a. pure-Yields _ a _ (λ v h. h))

      pub audit-Yields :
          (c : Context) (cluster op result detail : String) (resp : Response Q Sel) (w left : W)
          → rows left ≡ rows w
          → Yields
              (λ v. v ≡ left)
              (audit g s c cluster op result detail >>= λ _. pure resp)
              (λ r w'. (r ≡ resp) × Recorded cluster op (operator c) result w left w')
      unfolding audit
      audit-Yields c cluster op result detail resp w left kept =
          bind-Yields (λ v. v ≡ left) (audit g s c cluster op result detail)
            (λ _. Recorded cluster op (operator c) result w left) _ _
            (rw laws.on (audit_with-Yields c cluster op result detail w left kept))
            (λ _. pure-Yields _ resp _ (λ v h. (refl, h)))

      -- An answer whose row tells its outcome.
      abbrev Told :
          (c : Context) (op : String) (success : ℕ) (w left : W) → Response Q Sel → W → Type 0
      Told c op success w left r = Recorded c.name op (operator c) (outcome success r.code) w left

      answered :
          (c : Context) (op result detail : String) (success : ℕ) (resp : Response Q Sel)
          (w left : W)
          → rows left ≡ rows w
          → outcome success resp.code ≡ result
          → Yields
              (λ v. v ≡ left)
              (audit g s c c.name op result detail >>= λ _. pure resp)
              (Told c op success w left)
      answered c op result detail success resp w left kept fits v same r w' q =
          let (is, there) = audit-Yields c c.name op result detail resp w left kept v same r w' q in
          subst (λ x. Told c op success w left x w') (sym is)
            (subst (λ x. Recorded c.name op (operator c) x w left w') (sym fits) there)

      -- A DELETE that does not panic leaves one row, which tells the cluster and the operator, and
      -- "success" if the answer is 204, "error" otherwise, when the database takes the row and the
      -- calls of the API server leave the table alone.
      pub delete_cluster-Recorded :
          (c : Context) (w : W) (r : Response Q Sel) (w' : W)
          → delete_cluster_handler g s c w ≡ (ok r, w')
          → Recorded c.name "delete"
              (operator c)
              (outcome 204 r.code)
              w
              (s.client.delete_cluster (new_meta s.namespace c.name) w).1
              w'
      unfolding delete_cluster_handler
      delete_cluster-Recorded c w =
          let call = s.client.delete_cluster (new_meta s.namespace c.name) in
          let kept = laws.delete_cluster (new_meta s.namespace c.name) w in
          attempt-From-Yields w call _ _ (Told c "delete" 204 w (call w).1)
            (λ e.
              answered c "delete" "error" e.message 204 (failure (status_for e) e) w (call w).1 kept
                (status_of-error e.reason))
            (λ a. answered c "delete" "success" "" 204 (respond 204 nothing) w (call w).1 kept refl)
            w refl

      -- What a POST of a backup leaves: without a scheduler the answer 503 and the world as it was,
      -- and with one a row.
      abbrev pub IsTrailed : Context → W → Response Q Sel → W → Type 0
      IsTrailed c w r w' =
          ((s.backup ≡ none) × (r.code ≡ 503) × (w' ≡ w))
          ⊎ ((b : Services Q W) × (s.backup ≡ some b)
              × Recorded c.name "backup" (operator c) (outcome 202 r.code) w
                  (run_once b s.namespace c.name w).1 w')

      -- A POST of a backup that does not panic: without a scheduler it answers 503 and changes
      -- nothing, so no row tells of it. With a scheduler it leaves one row, which tells the cluster and
      -- the operator, and "success" if the answer is 202, "error" otherwise, when the database takes
      -- the row and the run leaves the table alone.
      pub trigger_backup-Recorded :
          (c : Context) (w : W) (r : Response Q Sel) (w' : W)
          → trigger_backup_handler g s c w ≡ (ok r, w')
          → IsTrailed c w r w'
      unfolding trigger_backup_handler
      trigger_backup-Recorded c w r w' q = elim (Option-cases s.backup) [
        | inl off ↦
            pure-Yields (λ v. v ≡ w) (respond 503 (error_text "backup scheduler not configured"))
              (λ x v. IsTrailed c w x v) (λ v at. inl (off, refl, at)) w refl r w' (rw off at q)
        | inr (b, has) ↦
            let done = run_once b s.namespace c.name in
            let kept = laws.run_once b has s.namespace c.name w in
            inr (
              b,
              has,
              attempt-From-Yields w done _ _ (Told c "backup" 202 w (done w).1)
                  (λ e.
                    answered c "backup" "error" e.message 202 (failure 500 e) w (done w).1 kept
                      refl)
                  (λ a.
                    answered c "backup" "success" "" 202 (respond 202 (status_text "ok")) w
                      (done w).1 kept refl)
                  w refl r w' (rw has at q),
            )
      ]
