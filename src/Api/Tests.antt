-- ===== src/Api/Tests.antt =====
-- Examples of the REST API, on a table, an object store and clusters in memory.
use tsdb_operator.Base.{
  String, Option, none, some, List, [], ◌∷◌, if◌then◌else◌, ◌==◌, eq_iff, ◌≡◌, refl, sym, subst, ap,
  ◌∙◌, ok, inl, inr, Any, arith, ◌<◌, Bool-cases,
}
use tsdb_operator.Backups.{Services, run_once}
use tsdb_operator.Backups.Stored.{Backed}
use tsdb_operator.Backups.Memory.{Objects, put, services, store_laws}
use tsdb_operator.Audit.{Entry, Logger, record_entry, query}
use tsdb_operator.Audit.Table.{Holds}
use tsdb_operator.Audit.Memory.{Rows, logger, table_laws}
use tsdb_operator.Base.Clock.{stamp}
use tsdb_operator.Base.Int.{pos}
use tsdb_operator.Kube.Memory.{Quantity}
use tsdb_operator.Samples.{cluster}
use tsdb_operator.Api.{
  Route, Request, Context, Gin, Server, serve, respond, nothing, status_text, entry_items,
  cluster_object, delete_cluster_handler, trigger_backup_handler, create_cluster_handler,
  query_audit_handler, new_cluster,
}
use tsdb_operator.Api.Memory.{client}
use tsdb_operator.Api.Routed.{GinLaws}
use tsdb_operator.Api.Reads.{ReadLaws, serve-leaves}
use tsdb_operator.Api.Trail.{Recorded, TrailLaws, IsTrailed, trigger_backup-Recorded}
use tsdb_operator.Api.Created.{Created, create_cluster-Recorded}
use tsdb_operator.Api.Asked.{query_audit-delete_cluster}
use tsdb_operator.Api.Backed.{LogLaws, trigger_backup-Backed}

abbrev W : Type 0
W = Rows × Objects

abbrev server : Server Quantity Unit W
server = record {
  client = client;
  namespace = "monitoring";
  audit = some (logger (pos 30));
  backup = some services;
  tls_cert_dir = "";
}

-- The first route of the method, whatever the path.
abbrev first : (method : String) → List Route → Option (Route × String)
first method [] = none
first method (r ∷ rs) =
    let rest = first method rs in if r.method == method then some (r, "edge") else rest

abbrev gin : Gin Quantity Unit
gin = record {
  find = λ rs method path. first method rs;
  bind_json = λ body. ok (record { name = "edge"; spec = cluster.spec });
  recovery = λ r. respond 500 nothing;
  no_route = respond 404 nothing;
}

first-finds :
    (rs : List Route) (method : String) (r : Route) (name : String)
    → first method rs ≡ some (r, name)
    → Any (λ x. x ≡ r) rs × (r.method ≡ method)
first-finds [] method r name e = let bad : ⊥ = cc in absurd bad
first-finds (x ∷ rs) method r name e = elim (Bool-cases (x.method == method)) [
  | inl h ↦
      let found : ◌≡◌ {A = Option (Route × String)} (some (x, "edge")) (some (r, name)) =
        rw h at e in
      let same : x ≡ r = cc in
      let named : x.method ≡ method = ground (arith, eq_iff x.method method) in
      (inl same, ap (λ (y : Route). y.method) (sym same) ∙ named)
  | inr h ↦
      let rest : first method rs ≡ some (r, name) = rw h at e in
      let (there, same) = first-finds rs method r name rest in (inr there, same)
]

gin_laws : GinLaws gin
gin_laws = record { finds = λ rs method path r name e. first-finds rs method r name e }

some-injective : {A : Type 0} {a b : A} → some a ≡ some b → a ≡ b
some-injective e = cc

run_leaves : (ns name : String) (w : W) → (run_once (services {X = Rows}) ns name w).1.0 ≡ w.0
unfolding run_once
run_leaves ns name w = refl

read_laws : ReadLaws server (λ w. w)
read_laws = record {
  list_clusters = λ ns w. refl;
  get_cluster = λ k w. refl;
  list_sets = λ w. refl;
  get_set = λ k w. refl;
  select_rows = λ l on c limit w.
      subst (λ (x : Logger W). (x.db.select_rows c limit w).1 ≡ w) (some-injective on) refl;
}

abbrev request : (method path : String) → Request
request method path = record { method = method; path = path; header = λ name. "root"; body = "" }

abbrev context : Context
context = record { request = request "DELETE" "/api/clusters/edge"; name = "edge" }

trail_laws : TrailLaws (logger (pos 30)) (λ w. w.0) gin server
trail_laws = record {
  on = refl;
  table = table_laws (pos 30);
  up = λ e w. (_, refl);
  create_cluster = λ pc w. refl;
  delete_cluster = λ m w. refl;
  run_once = λ b is ns name w.
      subst (λ (x : Services Quantity W). (run_once x ns name w).1.0 ≡ w.0) (some-injective is)
        (run_leaves ns name w);
}

log_laws : LogLaws gin server services (λ w. w.1)
log_laws = record {
  insert_row = λ l on e w.
      subst (λ (x : Logger W). (x.db.insert_row e w).1.1 ≡ w.1) (some-injective on) refl;
  count_row = λ l on c r w.
      subst (λ (x : Logger W). (x.registry.inc_audit_record_total c r w).1 ≡ w.1)
        (some-injective on) refl;
}

abbrev empty : W
empty = ([], [])

serve-leaves_example : (serve gin server (request "GET" "/api/clusters/edge/audit") empty).1 ≡ empty
serve-leaves_example =
    serve-leaves gin server (λ w. w) read_laws gin_laws (request "GET" "/api/clusters/edge/audit")
      empty refl

abbrev row : (op : String) → Entry
row op = record {
  id = 0;
  cluster_name = "edge";
  operation = op;
  operator = "root";
  timestamp = 63844806896000000000;
  result = "success";
  detail = "";
}

abbrev stored : Objects
stored = put "tsdb" "prod/edge/20240229T123456Z.tar" []

backed_up :
    trigger_backup_handler gin server context empty
    ≡ (ok (respond 202 (status_text "ok")), (row "backup" ∷ [], stored))
unfolding trigger_backup_handler record_entry run_once stamp
backed_up = refl

created : create_cluster_handler gin server context empty ≡ (
  ok (
      respond 201 (
        cluster_object (new_cluster "monitoring" (record { name = "edge"; spec = cluster.spec })))),
  (row "create" ∷ [], []),
)
unfolding create_cluster_handler record_entry
created = refl

trigger_backup_example :
    IsTrailed
      (logger (pos 30))
      (λ w. w.0)
      gin
      server
      trail_laws
      context
      empty
      (respond 202 (status_text "ok"))
      (row "backup" ∷ [], stored)
trigger_backup_example =
    trigger_backup-Recorded (logger (pos 30)) (λ w. w.0) gin server trail_laws context empty
      (respond 202 (status_text "ok")) (row "backup" ∷ [], stored) backed_up

accepted_example :
    Backed (services {X = Rows}) (λ w. w.1) "monitoring" "edge" (row "backup" ∷ [], stored)
accepted_example =
    trigger_backup-Backed gin server services (λ w. w.1) store_laws log_laws refl context empty
      (respond 202 (status_text "ok")) (row "backup" ∷ [], stored) backed_up refl

create_cluster_example :
    Created
      (logger (pos 30))
      (λ w. w.0)
      gin
      server
      trail_laws
      context
      empty
      (respond 201
        (cluster_object (new_cluster "monitoring" (record { name = "edge"; spec = cluster.spec }))))
      (row "create" ∷ [], [])
create_cluster_example =
    create_cluster-Recorded (logger (pos 30)) (λ w. w.0) gin server trail_laws context empty _
      (row "create" ∷ [], []) created

-- A row of the cluster that was there before.
abbrev earlier : Entry
earlier = record (row "create") { timestamp = 63844806895000000000 }

abbrev kept : W
kept = (earlier ∷ [], [])

abbrev deletion : Entry
deletion = record (row "delete") { id = 1 }

abbrev later_world : W
later_world = (deletion ∷ earlier ∷ [], [])

before_now : (e : Entry) → Holds e (earlier ∷ []) → e.timestamp < 63844806896000000000
before_now e (inl same) =
    subst (λ (x : Entry). x.timestamp < 63844806896000000000) same (omega arith)
before_now e (inr none_left) = elim none_left [ ]

deleted_later :
    delete_cluster_handler gin server context kept ≡ (ok (respond 204 nothing), later_world)
unfolding delete_cluster_handler record_entry
deleted_later = refl

asked_later :
    query_audit_handler gin server context later_world
    ≡ (ok (respond 200 (entry_items (deletion ∷ earlier ∷ []))), later_world)
unfolding query_audit_handler query
asked_later = refl

query_audit_example :
    (new : Recorded
      (logger (pos 30))
      (λ w. w.0)
      "edge"
      "delete"
      "root"
      "success"
      kept
      kept
      later_world)
    × Holds new.row (deletion ∷ earlier ∷ [])
query_audit_example =
    query_audit-delete_cluster (logger (pos 30)) (λ w. w.0) gin server trail_laws context kept
      (respond 204 nothing) later_world later_world (deletion ∷ earlier ∷ [])
      (λ e m q. before_now e m) deleted_later asked_later
