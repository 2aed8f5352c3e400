-- ===== src/Api.antt =====
-- pkg/api/server.go: the REST API, with gin, the HTTP server and the API server as parameters.
pub mod Routed
pub mod Reads
pub mod Trail
pub mod Created
pub mod Asked
pub mod Backed
pub mod Memory
pub mod Listen
mod Tests
use tsdb_operator.Base.{
  ℕ, String, List, [], ◌∷◌, Option, none, some, Bool, true, false, if◌then◌else◌, ◌==◌, not, Result,
  ok, err, panic, Reason, not_found, already_exists, invalid, other, Error, wrap, Action, pure,
  throw, attempt, ◌>>=◌, ◌>>◌,
}
use tsdb_operator.Base.Int.{pos}
use tsdb_operator.Base.Text.{◌<>◌}
use tsdb_operator.Types.{
  Key, ObjectMeta, PrometheusCluster, PrometheusClusterSpec, PrometheusClusterSet,
}
use tsdb_operator.Audit.{Entry, Logger, record_entry, query}
use tsdb_operator.Backups.{Services, run_once}

-- The calls of client.Client that the handlers make.
pub record ApiClient (Q Sel W : Type 0) : Type 0 where
  pub list_clusters : (namespace : String) → Action W (List (PrometheusCluster Q))
  pub get_cluster : Key → Action W (PrometheusCluster Q)
  pub create_cluster : PrometheusCluster Q → Action W (PrometheusCluster Q)
  pub delete_cluster : ObjectMeta → Action W Unit
  pub list_sets : Action W (List (PrometheusClusterSet Sel))
  pub get_set : Key → Action W (PrometheusClusterSet Sel)

pub record Server (Q Sel W : Type 0) : Type 0 where
  pub client : ApiClient Q Sel W
  pub namespace : String
  pub audit : Option (Logger W)
  pub backup : Option (Services Q W)
  pub tls_cert_dir : String

pub data Handler : Type 0 where
  list_clusters create_cluster get_cluster delete_cluster trigger_backup query_audit
        list_cluster_sets get_cluster_set :
      Handler

pub record Route : Type 0 where
  pub method : String
  pub pattern : String
  pub handler : Handler

abbrev route : (method pattern : String) → Handler → Route
route m p h = record { method = m; pattern = p; handler = h }

-- What `Router` registers.
unfoldable pub routes : List Route
routes =
    route "GET" "/api/clusters" list_clusters
    ∷ route "POST" "/api/clusters" create_cluster
    ∷ route "GET" "/api/clusters/:name" get_cluster
    ∷ route "DELETE" "/api/clusters/:name" delete_cluster
    ∷ route "POST" "/api/clusters/:name/backup" trigger_backup
    ∷ route "GET" "/api/clusters/:name/audit" query_audit
    ∷ route "GET" "/api/clustersets" list_cluster_sets
    ∷ route "GET" "/api/clustersets/:name" get_cluster_set
    ∷ []

pub record Request : Type 0 where
  pub method : String
  pub path : String
  pub header : (name : String) → String
  pub body : String

-- A request with the parameter `name` of its path.
pub record Context : Type 0 where
  pub request : Request
  pub name : String

pub data Body (Q Sel : Type 0) : Type 0 where
  nothing : Body Q Sel
  error_text : String → Body Q Sel
  status_text : String → Body Q Sel
  cluster_items : List (PrometheusCluster Q) → Body Q Sel
  cluster_object : PrometheusCluster Q → Body Q Sel
  set_items : List (PrometheusClusterSet Sel) → Body Q Sel
  set_object : PrometheusClusterSet Sel → Body Q Sel
  entry_items : List Entry → Body Q Sel

pub record Response (Q Sel : Type 0) : Type 0 where
  pub code : ℕ
  pub body : Body Q Sel

pub record CreateReq (Q : Type 0) : Type 0 where
  pub name : String
  pub spec : PrometheusClusterSpec Q

-- gin: the route of a method and a path, the binding of a body with its required name, and the
-- answers to a request that ends in a panic or has no route.
pub record Gin (Q Sel : Type 0) : Type 0 where
  pub find : List Route → (method path : String) → Option (Route × String)
  pub bind_json : (body : String) → Result (CreateReq Q)
  pub recovery : Result (Response Q Sel) → Response Q Sel
  pub no_route : Response Q Sel

abbrev pub status_of : Reason → ℕ
status_of not_found = 404
status_of already_exists = 409
status_of invalid = 400
status_of other = 500

abbrev pub status_for : Error → ℕ
status_for e = status_of e.reason

abbrev pub operator_of : String → String
operator_of header = if header == "" then "anonymous" else header

abbrev pub new_meta : (namespace name : String) → ObjectMeta
new_meta namespace name = record {
  name = name;
  namespace = namespace;
  labels = [];
  annotations = none;
  finalizers = [];
  deletion_timestamp = none;
  owners = [];
}

abbrev pub new_cluster : {Q : Type 0} → String → CreateReq Q → PrometheusCluster Q
new_cluster namespace req = record {
  meta = new_meta namespace req.name;
  spec = req.spec;
  status = record {
    phase = "";
    ready_replicas = pos 0;
    last_backup_time = none;
    last_failover_time = none;
  };
}

-- The entry that `audit` records, for a request with that operator header.
abbrev pub audit_entry : (header cluster op result detail : String) → Entry
audit_entry header cluster op result detail = record {
  id = 0;
  cluster_name = cluster;
  operation = op;
  operator = operator_of header;
  timestamp = 0;
  result = result;
  detail = detail;
}

module _ {Q Sel : Type 0} where
  abbrev pub respond : ℕ → Body Q Sel → Response Q Sel
  respond code body = record { code = code; body = body }

  abbrev pub failure : ℕ → Error → Response Q Sel
  failure code e = respond code (error_text e.message)

module _ {Q Sel W : Type 0} (g : Gin Q Sel) (s : Server Q Sel W) where
  -- An error of the record is dropped.
  abbrev pub audit_with : Option (Logger W) → Entry → Action W Unit
  audit_with none e = pure tt
  audit_with (some l) e = attempt (record_entry l e) (λ x. pure tt) pure

  unfoldable pub audit : Context → (cluster op result detail : String) → Action W Unit
  audit c cluster op result detail =
      audit_with s.audit (audit_entry (c.request.header "X-Operator") cluster op result detail)

  unfoldable pub list_cluster_sets_handler : Context → Action W (Response Q Sel)
  list_cluster_sets_handler c =
      attempt s.client.list_sets (λ e. pure (failure 500 e))
        (λ items. pure (respond 200 (set_items items)))

  unfoldable pub get_cluster_set_handler : Context → Action W (Response Q Sel)
  get_cluster_set_handler c =
      attempt (s.client.get_set (record { namespace = ""; name = c.name }))
        (λ e. pure (failure (status_for e) e)) (λ set. pure (respond 200 (set_object set)))

  unfoldable pub list_clusters_handler : Context → Action W (Response Q Sel)
  list_clusters_handler c =
      attempt (s.client.list_clusters s.namespace) (λ e. pure (failure 500 e))
        (λ items. pure (respond 200 (cluster_items items)))

  unfoldable pub create_bound : Context → CreateReq Q → Action W (Response Q Sel)
  unfolding audit
  create_bound c req =
      attempt (s.client.create_cluster (new_cluster s.namespace req))
        (λ e. pure (failure (status_for e) e))
        (λ pc.
          audit c req.name "create" "success" "" >>= λ _. pure (respond 201 (cluster_object pc)))

  abbrev pub bound : Context → Result (CreateReq Q) → Action W (Response Q Sel)
  bound c (ok req) = create_bound c req
  bound c (err e) = pure (failure 400 e)
  bound c panic = λ w. (panic, w)

  unfoldable pub create_cluster_handler : Context → Action W (Response Q Sel)
  unfolding create_bound
  create_cluster_handler c = bound c (g.bind_json c.request.body)

  unfoldable pub get_cluster_handler : Context → Action W (Response Q Sel)
  get_cluster_handler c =
      attempt (s.client.get_cluster (record { namespace = s.namespace; name = c.name }))
        (λ e. pure (failure (status_for e) e)) (λ pc. pure (respond 200 (cluster_object pc)))

  unfoldable pub delete_cluster_handler : Context → Action W (Response Q Sel)
  unfolding audit
  delete_cluster_handler c =
      attempt (s.client.delete_cluster (new_meta s.namespace c.name))
        (λ e. audit c c.name "delete" "error" e.message >>= λ _. pure (failure (status_for e) e))
        (λ _. audit c c.name "delete" "success" "" >>= λ _. pure (respond 204 nothing))

  abbrev pub backup_with : Option (Services Q W) → Context → Action W (Response Q Sel)
  backup_with none c = pure (respond 503 (error_text "backup scheduler not configured"))
  backup_with (some b) c =
      attempt (run_once b s.namespace c.name)
        (λ e. audit c c.name "backup" "error" e.message >>= λ _. pure (failure 500 e))
        (λ _. audit c c.name "backup" "success" "" >>= λ _. pure (respond 202 (status_text "ok")))

  unfoldable pub trigger_backup_handler : Context → Action W (Response Q Sel)
  unfolding audit
  trigger_backup_handler c = backup_with s.backup c

  abbrev pub query_with : Option (Logger W) → Context → Action W (Response Q Sel)
  query_with none c = pure (respond 503 (error_text "audit log not configured"))
  query_with (some l) c =
      attempt (query l c.name (pos 100)) (λ e. pure (failure 500 e))
        (λ found. pure (respond 200 (entry_items found)))

  unfoldable pub query_audit_handler : Context → Action W (Response Q Sel)
  query_audit_handler c = query_with s.audit c

  unfoldable pub run : Handler → Context → Action W (Response Q Sel)
  unfolding list_cluster_sets_handler get_cluster_set_handler list_clusters_handler
      create_cluster_handler get_cluster_handler delete_cluster_handler trigger_backup_handler
      query_audit_handler
  run list_clusters = list_clusters_handler
  run create_cluster = create_cluster_handler
  run get_cluster = get_cluster_handler
  run delete_cluster = delete_cluster_handler
  run trigger_backup = trigger_backup_handler
  run query_audit = query_audit_handler
  run list_cluster_sets = list_cluster_sets_handler
  run get_cluster_set = get_cluster_set_handler

  abbrev pub routed : Option (Route × String) → Request → W → Response Q Sel × W
  routed none req w = (g.no_route, w)
  routed (some (r, name)) req w =
      let (res, w') = run r.handler (record { request = req; name = name }) w in
      (g.recovery res, w')

  -- A request, served by the engine that `Router` builds.
  unfoldable pub serve : Request → W → Response Q Sel × W
  unfolding run
  serve req w = routed (g.find routes req.method req.path) req w
