-- ===== src/Api/Reads.antt =====
-- Requests that only read.
use tsdb_operator.Base.{String, some, true, ◌≡◌, refl, sym, ◌∙◌, ap, Option-cases, inl, inr}
use tsdb_operator.Base.Hoare.{Keeps, attempt-Keeps}
use tsdb_operator.Base.Int.{ℤ, pos}
use tsdb_operator.Types.{Key}
use tsdb_operator.Audit.{Logger, query}
use tsdb_operator.Api.{
  Handler, list_clusters, create_cluster, get_cluster, delete_cluster, trigger_backup, query_audit,
  list_cluster_sets, get_cluster_set, Context, Request, routes, Gin, Server, run, serve,
  list_cluster_sets_handler, get_cluster_set_handler, list_clusters_handler, get_cluster_handler,
  query_audit_handler,
}
use tsdb_operator.Api.Routed.{reads, GinLaws, get-reads}

-- The calls that read leave what is seen of the world alone.
pub record ReadLaws {Q Sel W V : Type 0} (s : Server Q Sel W) (seen : W → V) : Type 0 where
  pub list_clusters : (ns : String) (w : W) → seen (s.client.list_clusters ns w).1 ≡ seen w
  pub get_cluster : (k : Key) (w : W) → seen (s.client.get_cluster k w).1 ≡ seen w
  pub list_sets : (w : W) → seen (s.client.list_sets w).1 ≡ seen w
  pub get_set : (k : Key) (w : W) → seen (s.client.get_set k w).1 ≡ seen w
  pub select_rows :
      (l : Logger W)
      → s.audit ≡ some l
      → (c : String) (limit : ℤ) (w : W) → seen (l.db.select_rows c limit w).1 ≡ seen w

module _ {Q Sel W V : Type 0} (g : Gin Q Sel) (s : Server Q Sel W) (seen : W → V)
    (laws : ReadLaws s seen) where
  module _ (v : V) where
    abbrev Same : W → Type 0
    Same w = seen w ≡ v

    query-Same : (c : Context) → Keeps Same (query_audit_handler g s c)
    unfolding query_audit_handler query
    query-Same c = elim (Option-cases s.audit) [
      | inl off ↦ λ w h. rw off h
      | inr (l, on) ↦ λ w h. rw on (
          attempt-Keeps Same (query l c.name (pos 100)) _ _
            (λ w h. laws.select_rows l on c.name (pos 100) w ∙ h) (λ e w h. h) (λ a w h. h) w h)
    ]

    run-Same : (h : Handler) (c : Context) → reads h ≡ true → Keeps Same (run g s h c)
    unfolding run list_cluster_sets_handler get_cluster_set_handler list_clusters_handler
        get_cluster_handler
    run-Same list_clusters c r =
        attempt-Keeps Same (s.client.list_clusters s.namespace) _ _
          (λ w h. laws.list_clusters s.namespace w ∙ h) (λ e w h. h) (λ a w h. h)
    run-Same get_cluster c r =
        attempt-Keeps Same (s.client.get_cluster _) _ _ (λ w h. laws.get_cluster _ w ∙ h)
          (λ e w h. h) (λ a w h. h)
    run-Same list_cluster_sets c r =
        attempt-Keeps Same s.client.list_sets _ _ (λ w h. laws.list_sets w ∙ h) (λ e w h. h)
          (λ a w h. h)
    run-Same get_cluster_set c r =
        attempt-Keeps Same (s.client.get_set _) _ _ (λ w h. laws.get_set _ w ∙ h) (λ e w h. h)
          (λ a w h. h)
    run-Same query_audit c r = query-Same c
    run-Same create_cluster c r = let bad : ⊥ = cc in absurd bad
    run-Same delete_cluster c r = let bad : ⊥ = cc in absurd bad
    run-Same trigger_backup c r = let bad : ⊥ = cc in absurd bad

  -- A GET request, to whatever path and on every outcome, leaves what is seen of the world as it
  -- was, when the calls that read do.
  pub serve-leaves :
      GinLaws g → (req : Request) (w : W) → req.method ≡ "GET" → seen (serve g s req w).1 ≡ seen w
  unfolding serve
  serve-leaves gin req w get = elim (Option-cases (g.find routes req.method req.path)) [
    | inl missing ↦ rw missing refl
    | inr ((r, name), found) ↦ rw found (
        run-Same (seen w) r.handler (record { request = req; name = name })
          (get-reads g gin req.path r name (ap (λ m. g.find routes m req.path) (sym get) ∙ found)) w
          refl)
  ]
