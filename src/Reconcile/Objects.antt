-- ===== src/Reconcile/Objects.antt =====
-- What the reconciler writes into a cluster's ConfigMap and Service.
use tsdb_operator.Base.{
  String, Option, none, some, [], ◌∷◌, ◌==◌, ◌≡◌, if◌then◌else◌, Map, lookup, lookup-insert,
  lookup-erase, insert, ok, arith, Bool-cases, inl, inr,
}
use tsdb_operator.Types.{PrometheusCluster, AdditionalScrapeConfigs, ConfigMap, Service}
use tsdb_operator.Config.{additional_scrape_file, wrap_scrape_configs, render_config}
use tsdb_operator.Reconcile.{
  Reconciler, data_of, with_scrape_file, mutate_config_map, mutate_service,
}

-- The file of additional scrape entries: only for inline entries.
abbrev pub wanted_file : Option AdditionalScrapeConfigs → Option String
wanted_file none = none
wanted_file (some asc) = if asc.inline == "" then none else some (wrap_scrape_configs asc.inline)

lookup-with_scrape_file :
    (asc : Option AdditionalScrapeConfigs) (m : Map String) (k : String)
    → lookup k (with_scrape_file asc m)
      ≡ (if additional_scrape_file == k then wanted_file asc else lookup k m)
unfolding with_scrape_file
lookup-with_scrape_file none m k = lookup-erase additional_scrape_file k m
lookup-with_scrape_file (some asc) m k = elim (Bool-cases (asc.inline == "")) [
  | inl e ↦ rw e (lookup-erase additional_scrape_file k m)
  | inr e ↦ rw e (lookup-insert additional_scrape_file k (wrap_scrape_configs asc.inline) m)
]

module _ {Q W : Type 0} (r : Reconciler Q W) (pc : PrometheusCluster Q) where
  -- Whatever the ConfigMap held, it then holds the rendered prometheus.yml, the file of additional
  -- scrape entries exactly when entries are given inline, and every other key as before.
  pub lookup-mutate_config_map :
      (cm written : ConfigMap) (k : String)
      → mutate_config_map r pc cm ≡ ok written
      → lookup k (data_of written.contents) ≡ (
          if additional_scrape_file == k
          then wanted_file pc.spec.additional_scrape_configs
          else if "prometheus.yml" == k
          then some (render_config r.table pc)
          else lookup k (data_of cm.contents))
  unfolding mutate_config_map
  lookup-mutate_config_map cm written k e =
      let rendered = insert "prometheus.yml" (render_config r.table pc) (data_of cm.contents) in
      ground (
        arith,
        lookup-with_scrape_file pc.spec.additional_scrape_configs rendered k,
        lookup-insert "prometheus.yml" k (render_config r.table pc) (data_of cm.contents),
      )

  -- The Service is headless, selects by the label that the pods carry, and has the port of
  -- Prometheus.
  pub mutate_service_fields :
      (svc written : Service)
      → mutate_service r pc svc ≡ ok written
      → (written.cluster_ip ≡ "None")
        × (written.selector ≡ ("app.kubernetes.io/instance", pc.meta.name) ∷ [])
        × (written.ports ≡ record { name = "http"; port = 9090; target_port = 9090 } ∷ [])
  unfolding mutate_service
  mutate_service_fields svc written e = ground arith
