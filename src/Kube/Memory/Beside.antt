-- ===== src/Kube/Memory/Beside.antt =====
-- The API server in memory with something else beside it, which its calls do not touch.
use tsdb_operator.Base.{◌≡◌, ap, Result, Action}
use tsdb_operator.Base.Total.{Returns}
use tsdb_operator.Kube.{Client}
use tsdb_operator.Kube.Laws.{Store, Frames, Effects}
use tsdb_operator.Kube.Memory.{Quantity, World, memory, AsSent, view, memory-Frames, memory-Effects}

module _ {X : Type 0} where
  abbrev pub on_server : {A : Type 0} → Action World A → Action (World × X) A
  on_server m b = let (r, w) = m b.0 in (r, (w, b.1))

  abbrev pub server : Client Quantity (World × X)
  server = record {
    get_cluster = λ k. on_server (memory.get_cluster k);
    update_cluster = λ pc. on_server (memory.update_cluster pc);
    update_cluster_status = λ pc. on_server (memory.update_cluster_status pc);
    get_stateful_set = λ k. on_server (memory.get_stateful_set k);
    create_stateful_set = λ s. on_server (memory.create_stateful_set s);
    update_stateful_set = λ s. on_server (memory.update_stateful_set s);
    create_or_update_config_map = λ cm f. on_server (memory.create_or_update_config_map cm f);
    create_or_update_service = λ s f. on_server (memory.create_or_update_service s f);
  }

  abbrev pub server_view : World × X → Store Quantity
  server_view b = view b.0

  pub server-Frames : Frames server_view server
  server-Frames = record {
    get_cluster = λ k b. memory-Frames.get_cluster k b.0;
    get_stateful_set = λ k b. memory-Frames.get_stateful_set k b.0;
    update_cluster = λ pc b. memory-Frames.update_cluster pc b.0;
    update_cluster_status = λ pc b. memory-Frames.update_cluster_status pc b.0;
    create_stateful_set_maps = λ s b. memory-Frames.create_stateful_set_maps s b.0;
    create_stateful_set_services = λ s b. memory-Frames.create_stateful_set_services s b.0;
    update_stateful_set_maps = λ s b. memory-Frames.update_stateful_set_maps s b.0;
    update_stateful_set_services = λ s b. memory-Frames.update_stateful_set_services s b.0;
    config_map_sets = λ cm f b. memory-Frames.config_map_sets cm f b.0;
    service_sets = λ s f b. memory-Frames.service_sets s f b.0;
    service_maps = λ s f b. memory-Frames.service_maps s f b.0;
  }

  inside :
      {A : Type 0} (m : Action World A) (b b' : World × X) (x : Result A)
      → on_server m b ≡ (x, b')
      → m b.0 ≡ (x, b'.0)
  inside m b b' x e = ap (λ (p : Result _ × (World × X)). (p.0, p.1.0)) e

  pub server-Effects : Effects AsSent server_view server
  server-Effects = record {
    cluster_found = λ k b pc b' e.
        memory-Effects.cluster_found k b.0 pc b'.0 (inside (memory.get_cluster k) b b' _ e);
    cluster_missing = λ k b x b' e gone.
        memory-Effects.cluster_missing k b.0 x b'.0 (inside (memory.get_cluster k) b b' _ e) gone;
    stateful_set_found = λ k b s b' e.
        memory-Effects.stateful_set_found k b.0 s b'.0
          (inside (memory.get_stateful_set k) b b' _ e);
    stateful_set_missing = λ k b x b' e gone.
        memory-Effects.stateful_set_missing k b.0 x b'.0
          (inside (memory.get_stateful_set k) b b' _ e) gone;
    stateful_set_created = λ s b t b' e.
        memory-Effects.stateful_set_created s b.0 t b'.0
          (inside (memory.create_stateful_set s) b b' _ e);
    stateful_set_updated = λ s b t b' e.
        memory-Effects.stateful_set_updated s b.0 t b'.0
          (inside (memory.update_stateful_set s) b b' _ e);
    config_map_written = λ cm f b op b' e.
        memory-Effects.config_map_written cm f b.0 op b'.0
          (inside (memory.create_or_update_config_map cm f) b b' _ e);
    service_written = λ s f b op b' e.
        memory-Effects.service_written s f b.0 op b'.0
          (inside (memory.create_or_update_service s f) b b' _ e);
    status_written = λ pc b t b' e.
        memory-Effects.status_written pc b.0 t b'.0
          (inside (memory.update_cluster_status pc) b b' _ e);
  }

  pub server-Returns :
      {A : Type 0} (m : Action World A) (R : A → Type 0) → Returns m R → Returns (on_server m) R
  server-Returns m R h b =
      let (a, w, q, good) = h b.0 in
      (a, (w, b.1), ap (λ (p : Result _ × World). (p.0, (p.1, b.1))) q, good)
