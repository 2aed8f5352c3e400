-- ===== src/Registration/Tests.antt =====
-- Examples of the registration: a metrics registry that refuses a name that it has.
use tsdb_operator.Base.{
  String, List, [], ◌∷◌, ◌++◌, ◌≡◌, refl, map, distinct, ok, panic, if◌then◌else◌,
}
use tsdb_operator.Registration.{
  Collector, Registrar, collectors, register_metrics, register_kinds, cluster_controller, api_kinds,
}

-- The names of the metrics, and the kinds.
abbrev Registered : Type 0
Registered = List String × List String

abbrev name_of : Collector → String
name_of c = c.name

abbrev registrar : Registrar Registered
registrar = record {
  must_register = λ cs w.
      if distinct (map name_of cs ++ w.0)
      then (ok tt, (map name_of cs ++ w.0, w.1))
      else (panic, w);
  must_add_client_go = λ w. (ok tt, (w.0, "StatefulSet" ∷ "Service" ∷ "ConfigMap" ∷ w.1));
  must_add = λ gv kinds w. (ok tt, (w.0, kinds ++ w.1));
  complete = λ c w. (ok tt, w);
}

metrics_registered : register_metrics registrar ([], []) ≡ (ok tt, (map name_of collectors, []))
unfolding distinct
metrics_registered = refl

metrics_twice : (register_metrics registrar (map name_of collectors, [])).0 ≡ panic
unfolding distinct
metrics_twice = refl

kinds_registered :
    (register_kinds registrar ([], [])).1.1
    ≡ api_kinds ++ (cluster_controller {W = Registered}).owns
kinds_registered = refl
