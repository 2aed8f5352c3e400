-- ===== src/Backups/Memory.antt =====
-- An object store in memory, and the calls of a run that never fail, for tests and examples.
use tsdb_operator.Base.{Any, String, some, List, ◌∷◌, true, ◌≡◌, refl, ap, subst, inl, ok}
use tsdb_operator.Samples.{no_metrics}
use tsdb_operator.Backups.{Services}
use tsdb_operator.Backups.Stored.{Stored, StoreLaws}
use tsdb_operator.Kube.Memory.{Quantity}
use tsdb_operator.Samples.{cluster}

-- The objects of the store.
abbrev pub Objects : Type 0
Objects = List Stored

abbrev pub put : String → String → Objects → Objects
put bucket key w = record { bucket = bucket; key = key } ∷ w

-- The store, with anything else beside it.
module _ {X : Type 0} where
  abbrev pub services : Services Quantity (X × Objects)
  services = record {
    get_cluster = λ k w. (ok cluster, w);
    update_cluster_status = λ pc w. (ok pc, w);
    post = λ url w. (ok (λ v. (ok "{}", v)), w);
    parse = λ body. some (record { status = "success"; name = "snap-1" });
    put_object = λ bucket key body w. (ok tt, (w.0, put bucket key w.1));
    can_exec = true;
    exec = λ ns pod container command w. (ok tt, w);
    stream = λ ns pod container command bucket key w. ((ok tt, ok tt), (w.0, put bucket key w.1));
    now = λ w. 63844806896000000000;
    registry = no_metrics;
  }

  pub store_laws : StoreLaws services (λ w. w.1)
  store_laws = record {
    put_stores = λ bucket key body w w' e.
        subst (λ v. Any (λ o. (o.bucket ≡ bucket) × (o.key ≡ key)) v) (ap (λ x. x.1.1) e)
          (inl (refl, refl));
    stream_stores = λ ns pod container command bucket key w e. inl (refl, refl);
    exec_leaves = λ ns pod container command w. refl;
    status_leaves = λ pc w. refl;
    count_leaves = λ ns name label w. refl;
  }
