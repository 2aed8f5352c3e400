-- ===== src/Audit/Memory.antt =====
-- A table of the audit log in memory, for tests and examples: it shows that the laws can hold.
use tsdb_operator.Base.{
  String, List, [], ◌∷◌, Bool, true, leb, ◌==◌, eq_iff, ◌≡◌, refl, sym, ap, subst, inl, inr, ok,
  err, if◌then◌else◌, arith, length, Result, other, ◌&&◌, ◌∙◌, Bool-cases,
}
use tsdb_operator.Base.Int.{ℤ, pos, ltb_ℤ}
use tsdb_operator.Samples.{no_metrics}
use tsdb_operator.Audit.{Entry, Database, Logger}
use tsdb_operator.Audit.Table.{TableLaws, IsRecent, keep_from}
use tsdb_operator.Kube.Memory.{ok-injective}

abbrev pub Rows : Type 0
Rows = List Entry

abbrev unavailable : {A : Type 0} → Result A
unavailable = err (record { reason = other; message = "unavailable" })

-- Two rows of the cluster, the later one first.
abbrev newest_of : String → Entry → Entry → Bool
newest_of c e f = e.cluster_name == c && (f.cluster_name == c && leb f.timestamp e.timestamp)

-- A database that only answers queries while its table has one or two rows, which are of the
-- cluster, the later one first.
abbrev answer : String → ℤ → Rows → Result (List Entry)
answer c limit [] = unavailable
answer c limit (e ∷ []) =
    if ltb_ℤ (pos 0) limit && e.cluster_name == c then ok (e ∷ []) else unavailable
answer c limit (e ∷ f ∷ []) =
    if ltb_ℤ (pos 1) limit && newest_of c e f then ok (e ∷ f ∷ []) else unavailable
answer c limit (e ∷ f ∷ g ∷ es) = unavailable

-- The table, with anything else beside it.
module _ {X : Type 0} where
  abbrev pub table : Database (Rows × X)
  table = record {
    insert_row = λ e w. (ok tt, (record e { id = length w.0 } ∷ w.0, w.1));
    select_rows = λ c limit w. (answer c limit w.0, w);
    delete_rows = λ before w. (ok (ok 0), (keep_from before w.0, w.1));
    count_rows = λ w. (ok (length w.0), w);
  }

  abbrev pub logger : ℤ → Logger (Rows × X)
  logger days = record {
    db = table;
    registry = no_metrics;
    now = λ w. 63844806896000000000;
    retention_days = days;
  }

one_row :
    (e : Entry) (c : String) (limit : ℤ)
    → (ltb_ℤ (pos 0) limit && e.cluster_name == c) ≡ true
    → IsRecent c limit (e ∷ []) (e ∷ [])
one_row e c limit h = record {
  newest_first = (tt, tt);
  of_table = λ x m. (
    m,
    elim m [
      | inl same ↦ ap (λ (r : Entry). r.cluster_name) (sym same) ∙ is_cluster
      | inr none_left ↦ elim none_left [ ]
    ],
  );
  within = ground arith;
  left_out = λ x m q. inl m;
}
  where
    is_cluster : e.cluster_name ≡ c
    is_cluster = ground (arith, eq_iff e.cluster_name c)

two_rows :
    (e f : Entry) (c : String) (limit : ℤ)
    → (ltb_ℤ (pos 1) limit && newest_of c e f) ≡ true
    → IsRecent c limit (e ∷ f ∷ []) (e ∷ f ∷ [])
two_rows e f c limit h = record {
  newest_first = ((ground arith, tt), (tt, tt));
  of_table = λ x m. (
    m,
    elim m [
      | inl same ↦ ap (λ (r : Entry). r.cluster_name) (sym same) ∙ first
      | inr (inl same) ↦ ap (λ (r : Entry). r.cluster_name) (sym same) ∙ second
      | inr (inr none_left) ↦ elim none_left [ ]
    ],
  );
  within = ground arith;
  left_out = λ x m q. inl m;
}
  where
    first : e.cluster_name ≡ c
    first = ground (arith, eq_iff e.cluster_name c)

    second : f.cluster_name ≡ c
    second = ground (arith, eq_iff f.cluster_name c)

answered : (c : String) (limit : ℤ) (w es : Rows) → answer c limit w ≡ ok es → IsRecent c limit w es
answered c limit [] es q = let bad : ⊥ = cc in absurd bad
answered c limit (e ∷ f ∷ g ∷ w) es q = let bad : ⊥ = cc in absurd bad
answered c limit (e ∷ f ∷ []) es q = elim (Bool-cases (ltb_ℤ (pos 1) limit && newest_of c e f)) [
  | inl h ↦
      let found : answer c limit (e ∷ f ∷ []) ≡ ok (e ∷ f ∷ []) = rw h refl in
      subst (IsRecent c limit (e ∷ f ∷ [])) (ok-injective (e ∷ f ∷ []) es (sym found ∙ q))
        (two_rows e f c limit h)
  | inr h ↦
      let failed : answer c limit (e ∷ f ∷ []) ≡ unavailable = rw h refl in
      let bad : ⊥ = cc in absurd bad
]
answered c limit (e ∷ []) es q = elim (Bool-cases (ltb_ℤ (pos 0) limit && e.cluster_name == c)) [
  | inl h ↦
      let found : answer c limit (e ∷ []) ≡ ok (e ∷ []) = rw h refl in
      subst (IsRecent c limit (e ∷ [])) (ok-injective (e ∷ []) es (sym found ∙ q))
        (one_row e c limit h)
  | inr h ↦
      let failed : answer c limit (e ∷ []) ≡ unavailable = rw h refl in
      let bad : ⊥ = cc in absurd bad
]

pub table_laws : {X : Type 0} (days : ℤ) → TableLaws (logger {X = X} days) (λ w. w.0)
table_laws days = record {
  inserts = λ e w w' q. (length w.0, ap (λ x. x.1.0) (sym q));
  selects = λ c limit w es w' q. answered c limit w.0 es (ap (λ x. x.0) q);
  deletes = λ before w. inr refl;
  deletes_all = λ before w n w' q. ap (λ x. x.1.0) (sym q);
  counts = λ w. refl;
  record_metric = λ c r w. refl;
  prune_metric = λ n w. refl;
  rows_metric = λ n w. refl;
}
