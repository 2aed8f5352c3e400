-- ===== src/Api/Asked.antt =====
-- What a query of the audit log tells of a deletion.
use tsdb_operator.Base.{List, ◌≡◌, refl, sym, ap, subst, ok, err}
use mathlib.Core.Path.{subst₂}
use tsdb_operator.Base.Hoare.{attempt-Yields, pure-Yields}
use tsdb_operator.Base.Int.{pos}
use tsdb_operator.Audit.{Entry, Logger, query}
use tsdb_operator.Audit.Table.{Holds}
use tsdb_operator.Audit.Trail.{query-Holds, IsLatest}
use tsdb_operator.Api.{
  Context, Gin, Server, Response, respond, failure, delete_cluster_handler, query_audit_handler,
  entry_items, new_meta,
}
use tsdb_operator.Api.Trail.{operator, outcome, Recorded, TrailLaws, delete_cluster-Recorded}

module _ {W : Type 0} (l : Logger W) (rows : W → List Entry) {Q Sel : Type 0} (g : Gin Q Sel)
    (s : Server Q Sel W) (laws : TrailLaws l rows g s) where
  query_audit-answer :
      (c : Context) (w : W) (es : List Entry) (w' : W)
      → query_audit_handler g s c w ≡ (ok (respond 200 (entry_items es)), w')
      → (query l c.name (pos 100) w).0 ≡ ok es
  unfolding query_audit_handler
  query_audit-answer c w es w' q =
      let asked = query l c.name (pos 100) in
      let is : W → Type 0 = λ v. v ≡ w in
      let Tells : Response Q Sel → W → Type 0 = λ r _.
        (found : List Entry) → r ≡ respond 200 (entry_items found) → (asked w).0 ≡ ok found in
      attempt-Yields is asked (λ e _. (asked w).0 ≡ err e) (λ a _. (asked w).0 ≡ ok a) _ _ Tells
        (λ v at e v' p. rw (sym at) (ap (λ x. x.0) p))
        (λ v at a v' p. rw (sym at) (ap (λ x. x.0) p))
        (λ e.
          pure-Yields _ (failure 500 e) Tells (λ v h found same. let bad : ⊥ = cc in absurd bad))
        (λ a.
          pure-Yields _ (respond 200 (entry_items a)) Tells
            (λ v h found same. let eq : a ≡ found = cc in rw (sym eq) h))
        w refl (respond 200 (entry_items es)) w' (rw laws.on at q) es refl

  -- A DELETE that does not panic and then a query of the cluster's audit log that answers 200:
  -- the answer has the row that the deletion left, if the clock, once the API server has answered
  -- the deletion, is past the rows that the cluster had before, the database takes the row, and the calls of the API server leave the table alone.
  pub query_audit-delete_cluster :
      (c : Context) (w : W) (r : Response Q Sel) (w₁ w₂ : W) (es : List Entry)
      → IsLatest l rows laws.table c.name
          (l.now (s.client.delete_cluster (new_meta s.namespace c.name) w).1)
          (rows w)
      → delete_cluster_handler g s c w ≡ (ok r, w₁)
      → query_audit_handler g s c w₁ ≡ (ok (respond 200 (entry_items es)), w₂)
      → (new : Recorded l rows c.name "delete"
          (operator c)
          (outcome 204 r.code)
          w
          (s.client.delete_cluster (new_meta s.namespace c.name) w).1
          w₁)
        × Holds new.row es
  query_audit-delete_cluster c w r w₁ w₂ es latest deleted asked =
      let there = delete_cluster-Recorded l rows g s laws c w r w₁ deleted in
      let page = query_audit-answer c w₁ es w₂ asked in
      let found =
        query-Holds l rows laws.table (pos 100) there.row (rows w) w₁ es
          (query l c.name (pos 100) w₁).1 there.added
          (subst₂ (λ n t. IsLatest l rows laws.table n t (rows w)) (sym there.cluster_name)
            (sym there.time) latest)
          (subst (λ n. query l n (pos 100) w₁ ≡ (ok es, (query l c.name (pos 100) w₁).1))
            (sym there.cluster_name) (ap (λ x. (x, (query l c.name (pos 100) w₁).1)) page)) in
      (there, found)
