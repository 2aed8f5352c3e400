-- ===== src/Audit/Trail.antt =====
-- What a query tells of what was recorded.
use tsdb_operator.Base.{
  ℕ, ◌≤◌, ◌<◌, String, List, [], ◌∷◌, ◌≡◌, refl, sym, ap, ◌∙◌, subst, inl, inr, All, arith, ok,
  length, wrapping,
}
use tsdb_operator.Base.Hoare.{bind-Yields, wrapping-Yields, modify-Yields}
use tsdb_operator.Base.Int.{ℤ, pos, ◌≤ℤ◌}
use tsdb_operator.Audit.{Entry, Logger, stamped, record_entry, limit_or_default, query}
use tsdb_operator.Audit.Table.{TableLaws, IsRecent, Holds}

-- The row of an entry that is recorded at a time.
abbrev pub row_of : {W : Type 0} → Logger W → ℕ → W → Entry → Entry
row_of l id w e = record (stamped l (l.now w) e) { id = id }

module _ {W : Type 0} (l : Logger W) (rows : W → List Entry) (laws : TableLaws l rows) where
  -- An entry that is recorded is a row of the table, with the time if it had none, and the rows that
  -- were there are still there.
  pub record_entry-Holds :
      (e : Entry) (w w' : W)
      → record_entry l e w ≡ (ok tt, w')
      → (id : ℕ) × (rows w' ≡ row_of l id w e ∷ rows w)
  unfolding record_entry
  record_entry-Holds e w w' q =
      let done : W → Type 0 = λ v. (id : ℕ) × (rows v ≡ row_of l id w e ∷ rows w) in
      bind-Yields (λ v. v ≡ w) (wrapping "insert audit" (l.db.insert_row (stamped l (l.now w) e)))
        (λ _. done) _ (λ _. done)
        (wrapping-Yields (λ v. v ≡ w) "insert audit" (l.db.insert_row (stamped l (l.now w) e))
          (λ _. done)
          (λ v at u v' p.
            let (id, there) = laws.inserts (stamped l (l.now w) e) v v' p in
            (id, there ∙ ap (λ x. row_of l id w e ∷ rows x) at)))
        (λ _.
          modify-Yields done done _
            (λ v k. (k.0, laws.record_metric e.cluster_name e.result v ∙ k.1)))
        w refl tt w' q

  -- The rows of the cluster are all older than the time.
  abbrev pub IsLatest : String → ℕ → List Entry → Type 0
  IsLatest cluster t es = (e : Entry) → Holds e es → e.cluster_name ≡ cluster → e.timestamp < t

  -- A full page of rows at least as new as the newest row of the cluster has that row.
  on_page :
      (e : Entry) (others es : List Entry)
      → IsLatest e.cluster_name e.timestamp others
      → pos 1 ≤ℤ pos (length es)
      → All (λ x. e.timestamp ≤ x.timestamp) es
      → ((x : Entry) → Holds x es → Holds x (e ∷ others) × (x.cluster_name ≡ e.cluster_name))
      → Holds e es
  on_page e others [] latest full newer known = absurd (omega arith)
  on_page e others (x ∷ xs) latest full newer known =
      let (found, same) = known x (inl refl) in
      elim found [ inl q ↦ inl (sym q) | inr m ↦ absurd (omega (arith, latest x m same, newer.0)) ]

  limit-pos : (limit : ℤ) → pos 1 ≤ℤ limit_or_default l limit
  limit-pos limit = ground arith

  -- The newest row of a cluster is among the rows that a query for the cluster answers with, whatever
  -- the limit.
  pub query-Holds :
      (limit : ℤ) (e : Entry) (others : List Entry) (w : W) (es : List Entry) (w' : W)
      → rows w ≡ e ∷ others
      → IsLatest e.cluster_name e.timestamp others
      → query l e.cluster_name limit w ≡ (ok es, w')
      → Holds e es
  unfolding query
  query-Holds limit e others w es w' there latest q =
      let most = limit_or_default l limit in
      let recent : IsRecent e.cluster_name most (rows w) es =
        wrapping-Yields (λ v. v ≡ w) "query audit" (l.db.select_rows e.cluster_name most)
          (λ found _. IsRecent e.cluster_name most (rows w) found)
          (λ v at found v' p.
            subst (λ x. IsRecent e.cluster_name most (rows x) found) at
              (laws.selects e.cluster_name most v found v' p))
          w refl es w' q in
      elim (recent.left_out e (rw there (inl refl)) refl) [
        | inl found ↦ found
        | inr (full, newer) ↦
            on_page e others es latest (subst (λ n. pos 1 ≤ℤ n) (sym full) (limit-pos limit)) newer
              (λ x m.
                let (found, same) = recent.of_table x m in (subst (Holds x) there found, same))
      ]
