-- ===== src/Audit/Table.antt =====
-- What the audit log relies on of its database: the rows of the table, and what each statement does
-- to them.
use tsdb_operator.Base.{
  ℕ, ◌≤◌, String, List, [], ◌∷◌, ◌≡◌, ◌⊎◌, if◌then◌else◌, Any, All, length, Result, ok, arith, inl,
  inr, Bool-cases, ap, true, false,
}
use tsdb_operator.Base.Int.{ℤ, pos, ltb_ℤ, ◌≤ℤ◌}
use tsdb_operator.Base.Order.{IsSorted}
use tsdb_operator.Base.{ltb}
use tsdb_operator.Audit.{Entry, Logger}

-- DELETE … WHERE timestamp < $1
unfoldable pub keep_from : ℤ → List Entry → List Entry
keep_from before [] = []
keep_from before (e ∷ es) =
    let rest = keep_from before es in if ltb_ℤ (pos e.timestamp) before then rest else e ∷ rest

abbrev pub Holds : Entry → List Entry → Type 0
Holds e = Any (λ x. x ≡ e)

-- SELECT … WHERE cluster_name = $1 ORDER BY timestamp DESC LIMIT $2
pub record IsRecent (cluster : String) (limit : ℤ) (rows es : List Entry) : Type 0 where
  pub newest_first : IsSorted (λ a b. ltb b.timestamp a.timestamp) es
  pub of_table : (e : Entry) → Holds e es → Holds e rows × (e.cluster_name ≡ cluster)
  pub within : pos (length es) ≤ℤ limit
  pub left_out :
      (e : Entry)
      → Holds e rows
      → e.cluster_name ≡ cluster
      → Holds e es ⊎ ((pos (length es) ≡ limit) × All (λ x. e.timestamp ≤ x.timestamp) es)

module _ {W : Type 0} (l : Logger W) (rows : W → List Entry) where
  pub record TableLaws : Type 0 where
    pub inserts :
        (e : Entry) (w w' : W)
        → l.db.insert_row e w ≡ (ok tt, w')
        → (id : ℕ) × (rows w' ≡ record e { id = id } ∷ rows w)
    pub selects :
        (cluster : String) (limit : ℤ) (w : W) (es : List Entry) (w' : W)
        → l.db.select_rows cluster limit w ≡ (ok es, w')
        → IsRecent cluster limit (rows w) es
    pub deletes :
        (before : ℤ) (w : W)
        → (rows (l.db.delete_rows before w).1 ≡ rows w)
          ⊎ (rows (l.db.delete_rows before w).1 ≡ keep_from before (rows w))
    pub deletes_all :
        (before : ℤ) (w : W) (n : Result ℕ) (w' : W)
        → l.db.delete_rows before w ≡ (ok n, w')
        → rows w' ≡ keep_from before (rows w)
    pub counts : (w : W) → rows (l.db.count_rows w).1 ≡ rows w
    pub record_metric :
        (cluster result : String) (w : W)
        → rows (l.registry.inc_audit_record_total cluster result w) ≡ rows w
    pub prune_metric : (n : ℕ) (w : W) → rows (l.registry.add_audit_prune_total n w) ≡ rows w
    pub rows_metric : (n : ℕ) (w : W) → rows (l.registry.set_audit_rows n w) ≡ rows w

-- A row that is not before the time stays.
pub keep_from-Holds :
    (before : ℤ) (e : Entry) (es : List Entry)
    → ltb_ℤ (pos e.timestamp) before ≡ false
    → Holds e es
    → Holds e (keep_from before es)
unfolding keep_from
keep_from-Holds before e [] h m = m
keep_from-Holds before e (x ∷ xs) h m = elim (Bool-cases (ltb_ℤ (pos x.timestamp) before)) [
  | inl old ↦ rw old (elim m [
    | inl same ↦ absurd (old_row x e same old h)
    | inr later ↦ keep_from-Holds before e xs h later
  ])
  | inr kept ↦
      rw kept
        (elim m [ inl same ↦ inl same | inr later ↦ inr (keep_from-Holds before e xs h later) ])
]
  where
    old_row :
        (x e : Entry)
        → x ≡ e
        → ltb_ℤ (pos x.timestamp) before ≡ true
        → ltb_ℤ (pos e.timestamp) before ≡ false
        → ⊥
    old_row x e same old new =
        cc (old, new, ap (λ (r : Entry). ltb_ℤ (pos r.timestamp) before) same)

-- What stays is not before the time.
pub keep_from-All :
    (before : ℤ) (es : List Entry) → All (λ e. before ≤ℤ pos e.timestamp) (keep_from before es)
unfolding keep_from
keep_from-All before [] = tt
keep_from-All before (e ∷ es) = ground (arith, keep_from-All before es)
