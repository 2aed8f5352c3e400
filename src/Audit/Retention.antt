-- ===== src/Audit/Retention.antt =====
-- How long the pruner keeps a row.
use tsdb_operator.Base.{
  ℕ, ◌+◌, ◌-◌, ◌*◌, ◌^◌, ◌≤◌, ◌<◌, List, ◌≡◌, ap, subst, false, inl, inr, All, All-imp, arith, ok,
  wrapping, lift, modify,
}
use tsdb_operator.Base.Hoare.{
  Keeps, bind-Keeps, attempt-Keeps, bind-Yields, wrapping-Yields, modify-Yields, pure-Yields,
}
use tsdb_operator.Base.Int.{ℤ, pos, negsuc, ltb_ℤ, ◌≤ℤ◌, shift}
use tsdb_operator.Audit.{Entry, Logger, retention_offset, prune, row_count, tick}
use tsdb_operator.Audit.Table.{TableLaws, Holds, keep_from, keep_from-Holds, keep_from-All}

abbrev pub day : ℕ
day = 86400000000000

-- Up to 106751 days, the offset is the days that it stands for.
retention_offset-exact :
    (d : ℕ) → 0 < d → d ≤ 106751 → retention_offset (pos d) ≡ negsuc (d * day - 1)
unfolding retention_offset
retention_offset-exact d p h = ground arith

-- From there on it wraps around, and is positive.
retention_offset_wraps :
    (d : ℕ) → 106752 ≤ d → d ≤ 213503 → retention_offset (pos d) ≡ pos (2 ^ 64 - d * day)
unfolding retention_offset
retention_offset_wraps d p h = ground arith

abbrev pub cutoff : ℕ → ℤ → ℤ
cutoff now days = shift now (retention_offset days)

-- A row of the last `d` days is not before the cut-off.
cutoff-not_before :
    (now d t : ℕ)
    → 0 < d
    → d ≤ 106751
    → now ≤ t + d * day
    → ltb_ℤ (pos t) (cutoff now (pos d)) ≡ false
unfolding shift
cutoff-not_before now d t p h recent = rw (retention_offset-exact d p h) (ground arith)

cutoff-future : (now d t : ℕ) → 106752 ≤ d → d ≤ 213503 → cutoff now (pos d) ≤ℤ pos t → now < t
unfolding shift
cutoff-future now d t p h = rw (retention_offset_wraps d p h) (ground arith)

module _ {W : Type 0} (l : Logger W) (rows : W → List Entry) (laws : TableLaws l rows) where
  module _ (e : Entry) where
    abbrev Kept : W → Type 0
    Kept w = Holds e (rows w)

    kept : (w w' : W) → rows w' ≡ rows w → Kept w → Kept w'
    kept w w' same h = rw same h

    delete-Keeps :
        (before : ℤ) → ltb_ℤ (pos e.timestamp) before ≡ false → Keeps Kept (l.db.delete_rows before)
    delete-Keeps before new w h = elim (laws.deletes before w) [
      | inl same ↦ kept w _ same h
      | inr gone ↦ rw gone (keep_from-Holds before e (rows w) new h)
    ]

    prune-Keeps :
        (before : ℤ) → ltb_ℤ (pos e.timestamp) before ≡ false → Keeps Kept (prune l before)
    unfolding prune
    prune-Keeps before new =
        bind-Keeps Kept (wrapping "prune audit" (l.db.delete_rows before)) _
          (delete-Keeps before new)
          λ res.
            bind-Keeps Kept (wrapping "rows affected" (lift res)) _ (λ w h. h)
              λ n w h. kept w _ (laws.prune_metric n w) h

    count-Keeps : Keeps Kept (row_count l)
    unfolding row_count
    count-Keeps w h = kept w _ (laws.counts w) h

    tick-Keeps :
        (w : W)
        → ltb_ℤ (pos e.timestamp) (cutoff (l.now w) l.retention_days) ≡ false
        → Kept w
        → Kept (tick l w).1
    unfolding tick
    tick-Keeps w new =
        attempt-Keeps Kept (prune l (cutoff (l.now w) l.retention_days)) _ _
          (prune-Keeps (cutoff (l.now w) l.retention_days) new) (λ e v h. h)
          (λ n.
            attempt-Keeps Kept (row_count l) _ _ count-Keeps (λ e v h. h)
              (λ count v h. kept v _ (laws.rows_metric count v) h))
          w

  -- With a retention of up to 106751 days, a tick of the pruner, on every outcome of every statement,
  -- leaves in the table every row whose time lies at most that many days back.
  pub tick-Holds :
      (d : ℕ)
      → l.retention_days ≡ pos d
      → 0 < d
      → d ≤ 106751
      → (e : Entry) (w : W) → l.now w ≤ e.timestamp + d * day
      → Holds e (rows w)
      → Holds e (rows (tick l w).1)
  tick-Holds d same p h e w recent =
      tick-Keeps e w (rw same (cutoff-not_before (l.now w) d e.timestamp p h recent))

  -- With a retention of 106752 to 213503 days, which is more than 292 years, the product of the
  -- durations wraps around, and a deletion that succeeds leaves no row that is not in the future.
  pub prune_wraps :
      (d : ℕ)
      → 106752 ≤ d
      → d ≤ 213503
      → (now : ℕ) (w : W) (n : ℕ) (w' : W) → prune l (cutoff now (pos d)) w ≡ (ok n, w')
      → All (λ e. now < e.timestamp) (rows w')
  unfolding prune
  prune_wraps d p h now w n w' e =
      let future : W → Type 0 = λ v. All (λ e. now < e.timestamp) (rows v) in
      bind-Yields (λ _. Unit) (wrapping "prune audit" (l.db.delete_rows (cutoff now (pos d))))
        (λ _. future) _ (λ _. future)
        (wrapping-Yields (λ _. Unit) "prune audit" (l.db.delete_rows (cutoff now (pos d)))
          (λ _. future)
          (λ v u res v' q. rw (laws.deletes_all (cutoff now (pos d)) v res v' q) (
            All-imp (λ e. cutoff now (pos d) ≤ℤ pos e.timestamp) (λ e. now < e.timestamp)
              (λ e. cutoff-future now d e.timestamp p h) (keep_from (cutoff now (pos d)) (rows v))
              (keep_from-All (cutoff now (pos d)) (rows v)))))
        (λ res.
          bind-Yields future (wrapping "rows affected" (lift res)) (λ _. future) _ (λ _. future)
            (λ v k m v' q. subst future (ap (λ x. x.1) q) k)
            (λ m.
              bind-Yields future (modify (l.registry.add_audit_prune_total m)) (λ _. future) _
                (λ _. future) (modify-Yields future future _ (λ v k. rw (laws.prune_metric m v) k))
                (λ _. pure-Yields future m (λ _. future) (λ v k. k))))
        w tt n w' e
