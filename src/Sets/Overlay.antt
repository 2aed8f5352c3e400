-- ===== src/Sets/Overlay.antt =====
-- Which members a set leaves alone.
use tsdb_operator.Base.{
  String, Option, List, [], ◌∷◌, Bool, true, ◌≡◌, refl, ◌⊎◌, inl, inr, if◌then◌else◌, All, arith,
  get_or_empty, ok, eq_iff, Bool-cases,
}
use tsdb_operator.Types.{PrometheusCluster, PrometheusClusterSet}
use tsdb_operator.Sets.{
  SetReconciler, Tally, opt_out_annotation, overlay_backup, is_selected, add_member, scan,
}

-- The member opted out, or has its own backup.
abbrev pub IsLeftAlone : {Q : Type 0} → PrometheusCluster Q → Type 0
IsLeftAlone pc =
    (get_or_empty opt_out_annotation pc.meta.annotations ≡ "true") ⊎ (pc.spec.backup.enabled ≡ true)

module _ {Q : Type 0} where
  -- The tally of the clusters that a test selects, in the order of the list.
  unfoldable pub tally : (PrometheusCluster Q → Bool) → List (PrometheusCluster Q) → Tally → Tally
  tally selected [] t = t
  tally selected (pc ∷ pcs) t = tally selected pcs (if selected pc then add_member pc t else t)

module _ {Q Sel Selector W : Type 0} (r : SetReconciler Q Sel Selector W)
    (set : PrometheusClusterSet Sel) where
  left_alone :
      (pc : PrometheusCluster Q) (w : W) → IsLeftAlone pc → overlay_backup r set pc w ≡ (ok pc, w)
  unfolding overlay_backup
  left_alone pc w h =
      ground (arith, eq_iff (get_or_empty opt_out_annotation pc.meta.annotations) "true")

  -- The loop over clusters that all opted out or have backup enabled changes nothing on the server,
  -- succeeds, and counts exactly the selected ones.
  pub scan-left_alone :
      (sel : Selector) (allowed : Option (List String)) (pcs : List (PrometheusCluster Q))
      (t : Tally) (w : W)
      → All IsLeftAlone pcs
      → scan r set sel allowed pcs t w ≡ (ok (tally (is_selected r sel allowed) pcs t), w)
  unfolding scan tally
  scan-left_alone sel allowed [] t w h = refl
  scan-left_alone sel allowed (pc ∷ pcs) t w h = elim (Bool-cases (is_selected r sel allowed pc)) [
    | inl e ↦ rw (e, left_alone pc w h.0) (scan-left_alone sel allowed pcs (add_member pc t) w h.1)
    | inr e ↦ rw e (scan-left_alone sel allowed pcs t w h.1)
  ]
