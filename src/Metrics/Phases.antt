-- ===== src/Metrics/Phases.antt =====
-- What the phase gauge reads after `SetPhase`.
use tsdb_operator.Base.{
  ℕ, String, List, [], ◌∷◌, ◌==◌, eq_iff, ◌≡◌, ◌≢◌, refl, Bool, ◌&&◌, false, if◌then◌else◌, All,
  Any, arith, ◌∙◌, IsDistinct, distinct, distinct_sound, Option, some, subst, inl, inr,
}
use tsdb_operator.Metrics.{Registry, phases, set_phases, set_phase}

abbrev pub same_series : (ns cluster phase ns' cluster' phase' : String) → Bool
same_series ns cluster phase ns' cluster' phase' =
    ns == ns' && (cluster == cluster' && phase == phase')

-- A gauge reads what was last set for its labels; `none` is a series that does not exist.
pub record GaugeLaws {W : Type 0} (reg : Registry W) : Type 0 where
  pub value : W → (namespace cluster phase : String) → Option ℕ
  pub value_after_set :
      (ns cluster phase : String) (v : ℕ) (w : W) (ns' cluster' phase' : String)
      → value (reg.set_cluster_phase ns cluster phase v w) ns' cluster' phase' ≡ (
          if same_series ns cluster phase ns' cluster' phase'
          then some v
          else value w ns' cluster' phase')

phases_differ : IsDistinct phases
unfolding distinct
phases_differ = distinct_sound phases refl

module _ {W : Type 0} (reg : Registry W) (laws : GaugeLaws reg) where
  open laws use {value, value_after_set}

  set_phases_other :
      (ns cluster phase : String) (ps : List String) (w : W) (q : String)
      → All (λ p. q ≢ p) ps
      → value (set_phases reg ns cluster phase ps w) ns cluster q ≡ value w ns cluster q
  unfolding set_phases
  set_phases_other ns cluster phase [] w q h = refl
  set_phases_other ns cluster phase (p ∷ ps) w q h =
      set_phases_other ns cluster phase ps _ q h.1
      ∙ ground (
        arith,
        value_after_set ns cluster p (if p == phase then 1 else 0) w ns cluster q,
        eq_iff p q,
      )

  set_phases_value :
      (ns cluster phase : String) (ps : List String) (w : W) (q : String)
      → IsDistinct ps
      → Any (λ p. p ≡ q) ps
      → value (set_phases reg ns cluster phase ps w) ns cluster q
        ≡ some (if q == phase then 1 else 0)
  unfolding set_phases
  set_phases_value ns cluster phase (p ∷ ps) w q d (inl e) =
      set_phases_other ns cluster phase ps _ q (subst (λ r. All (λ t. r ≢ t) ps) e d.0)
      ∙ ground (
        arith,
        value_after_set ns cluster p (if p == phase then 1 else 0) w ns cluster q,
        eq_iff ns ns,
        eq_iff cluster cluster,
        eq_iff p q,
      )
  set_phases_value ns cluster phase (p ∷ ps) w q d (inr m) =
      set_phases_value ns cluster phase ps _ q d.1 m
  set_phases_value ns cluster phase [] w q d m = elim m [ ]

  set_phases_elsewhere :
      (ns cluster phase : String) (ps : List String) (w : W) (ns' cluster' q : String)
      → (ns == ns' && cluster == cluster') ≡ false
      → value (set_phases reg ns cluster phase ps w) ns' cluster' q ≡ value w ns' cluster' q
  unfolding set_phases
  set_phases_elsewhere ns cluster phase [] w ns' cluster' q h = refl
  set_phases_elsewhere ns cluster phase (p ∷ ps) w ns' cluster' q h =
      set_phases_elsewhere ns cluster phase ps _ ns' cluster' q h
      ∙ ground (arith, value_after_set ns cluster p (if p == phase then 1 else 0) w ns' cluster' q)

  -- After `SetPhase` with any phase, each of the four phase series of the cluster exists and reads 1
  -- if it is that phase and 0 if not.
  pub set_phase-value :
      (ns cluster phase : String) (w : W) (q : String)
      → Any (λ p. p ≡ q) phases
      → value (set_phase reg ns cluster phase w) ns cluster q ≡ some (if q == phase then 1 else 0)
  unfolding set_phase
  set_phase-value ns cluster phase w q m =
      set_phases_value ns cluster phase phases w q phases_differ m

  -- `SetPhase` of a cluster leaves the series of every other cluster as they are.
  pub set_phase-value_other :
      (ns cluster phase : String) (w : W) (ns' cluster' q : String)
      → (ns == ns' && cluster == cluster') ≡ false
      → value (set_phase reg ns cluster phase w) ns' cluster' q ≡ value w ns' cluster' q
  unfolding set_phase
  set_phase-value_other ns cluster phase w ns' cluster' q h =
      set_phases_elsewhere ns cluster phase phases w ns' cluster' q h
