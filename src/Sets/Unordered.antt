-- ===== src/Sets/Unordered.antt =====
-- The status of a set does not depend on the order in which the API server lists the clusters.
use mathlib.Core.List.{Permᴰ}
use mathlib.Core.List.Permᴰ
use mathlib.Core.List.Permᴰ.{nil, cons, swap, trans}
use tsdb_operator.Base.{
  suc, ◌^◌, ◌<◌, String, Option, List, [], ◌∷◌, false, ◌==◌, eq_iff, ◌≡◌, ◌≢◌, refl, sym, ap, ◌∙◌,
  subst, inl, inr, map, arith, ok, Bool-cases, lookup, length, All,
}
use tsdb_operator.Base.Int.{pos, to_int32}
use tsdb_operator.Base.Order.{text_less_total, count_if, sort}
use tsdb_operator.Base.Order.Canonical.{count_if-perm, Compares, IsStrict, sort-perm}
use tsdb_operator.Types.{
  key_of, PrometheusCluster, PrometheusClusterSet, PrometheusClusterSetStatus, SetMember,
}
use tsdb_operator.Sets.{SetReconciler, Tally, entry, is_selected, member_less, with_status, scan}
use tsdb_operator.Sets.Counts.{member_key, member_of, IsCounted, selected, UpdateKeeps, scan-Yields}
use tsdb_operator.Sets.Status.{empty-IsCounted, member_less_asym, member_less_trans}

-- The same members in the same order, the same number of them, and the same counts.
pub record SameStatus (s t : PrometheusClusterSetStatus) : Type 0 where
  pub members : s.members ≡ t.members
  pub size : s.member_count ≡ t.member_count
  pub phases :
      (p : String) → p ≢ "" → entry (lookup p s.phase_count) ≡ entry (lookup p t.phase_count)

-- No two clusters have both their namespace and their name in common.
abbrev pub IsUnique : {Q : Type 0} → List (PrometheusCluster Q) → Type 0
IsUnique [] = Unit
IsUnique (pc ∷ pcs) = All (λ other. key_of pc.meta ≢ key_of other.meta) pcs × IsUnique pcs

abbrev pub no_tally : Tally
no_tally = record { members = []; phase_count = [] }

same_key :
    (a b : SetMember)
    → member_less a b ≡ false
    → member_less b a ≡ false
    → (a.namespace ≡ b.namespace) × (a.name ≡ b.name)
unfolding member_less
same_key a b h k = ground (
  arith,
  eq_iff a.namespace b.namespace,
  eq_iff b.namespace a.namespace,
  text_less_total a.namespace b.namespace,
  text_less_total a.name b.name,
)

member-Compares : (a b : SetMember) → member_key a ≢ member_key b → Compares member_less a b
member-Compares a b ne = elim (Bool-cases (member_less a b)) [
  | inl e ↦ inl e
  | inr e ↦ elim (Bool-cases (member_less b a)) [
    | inl k ↦ inr k
    | inr k ↦ let (p, q) = same_key a b e k in absurd (ne cc)
  ]
]

map_same : (ms : List SetMember) → map (λ m. m) ms ≡ ms
map_same [] = refl
map_same (m ∷ ms) = ap (λ rest. m ∷ rest) (map_same ms)

length-perm : {A : Type 0} {xs ys : List A} → Permᴰ xs ys → length xs ≡ length ys
length-perm nil = refl
length-perm (cons e d) = ap suc (length-perm d)
length-perm (swap e f) = refl
length-perm (trans d e) = length-perm d ∙ length-perm e

module _ {Q Sel Selector W : Type 0} (r : SetReconciler Q Sel Selector W) (sel : Selector)
    (allowed : Option (List String)) where
  abbrev chosen : List (PrometheusCluster Q) → List SetMember
  chosen = selected r (λ m. m) sel allowed

  cons_chosen :
      (pc : PrometheusCluster Q) (l l' : List (PrometheusCluster Q))
      → Permᴰ (chosen l) (chosen l')
      → Permᴰ (chosen (pc ∷ l)) (chosen (pc ∷ l'))
  unfolding selected
  cons_chosen pc l l' d = elim (Bool-cases (is_selected r sel allowed pc)) [
    | inl e ↦ rw e (cons refl d)
    | inr e ↦ rw e d
  ]

  swap_chosen :
      (a b : PrometheusCluster Q) (l : List (PrometheusCluster Q))
      → Permᴰ (chosen (a ∷ b ∷ l)) (chosen (b ∷ a ∷ l))
  unfolding selected
  swap_chosen a b l = elim (Bool-cases (is_selected r sel allowed a)) [
    | inl e ↦ elim (Bool-cases (is_selected r sel allowed b)) [
      | inl f ↦ rw (e, f) (swap refl refl)
      | inr f ↦ rw (e, f) (Permᴰ.refl _)
    ]
    | inr e ↦ rw e (Permᴰ.refl _)
  ]

  chosen-perm :
      {pcs pcs' : List (PrometheusCluster Q)} → Permᴰ pcs pcs' → Permᴰ (chosen pcs) (chosen pcs')
  unfolding selected
  chosen-perm nil = nil
  chosen-perm (cons {a} {b} {l₁} {l₂} e d) =
      subst (λ x. Permᴰ (chosen (a ∷ l₁)) (chosen (x ∷ l₂))) e (cons_chosen a l₁ l₂ (chosen-perm d))
  chosen-perm (swap {a} {b} {a'} {b'} {l} e f) =
      subst (λ x. Permᴰ (chosen (a ∷ b ∷ l)) (chosen (x ∷ b' ∷ l))) f
        (subst (λ x. Permᴰ (chosen (a ∷ b ∷ l)) (chosen (b ∷ x ∷ l))) e (swap_chosen a b l))
  chosen-perm (trans d e) = trans (chosen-perm d) (chosen-perm e)

  chosen-Compares :
      (pc : PrometheusCluster Q) (pcs : List (PrometheusCluster Q))
      → All (λ other. key_of pc.meta ≢ key_of other.meta) pcs
      → All (Compares member_less (member_of pc)) (chosen pcs)
  unfolding selected
  chosen-Compares pc [] h = tt
  chosen-Compares pc (x ∷ pcs) h = elim (Bool-cases (is_selected r sel allowed x)) [
    | inl e ↦ rw e (member-Compares (member_of pc) (member_of x) h.0, chosen-Compares pc pcs h.1)
    | inr e ↦ rw e (chosen-Compares pc pcs h.1)
  ]

  chosen-IsStrict :
      (pcs : List (PrometheusCluster Q)) → IsUnique pcs → IsStrict member_less (chosen pcs)
  unfolding selected
  chosen-IsStrict [] h = tt
  chosen-IsStrict (pc ∷ pcs) h = elim (Bool-cases (is_selected r sel allowed pc)) [
    | inl e ↦ rw e (chosen-Compares pc pcs h.0, chosen-IsStrict pcs h.1)
    | inr e ↦ rw e (chosen-IsStrict pcs h.1)
  ]

  module _ (keeps : UpdateKeeps r (λ m. m)) (set : PrometheusClusterSet Sel) where
    scan-members :
        (pcs : List (PrometheusCluster Q))
        → length pcs < 2 ^ 31
        → (w : W) (t : Tally) (w' : W) → scan r set sel allowed pcs no_tally w ≡ (ok t, w')
        → IsCounted t × (t.members ≡ chosen pcs)
    scan-members pcs small w t w' e =
        let (counted, its) =
          scan-Yields r (λ m. m) set sel allowed keeps pcs no_tally (omega (arith, small))
            empty-IsCounted w tt t w' e in
        (counted, sym (map_same t.members) ∙ its)

    -- If the API server lists the same clusters in another order, no two of which have their
    -- namespace and name in common and which are fewer than 2^31, the loop over them gives the same
    -- status: the same members in the same order, the same number, and the same count of each phase;
    -- also if it runs at another time, with other outcomes of its overlays. Updates are relied on to
    -- keep a cluster's namespace, name and phase.
    pub scan-SameStatus :
        (pcs pcs' : List (PrometheusCluster Q))
        → Permᴰ pcs pcs'
        → IsUnique pcs
        → length pcs < 2 ^ 31
        → (w : W) (t : Tally) (w' : W) → scan r set sel allowed pcs no_tally w ≡ (ok t, w')
        → (v : W) (u : Tally) (v' : W) → scan r set sel allowed pcs' no_tally v ≡ (ok u, v')
        → SameStatus (with_status t set).status (with_status u set).status
    scan-SameStatus pcs pcs' same unique small w t w' e v u v' f =
        let (counted_t, of_t) = scan-members pcs small w t w' e in
        let (counted_u, of_u) =
          scan-members pcs' (omega (arith, small, length-perm same)) v u v' f in
        let shuffled = chosen-perm same in
        record {
          members =
              ap (sort member_less) of_t
              ∙ sort-perm member_less member_less_asym member_less_trans shuffled
                  (chosen-IsStrict pcs unique)
              ∙ sym (ap (sort member_less) of_u);
          size =
              ap (λ ms. to_int32 (length ms)) of_t
              ∙ ap to_int32 (length-perm shuffled)
              ∙ sym (ap (λ ms. to_int32 (length ms)) of_u);
          phases = λ p ne.
              counted_t p ne
              ∙ ap pos (
                  ap (count_if (λ m. m.phase == p)) of_t
                  ∙ count_if-perm (λ m. m.phase == p) shuffled
                  ∙ sym (ap (count_if (λ m. m.phase == p)) of_u))
              ∙ sym (counted_u p ne);
        }
