-- ===== src/Sets/Counts.antt =====
-- What the loop over the clusters counts.
use tsdb_operator.Base.{
  ℕ, suc, ◌+◌, ◌^◌, ◌<◌, ◌≤◌, String, Option, List, [], ◌∷◌, ◌++◌, Bool, true, false, ◌==◌, eq_iff,
  ◌≡◌, ◌≢◌, refl, sym, ap, ◌∙◌, inl, inr, if◌then◌else◌, map, arith, ok, Bool-cases, lookup, Map,
  lookup-insert, get_or_empty, length, length-append, pure, Option-cases,
}
use tsdb_operator.Base.Int.{ℤ, pos, to_int32_small}
use tsdb_operator.Base.Order.{count_if}
use tsdb_operator.Base.Hoare.{Yields, bind-Yields, attempt-Yields, pure-Yields, if-Yields}
use tsdb_operator.Types.{Key, PrometheusCluster, PrometheusClusterSet, SetMember}
use tsdb_operator.Sets.{
  opt_out_annotation, overlaid, SetReconciler, Tally, entry, increment, count_phase, add_member,
  is_selected, overlay_backup, scan,
}

-- Every phase has the number of members that are in it.
abbrev pub IsCounted : Tally → Type 0
IsCounted t =
    (p : String)
    → p ≢ ""
    → entry (lookup p t.phase_count) ≡ pos (count_if (λ m. m.phase == p) t.members)

abbrev pub member_key : SetMember → Key
member_key m = record { namespace = m.namespace; name = m.name }

count_if-append :
    {A : Type 0} (p : A → Bool) (xs : List A) (x : A)
    → count_if p (xs ++ x ∷ []) ≡ (if p x then suc (count_if p xs) else count_if p xs)
unfolding count_if
count_if-append p [] x = refl
count_if-append p (y ∷ ys) x = ground (arith, count_if-append p ys x)

count_if-length : {A : Type 0} (p : A → Bool) (xs : List A) → count_if p xs ≤ length xs
unfolding count_if
count_if-length p [] = omega arith
count_if-length p (y ∷ ys) = ground (arith, count_if-length p ys)

entry-count_phase :
    (q p : String) (m : Map ℤ)
    → p ≢ ""
    → entry (lookup p (count_phase q m))
      ≡ (if q == p then increment (entry (lookup p m)) else entry (lookup p m))
unfolding count_phase
entry-count_phase q p m ne =
    ground (arith, eq_iff q p, eq_iff q "", lookup-insert q p (increment (entry (lookup q m))) m)

one_more : (b : Bool) (n : ℕ) → (if b then pos (suc n) else pos n) ≡ pos (if b then suc n else n)
one_more true n = refl
one_more false n = refl

append_nil : {A : Type 0} (xs : List A) → xs ++ [] ≡ xs
append_nil [] = refl
append_nil (x ∷ xs) = ap (λ ys. x ∷ ys) (append_nil xs)

map_snoc :
    {A B : Type 0} (f : A → B) (xs : List A) (x : A) (ys : List B)
    → map f (xs ++ x ∷ []) ++ ys ≡ map f xs ++ (f x ∷ ys)
map_snoc f [] x ys = refl
map_snoc f (z ∷ xs) x ys = ap (λ zs. f z ∷ zs) (map_snoc f xs x ys)

module _ {Q : Type 0} where
  pub add_member-IsCounted :
      (pc : PrometheusCluster Q) (t : Tally)
      → suc (length t.members) < 2 ^ 31
      → IsCounted t
      → IsCounted (add_member pc t)
  unfolding add_member
  add_member-IsCounted pc t bound h p ne =
      let phase = pc.status.phase in
      let count = count_if (λ m. m.phase == p) t.members in
      let fits : suc count < 2 ^ 31 =
        omega (arith, bound, count_if-length (λ m. m.phase == p) t.members) in
      entry-count_phase phase p t.phase_count ne
      ∙ ap (λ e. if phase == p then increment e else e) (h p ne)
      ∙ ap (λ e. if phase == p then e else pos count) (to_int32_small (suc count) fits)
      ∙ one_more (phase == p) count
      ∙ ap pos (sym (count_if-append (λ m. m.phase == p) t.members _))

-- The entry of a cluster in the status of a set.
abbrev pub member_of : {Q : Type 0} → PrometheusCluster Q → SetMember
member_of pc = record {
  namespace = pc.meta.namespace;
  name = pc.meta.name;
  phase = pc.status.phase;
}

module _ {Q Sel Selector W X : Type 0} (r : SetReconciler Q Sel Selector W)
    (seen : SetMember → X) where
  -- What is seen of the selected clusters, in the order of the list.
  unfoldable pub selected : Selector → Option (List String) → List (PrometheusCluster Q) → List X
  selected sel allowed [] = []
  selected sel allowed (pc ∷ pcs) =
      let rest = selected sel allowed pcs in
      if is_selected r sel allowed pc then seen (member_of pc) ∷ rest else rest

  -- An update returns the object that it was given, as far as that is seen.
  abbrev pub UpdateKeeps : Type 0
  UpdateKeeps =
      (pc : PrometheusCluster Q) (w : W) (stored : PrometheusCluster Q) (w' : W)
      → r.client.update_cluster pc w ≡ (ok stored, w')
      → seen (member_of stored) ≡ seen (member_of pc)

  module _ (set : PrometheusClusterSet Sel) (sel : Selector) (allowed : Option (List String))
      (keeps : UpdateKeeps) where
    unchanged :
        (pc : PrometheusCluster Q)
        → Yields {W = W}
            (λ _. Unit)
            (pure pc)
            (λ stored _. seen (member_of stored) ≡ seen (member_of pc))
    unchanged pc = pure-Yields _ pc _ (λ w u. refl)

    overlay-Yields :
        (pc : PrometheusCluster Q)
        → Yields
            (λ _. Unit)
            (overlay_backup r set pc)
            (λ stored _. seen (member_of stored) ≡ seen (member_of pc))
    unfolding overlay_backup
    overlay-Yields pc = elim (Option-cases set.spec.backup_template) [
      | inl e ↦ rw (e, overlay_backup) (unchanged pc)
      | inr (template, e) ↦
          rw (e, overlay_backup)
            (if-Yields (λ _. Unit) (get_or_empty opt_out_annotation pc.meta.annotations == "true") _
              _ _ (λ _. unchanged pc)
              (λ _.
                if-Yields (λ _. Unit) pc.spec.backup.enabled _ _ _ (λ _. unchanged pc)
                  (λ _ w u stored w' q. keeps (overlaid set.meta.name template pc) w stored w' q)))
    ]

    -- If updates keep what is seen of a member (`seen`, for example its name and namespace), the
    -- number of clusters fits an int32 and each phase is counted so far, then so it is after the
    -- loop, and the loop has added one member for each selected cluster, in the order of the list,
    -- whether an overlay failed or not.
    pub scan-Yields :
        (pcs : List (PrometheusCluster Q)) (t : Tally)
        → length t.members + length pcs < 2 ^ 31
        → IsCounted t
        → Yields
            (λ _. Unit)
            (scan r set sel allowed pcs t)
            (λ t' _.
              IsCounted t' × (map seen t'.members ≡ map seen t.members ++ selected sel allowed pcs))
    unfolding scan selected add_member
    scan-Yields [] t bound h = pure-Yields _ t _ (λ w u. (h, sym (append_nil (map seen t.members))))
    scan-Yields (pc ∷ pcs) t bound h = elim (Bool-cases (is_selected r sel allowed pc)) [
      | inr e ↦ rw e (scan-Yields pcs t (omega arith) h)
      | inl e ↦ rw e (
          bind-Yields _ _ (λ current _. seen (member_of current) ≡ seen (member_of pc)) _ _
            (attempt-Yields _ (overlay_backup r set pc) (λ _ _. Unit) _ _ _ _ (λ _ _ _ _ _. tt)
              (overlay-Yields pc) (λ _ w u. unchanged pc w tt)
              (λ stored w same.
                pure-Yields (λ _. seen (member_of stored) ≡ seen (member_of pc)) stored _
                  (λ w' k. k) w same))
            (λ current w same t' w' q.
              let later =
                scan-Yields pcs (add_member current t)
                  (omega (arith, length-append t.members (member_of current ∷ [])))
                  (add_member-IsCounted current t (omega arith) h) w tt t' w' q in
              (
                later.0,
                later.1
                    ∙ (map_snoc seen t.members _ (selected sel allowed pcs)
                        ∙ ap (λ k. map seen t.members ++ (k ∷ selected sel allowed pcs)) same),
              )))
    ]
