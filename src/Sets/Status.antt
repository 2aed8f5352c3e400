-- ===== src/Sets/Status.antt =====
-- The status that a pass over a set writes.
use tsdb_operator.Base.{
  handle, throw, wrap, is_not_found, if◌then◌else◌, suc, ◌^◌, ◌<◌, String, Option, some, List, [],
  ◌∷◌, true, false, ◌==◌, eq_iff, ◌≡◌, ◌≢◌, refl, sym, ap, ◌∙◌, arith, ok, length, lookup, map, ◌≤◌,
  subst, ◌>>=◌, wrapping, lift, pure,
}
use tsdb_operator.Base.Hoare.{Yields, bind-Yields, wrapping-Yields, pure-Yields}
use tsdb_operator.Base.Int.{pos, to_int32_small}
use tsdb_operator.Base.Order.{
  text_less_asym, text_less_trans, text_less_total, count_if, count_if-sort, sort, sort-IsSorted,
  IsSorted,
}
use tsdb_operator.Types.{
  Key, key_of, PrometheusCluster, PrometheusClusterSet, PrometheusClusterSetStatus, SetMember,
}
use tsdb_operator.Sets.{
  SetReconciler, Tally, entry, member_less, with_status, scan, reconcile_members,
  reconcile_found_set, reconcile_set, selector_for,
}
use tsdb_operator.Sets.Counts.{member_key, IsCounted, UpdateKeeps, selected, scan-Yields}

-- The members are in the order of their namespaces and names, and are counted, as a whole and by
-- phase.
pub record IsSummary (s : PrometheusClusterSetStatus) : Type 0 where
  pub in_order : IsSorted member_less s.members
  pub size : s.member_count ≡ pos (length s.members)
  pub phases :
      (p : String)
      → p ≢ ""
      → entry (lookup p s.phase_count) ≡ pos (count_if (λ m. m.phase == p) s.members)

pub member_less_asym : (a b : SetMember) → member_less a b ≡ true → member_less b a ≡ false
unfolding member_less
member_less_asym a b h = ground (
  arith,
  eq_iff a.namespace b.namespace,
  eq_iff b.namespace a.namespace,
  text_less_asym a.name b.name,
  text_less_asym a.namespace b.namespace,
)

pub member_less_trans :
    (a b c : SetMember)
    → member_less b a ≡ false
    → member_less c b ≡ false
    → member_less c a ≡ false
unfolding member_less
member_less_trans a b c h k = ground (
  arith,
  eq_iff b.namespace a.namespace,
  eq_iff c.namespace b.namespace,
  eq_iff c.namespace a.namespace,
  text_less_trans a.name b.name c.name,
  text_less_trans a.namespace b.namespace c.namespace,
  text_less_total a.namespace b.namespace,
  text_less_total b.namespace c.namespace,
)

count_all : {A : Type 0} (xs : List A) → count_if (λ _. true) xs ≡ length xs
unfolding count_if
count_all [] = refl
count_all (x ∷ xs) = ap suc (count_all xs)

length-sort : (xs : List SetMember) → length (sort member_less xs) ≡ length xs
length-sort xs =
    sym (count_all (sort member_less xs)) ∙ count_if-sort member_less (λ _. true) xs ∙ count_all xs

with_status-IsSummary :
    {Sel : Type 0} (t : Tally) (set : PrometheusClusterSet Sel)
    → length t.members < 2 ^ 31
    → IsCounted t
    → IsSummary (with_status t set).status
with_status-IsSummary t set small counted = record {
  in_order = sort-IsSorted member_less member_less_asym member_less_trans t.members;
  size = to_int32_small (length t.members) small ∙ ap pos (sym (length-sort t.members));
  phases =
      λ p ne. counted p ne ∙ ap pos (sym (count_if-sort member_less (λ m. m.phase == p) t.members));
}

length-map : {A B : Type 0} (f : A → B) (xs : List A) → length (map f xs) ≡ length xs
length-map f [] = refl
length-map f (x ∷ xs) = ap suc (length-map f xs)

pub empty-IsCounted : IsCounted (record { members = []; phase_count = [] })
unfolding lookup count_if
empty-IsCounted p ne = refl

module _ {Q Sel Selector W : Type 0} (r : SetReconciler Q Sel Selector W)
    (view : W → Key → Option (PrometheusClusterSet Sel)) where
  -- What the pass relies on of the API server.
  pub record SetLaws : Type 0 where
    pub keeps : UpdateKeeps r member_key
    pub few :
        (w : W) (pcs : List (PrometheusCluster Q)) (w' : W)
        → r.client.list_clusters w ≡ (ok pcs, w')
        → length pcs < 2 ^ 31
    pub status_written :
        (set : PrometheusClusterSet Sel) (w : W) (stored : PrometheusClusterSet Sel) (w' : W)
        → r.client.update_set_status set w ≡ (ok stored, w')
        → (view w' (key_of set.meta) ≡ some stored) × (stored.status ≡ set.status)

  abbrev pub HasSummary : Key → W → Type 0
  HasSummary key w =
      (stored : PrometheusClusterSet Sel) × (view w key ≡ some stored) × IsSummary stored.status

  module _ (laws : SetLaws) (set : PrometheusClusterSet Sel) where
    selected_few :
        (sel : Selector) (allowed : Option (List String)) (pcs : List (PrometheusCluster Q))
        → length (selected r member_key sel allowed pcs) ≤ length pcs
    unfolding selected
    selected_few sel allowed [] = omega arith
    selected_few sel allowed (pc ∷ pcs) = ground (arith, selected_few sel allowed pcs)

    write-Yields :
        (t : Tally)
        → length t.members < 2 ^ 31
        → IsCounted t
        → Yields
            (λ _. Unit)
            (wrapping "update status" (r.client.update_set_status (with_status t set)) >>= λ _.
              pure tt)
            (λ _. HasSummary (key_of set.meta))
    write-Yields t small counted =
        bind-Yields _ _ (λ _. HasSummary (key_of set.meta)) _ _
          (wrapping-Yields _ _ _ _ (λ w u stored w' q.
            let (there, same) = laws.status_written (with_status t set) w stored w' q in
            (
              stored,
              there,
              subst IsSummary (sym same) (with_status-IsSummary t set small counted),
            )))
          (λ _. pure-Yields _ tt _ (λ w h. h))

    counted-Yields :
        (sel : Selector) (allowed : Option (List String)) (pcs : List (PrometheusCluster Q))
        → length pcs < 2 ^ 31
        → Yields
            (λ _. Unit)
            (scan r set sel allowed pcs (record { members = []; phase_count = [] }) >>= λ t.
              wrapping "update status" (r.client.update_set_status (with_status t set)) >>= λ _.
              pure tt)
            (λ _. HasSummary (key_of set.meta))
    counted-Yields sel allowed pcs small =
        bind-Yields _ _ (λ t _. IsCounted t × (length t.members < 2 ^ 31)) _ _
          (λ w u t w' q.
            let (counted, keys) =
              scan-Yields r member_key set sel allowed laws.keeps pcs
                (record { members = []; phase_count = [] }) (omega (arith, small)) empty-IsCounted w
                tt t w' q in
            (
              counted,
              omega (
                arith,
                small,
                ap length keys,
                length-map member_key t.members,
                selected_few sel allowed pcs,
              ),
            ))
          (λ t w both. write-Yields t both.1 both.0 w tt)

    members-Yields :
        (cluster_sel ns_sel : Selector)
        → Yields
            (λ _. Unit)
            (reconcile_members r set cluster_sel ns_sel)
            (λ _. HasSummary (key_of set.meta))
    unfolding reconcile_members
    members-Yields cluster_sel ns_sel =
        bind-Yields _ _ (λ _ _. Unit) _ _ (λ w u a w' q. tt)
          λ allowed.
            bind-Yields _ _ (λ pcs _. length pcs < 2 ^ 31) _ _
              (wrapping-Yields _ _ _ _ (λ w u pcs w' q. laws.few w pcs w' q))
              (λ pcs w small. counted-Yields cluster_sel allowed pcs small w tt)

    found-Yields :
        Yields (λ _. Unit) (reconcile_found_set r set) (λ _. HasSummary (key_of set.meta))
    unfolding reconcile_found_set
    found-Yields =
        bind-Yields _
          (wrapping "invalid clusterSelector" (lift (selector_for r set.spec.cluster_selector)))
          (λ _ _. Unit) _ _ (λ w u a w' q. tt)
          λ cluster_sel.
            bind-Yields _
              (wrapping "invalid namespaceSelector"
                (lift (selector_for r set.spec.namespace_selector)))
              (λ _ _. Unit) _ _ (λ w u a w' q. tt) λ ns_sel. members-Yields cluster_sel ns_sel

    -- A pass over a set that succeeds leaves a status in which the members are sorted by namespace
    -- and name, the member count is their number, and each phase has the number of members in it.
    pub reconcile_set-HasSummary :
        (key : Key) (w w₁ w' : W)
        → r.client.get_set key w ≡ (ok set, w₁)
        → reconcile_set r key w ≡ (ok tt, w')
        → HasSummary (key_of set.meta) w'
    unfolding reconcile_set
    reconcile_set-HasSummary key w w₁ w' found e = found-Yields w₁ tt tt w' (
        sym (
          ap
            (λ x.
              handle x.0
                (λ e. if is_not_found e.reason then pure tt else throw (wrap "get clusterset" e))
                (reconcile_found_set r) x.1)
            found)
        ∙ e)
