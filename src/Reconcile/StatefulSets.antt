-- ===== src/Reconcile/StatefulSets.antt =====
-- The StatefulSet after a pass that succeeds.
use tsdb_operator.Base.{
  Option, none, some, true, false, ◌≡◌, refl, sym, ap, ◌∙◌, subst, inl, inr, not, ◌||◌, arith,
  Result, ok, err, panic, Error, throw, lift, wrap, is_not_found,
}
use tsdb_operator.Base.Hoare.{
  Yields, bind-Yields, wrapping-Yields, attempt-Yields, pure-Yields, lift-Yields, if-Yields,
}
use tsdb_operator.Base.Int.{ℤ, pos, eqb_ℤ, eqb_ℤ→eq}
use tsdb_operator.Types.{
  Key, key_of, ObjectMeta, PrometheusCluster, StatefulSet, PodTemplate, ClusterPhase,
  phase_provisioning,
}
use tsdb_operator.Workload.{build_stateful_set}
use tsdb_operator.Kube.Laws.{Store, IsStored, Frames, Effects, OwnerKeepsKey}
use tsdb_operator.Reconcile.{
  Reconciler, Next, phase_for, update_phase, create_stateful_set, sync_replicas, sync_stateful_set,
  reconcile_stateful_set,
}
use tsdb_operator.Reconcile.Steps.{Served, Running, Settled, PhasesApart, update_phase-Yields}
use tsdb_operator.Reconcile.Settled.{
  child_key, Reports, HasConfigMap, HasService, phase_for-Reports,
}

module _ {Q W : Type 0} (Defaulted : PodTemplate Q → PodTemplate Q → Type 0) (r : Reconciler Q W)
    (view : W → Store Q) (pc : PrometheusCluster Q) (found : Option (StatefulSet Q))
    (frames : Frames view r.client) (effects : Effects Defaulted view r.client)
    (owners : OwnerKeepsKey r.tools) (apart : PhasesApart r view) where
  abbrev Before : W → Type 0
  Before = Served Defaulted r view pc found

  abbrev Last : StatefulSet Q → W → Type 0
  Last = Running Defaulted r view pc found

  abbrev End : W → Type 0
  End = Settled Defaulted r view pc found

  abbrev wanted : StatefulSet Q
  wanted = build_stateful_set r.quantities pc

  wanted_key : key_of wanted.meta ≡ child_key pc pc.meta.name
  unfolding build_stateful_set
  wanted_key = refl

  wanted_replicas : wanted.replicas ≡ some pc.spec.replicas
  unfolding build_stateful_set
  wanted_replicas = refl

  finish :
      (now : StatefulSet Q) (phase : ClusterPhase) (ready : ℤ)
      → Reports pc.spec.replicas found now phase ready
      → Yields (Last now) (update_phase r pc phase ready) (λ _. End)
  finish = update_phase-Yields Defaulted r view pc found frames effects apart

  -- What was sent is there, and the objects before it are as they were.
  stored-Running :
      (w w' : W) (sent t : StatefulSet Q)
      → Before w
      → key_of sent.meta ≡ child_key pc pc.meta.name
      → sent.replicas ≡ some pc.spec.replicas
      → sent.template ≡ wanted.template
      → IsStored Defaulted sent t ((view w').stateful_sets (key_of sent.meta))
      → (view w').config_maps ≡ (view w).config_maps
      → (view w').services ≡ (view w).services
      → Last t w'
  stored-Running w w' sent t h key replicas template there maps services = (
    (
      subst (HasConfigMap Defaulted r pc) (sym maps) h.0.0,
      subst (HasService Defaulted r pc) (sym services) h.0.1,
    ),
    (
      subst (λ k. (view w').stateful_sets k ≡ some t) key there.there,
      there.replicas ∙ replicas,
      inr (subst (λ d. Defaulted d t.template) template there.template),
    ),
  )

  create-Yields : found ≡ none → Yields Before (create_stateful_set r pc) (λ _. End)
  unfolding create_stateful_set
  create-Yields missing =
      bind-Yields Before _ (λ owned w. Before w × (key_of owned ≡ child_key pc pc.meta.name)) _
        (λ _. End)
        (wrapping-Yields Before _ _
          (λ owned w. Before w × (key_of owned ≡ child_key pc pc.meta.name)) reference)
        λ owned.
          bind-Yields (λ w. Before w × (key_of owned ≡ child_key pc pc.meta.name)) _ Last _
            (λ _. End) (wrapping-Yields _ _ _ Last (creates owned))
            (λ now. finish now phase_provisioning (pos 0) (
              subst (λ f. Reports pc.spec.replicas f now phase_provisioning (pos 0)) (sym missing)
                (refl, refl)))
    where
      reference :
          Yields Before
            (lift (r.tools.set_controller_reference pc.meta wanted.meta))
            (λ owned w. Before w × (key_of owned ≡ child_key pc pc.meta.name))
      reference w h owned w' e =
          let (kept, same) = lift-Yields Before _ w h owned w' e in
          (kept, owners pc.meta wanted.meta owned same ∙ wanted_key)

      creates :
          (owned : ObjectMeta)
          → Yields
              (λ w. Before w × (key_of owned ≡ child_key pc pc.meta.name))
              (r.client.create_stateful_set (record wanted { meta = owned }))
              Last
      creates owned w (h, key) t w' e =
          let sent : StatefulSet Q = record wanted { meta = owned } in
          let at : (r.client.create_stateful_set sent w).1 ≡ w' =
            ap (λ (x : Result (StatefulSet Q) × W). x.1) e in
          stored-Running w w' sent t h key wanted_replicas refl
            (effects.stateful_set_created sent w t w' e)
            (subst (λ v. (view v).config_maps ≡ (view w).config_maps) at
              (frames.create_stateful_set_maps sent w))
            (subst (λ v. (view v).services ≡ (view w).services) at
              (frames.create_stateful_set_services sent w))

  -- The current object as the API server holds it.
  abbrev Found : StatefulSet Q → W → Type 0
  Found s w = Before w × (found ≡ some s) × (key_of s.meta ≡ child_key pc pc.meta.name)

  sync-Yields :
      (s : StatefulSet Q) (n : ℤ)
      → s.replicas ≡ some n
      → Yields (Found s) (sync_replicas r pc s n) (λ _. End)
  unfolding sync_replicas
  sync-Yields s n has =
      bind-Yields (Found s) _ (λ now w. Last now w × (found ≡ some s)) _ (λ _. End)
        (if-Yields (Found s)
          (not (eqb_ℤ n pc.spec.replicas)
            || not (r.tools.semantic_equal s.template.spec wanted.template.spec))
          _ _ (λ now w. Last now w × (found ≡ some s))
          (λ _. wrapping-Yields (Found s) _ _ (λ now w. Last now w × (found ≡ some s)) updates)
          (λ same.
            pure-Yields (Found s) s (λ now w. Last now w × (found ≡ some s))
              (λ w h. (kept w h same, h.1))))
        (λ now. λ w (h, was).
          let phase =
            phase_for (not (eqb_ℤ n pc.spec.replicas)) now.ready_replicas pc.spec.replicas in
          finish now phase now.ready_replicas
            (subst (λ f. Reports pc.spec.replicas f now phase now.ready_replicas) (sym was)
              (phase_for-Reports s now n pc.spec.replicas has))
            w h)
    where
      updates :
          Yields
            (Found s)
            (r.client.update_stateful_set
              (record s { replicas = some pc.spec.replicas; template = wanted.template }))
            (λ now w. Last now w × (found ≡ some s))
      updates w (h, was, key) t w' e =
          let sent : StatefulSet Q = record s {
            replicas = some pc.spec.replicas;
            template = wanted.template;
          } in
          let at : (r.client.update_stateful_set sent w).1 ≡ w' =
            ap (λ (x : Result (StatefulSet Q) × W). x.1) e in
          (
            stored-Running w w' sent t h key refl refl (effects.stateful_set_updated sent w t w' e)
                (subst (λ v. (view v).config_maps ≡ (view w).config_maps) at
                  (frames.update_stateful_set_maps sent w))
                (subst (λ v. (view v).services ≡ (view w).services) at
                  (frames.update_stateful_set_services sent w)),
            was,
          )

      kept :
          (w : W)
          → Found s w
          → (not (eqb_ℤ n pc.spec.replicas)
              || not (r.tools.semantic_equal s.template.spec wanted.template.spec))
            ≡ false
          → Last s w
      kept w (h, was, key) same =
          let count : n ≡ pc.spec.replicas = eqb_ℤ→eq n pc.spec.replicas (ground arith) in
          (h.0, (h.1 ∙ was, has ∙ ap some count, inl (ground arith)))

  sync_stateful_set-Yields :
      (s : StatefulSet Q) → Yields (Found s) (sync_stateful_set r pc s) (λ _. End)
  unfolding sync_stateful_set
  sync_stateful_set-Yields s = go s.replicas refl
    where
      go :
          (o : Option ℤ)
          → s.replicas ≡ o
          → Yields {A = Next}
              (Found s)
              (elim o [ none ↦ lift panic | some n ↦ sync_replicas r pc s n ])
              (λ _. End)
      go none has = λ w h a w' e. cc
      go (some n) has = sync-Yields s n has

  throws : (e : Error) → Yields {A = Next} Before (throw e) (λ _. End)
  throws e w h a w' q = cc

  -- The StatefulSet was not there, if the API server says so.
  abbrev Missing : Error → W → Type 0
  Missing e w = Before w × (is_not_found e.reason ≡ true → found ≡ none)

  seen :
      (k : Key) (w : W) (x : Result (StatefulSet Q)) (w' : W)
      → r.client.get_stateful_set k w ≡ (x, w')
      → view w' ≡ view w
  seen k w x w' e =
      ap (λ (y : Result (StatefulSet Q) × W). view y.1) (sym e) ∙ frames.get_stateful_set k w

  same-Before : (w w' : W) → view w' ≡ view w → Before w → Before w'
  same-Before w w' e h = (
    (
      subst (λ (v : Store Q). HasConfigMap Defaulted r pc v.config_maps) (sym e) h.0.0,
      subst (λ (v : Store Q). HasService Defaulted r pc v.services) (sym e) h.0.1,
    ),
    ap (λ (v : Store Q). v.stateful_sets (child_key pc pc.meta.name)) e ∙ h.1,
  )

  at_wanted :
      (w : W) (o : Option (StatefulSet Q))
      → Before w
      → (view w).stateful_sets (key_of wanted.meta) ≡ o
      → found ≡ o
  at_wanted w o h there = sym h.1 ∙ subst (λ k. (view w).stateful_sets k ≡ o) wanted_key there

  pub stateful_set-Yields : Yields Before (reconcile_stateful_set r pc) (λ _. End)
  unfolding reconcile_stateful_set
  stateful_set-Yields =
      attempt-Yields Before (r.client.get_stateful_set (key_of wanted.meta)) Missing Found _ _
        (λ _. End)
        (λ w h e w' q. (
          same-Before w w' (seen _ w (err e) w' q) h,
          λ gone. at_wanted w none h (effects.stateful_set_missing _ w e w' q gone),
        ))
        (λ w h s w' q.
          let (there, key) = effects.stateful_set_found _ w s w' q in
          (
            same-Before w w' (seen _ w (ok s) w' q) h,
            at_wanted w (some s) h there,
            key ∙ wanted_key,
          ))
        (λ e.
          if-Yields (Missing e) (is_not_found e.reason) (create_stateful_set r pc)
            (throw (wrap "get statefulset" e)) (λ _. End)
            (λ gone. λ w h. create-Yields (h.1 gone) w h.0) (λ _. λ w h. throws _ w h.0))
        sync_stateful_set-Yields
