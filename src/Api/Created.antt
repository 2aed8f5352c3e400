-- ===== src/Api/Created.antt =====
-- What a POST of a cluster leaves in the audit log.
use tsdb_operator.Base.{
  ℕ, List, false, if◌then◌else◌, nat_eq, ◌≡◌, refl, sym, ap, ◌∙◌, subst, Result, ok, panic, Reason,
  not_found, already_exists, invalid, other, Error, Result-cases, pure, inl, inr,
}
use tsdb_operator.Base.Hoare.{Yields, attempt-From-Yields, pure-Yields}
use tsdb_operator.Audit.{Entry, Logger}
use tsdb_operator.Api.{
  Context, Gin, Server, Response, status_of, status_for, new_cluster, cluster_object, respond,
  failure, CreateReq, create_bound, bound, create_cluster_handler,
}
use tsdb_operator.Api.Trail.{operator, Recorded, TrailLaws, audit-Yields}

status_of-created : (r : Reason) → nat_eq (status_of r) 201 ≡ false
status_of-created not_found = refl
status_of-created already_exists = refl
status_of-created invalid = refl
status_of-created other = refl

module _ {W : Type 0} (l : Logger W) (rows : W → List Entry) {Q Sel : Type 0} (g : Gin Q Sel)
    (s : Server Q Sel W) (laws : TrailLaws l rows g s) where
  abbrev pub Created : Context → W → Response Q Sel → W → Type 0
  Created c w r w' =
      if nat_eq r.code 201
      then ((req : CreateReq Q) × (g.bind_json c.request.body ≡ ok req)
          × Recorded l rows req.name "create" (operator c) "success" w
              (s.client.create_cluster (new_cluster s.namespace req) w).1 w')
      else (rows w' ≡ rows w)

  other-Created :
      (c : Context) (e : Error) (code : ℕ) (w : W)
      → nat_eq code 201 ≡ false
      → Yields (λ v. rows v ≡ rows w) (pure (failure code e)) (Created c w)
  other-Created c e code w other_code =
      pure-Yields _ (failure code e) _ (λ v same. rw other_code same)

  create_bound-Yields :
      (c : Context) (req : CreateReq Q) (w : W)
      → g.bind_json c.request.body ≡ ok req
      → Yields (λ v. v ≡ w) (create_bound g s c req) (Created c w)
  unfolding create_bound
  create_bound-Yields c req w bound =
      let call = s.client.create_cluster (new_cluster s.namespace req) in
      let kept = laws.create_cluster (new_cluster s.namespace req) w in
      attempt-From-Yields w call _ _ (Created c w)
        (λ e. λ v at.
          other-Created c e (status_for e) w (status_of-created e.reason) v (ap rows at ∙ kept))
        (λ pc. λ v same r w' q.
          let resp : Response Q Sel = respond 201 (cluster_object pc) in
          let (is, there) =
            audit-Yields l rows g s laws c req.name "create" "success" "" resp w (call w).1 kept v
              same r w' q in
          subst (λ x. Created c w x w') (sym is) (req, bound, there))

  -- A POST of a cluster that does not panic leaves one row if it answers 201, under the name in the
  -- body, and none for any other answer, when the database takes the row and the calls of the API
  -- server leave the table alone.
  pub create_cluster-Recorded :
      (c : Context) (w : W) (r : Response Q Sel) (w' : W)
      → create_cluster_handler g s c w ≡ (ok r, w')
      → Created c w r w'
  unfolding create_cluster_handler
  create_cluster-Recorded c w r w' q = elim (Result-cases (g.bind_json c.request.body)) [
    | inl (req, is) ↦ create_bound-Yields c req w is w refl r w' (rw is at q)
    | inr (inl (e, is)) ↦ other-Created c e 400 w refl w refl r w' (rw is at q)
    | inr (inr is) ↦
        let bad : ◌≡◌ {A = Result (Response Q Sel) × W} (panic, w) (ok r, w') = rw is at q in
        let worse : ⊥ = cc in absurd worse
  ]
