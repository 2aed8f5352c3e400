-- ===== src/Api/Routed.antt =====
-- Which handlers a method can reach.
use tsdb_operator.Base.{
  String, List, [], ◌∷◌, some, Bool, true, false, ◌≡◌, refl, sym, inl, inr, Any, All,
}
use tsdb_operator.Api.{Handler, create_cluster, delete_cluster, trigger_backup, Route, routes, Gin}

-- The handlers that only read.
abbrev pub reads : Handler → Bool
reads create_cluster = false
reads delete_cluster = false
reads trigger_backup = false
reads _ = true

-- gin answers with a route that is registered for the method, and does not change an answer unless
-- the handler panicked.
pub record GinLaws {Q Sel : Type 0} (g : Gin Q Sel) : Type 0 where
  pub finds :
      (rs : List Route) (method path : String) (r : Route) (name : String)
      → g.find rs method path ≡ some (r, name)
      → Any (λ x. x ≡ r) rs × (r.method ≡ method)

module _ {A : Type 0} (P : A → Type 0) where
  pub All-Any : (xs : List A) (y : A) → All P xs → Any (λ x. x ≡ y) xs → P y
  All-Any [] y h m = elim m [ ]
  All-Any (x ∷ xs) y (p, h) (inl same) = rw (sym same) p
  All-Any (x ∷ xs) y (p, h) (inr m) = All-Any xs y h m

abbrev GetReads : Route → Type 0
GetReads r = r.method ≡ "GET" → reads r.handler ≡ true

routes-GetReads : All GetReads routes
unfolding routes
routes-GetReads = (
  λ e. refl,
  (
    λ e. absurd (cc e),
    (
      λ e. refl,
      (λ e. absurd (cc e), (λ e. absurd (cc e), (λ e. refl, (λ e. refl, (λ e. refl, tt))))),
    ),
  ),
)

module _ {Q Sel : Type 0} (g : Gin Q Sel) (laws : GinLaws g) where
  pub get-reads :
      (path : String) (r : Route) (name : String)
      → g.find routes "GET" path ≡ some (r, name)
      → reads r.handler ≡ true
  get-reads path r name e =
      let (there, same) = laws.finds routes "GET" path r name e in
      All-Any GetReads routes r routes-GetReads there same
