-- ===== src/Gateway/Routing/Choice.antt =====
-- About `_eligible_routes` and `_route` of ReferenceAIGateway (gateway.py): the loop and the choice.
use aieos.Base.{
  ℕ, ◌≤◌, String, Option, some, none, List, [], ◌∷◌, ◌++◌, string_eq, ok, ◌≡◌, refl, ap, sym, ◌⊎◌,
  inl, inr, ◌↔◌, Within, Option-cases, map,
}
use aieos.Base.Dict.{Dict, get}
use aieos.Gateway.Types.{AiInvocationRequest, RouteDecision}
use aieos.Gateway.Routing.{
  ModelCatalogEntry, Screening, exclusion, add_screened, screen, first_route, route_cost, decision,
  eligible_routes, model_latency, route,
}
use aieos.Gateway.Routing.Health.{ModelHealth, HealthState, health_state}
use aieos.Gateway.Routing.Health.Laws.{cool-state, cool-health_state}
use aieos.Gateway.Routing.Sort.{sort_routes, sort_texts}
use aieos.Gateway.Routing.Sort.Laws.{Within-sort_routes, sort_routes_first}
use aieos.Gateway.Routing.Laws.{Serves, exclusion_iff}

module _ (clock : ℕ → ℕ) (r : AiInvocationRequest) (tokens : ℕ) where
  Within-snoc :
      (e x : ModelCatalogEntry) (es : List ModelCatalogEntry)
      → Within e (es ++ x ∷ []) ↔ (Within e es ⊎ (e ≡ x))
  Within-snoc e x [] = (
    λ h. elim h [ inl p ↦ inr p | inr m ↦ absurd m ],
    λ h. elim h [ inl m ↦ absurd m | inr p ↦ inl p ],
  )
  Within-snoc e x (y ∷ es) = (
    λ h. elim h [
      | inl p ↦ inl (inl p)
      | inr m ↦ elim ((Within-snoc e x es).0 m) [ inl n ↦ inl (inr n) | inr p ↦ inr p ]
    ],
    λ h. elim h [
      | inl m ↦ elim m [ inl p ↦ inl p | inr n ↦ inr ((Within-snoc e x es).1 (inl n)) ]
      | inr p ↦ inr ((Within-snoc e x es).1 (inr p))
    ],
  )

  added-Serves :
      (x : ModelCatalogEntry) (state : HealthState) (s : Screening) (e : ModelCatalogEntry)
      → Within e (add_screened x (exclusion r tokens state x) s).eligible
      → Within e s.eligible ⊎ ((e ≡ x) × Serves r tokens e)
  unfolding add_screened
  added-Serves x state s e n = elim (Option-cases (exclusion r tokens state x)) [
    | inl p ↦ elim ((Within-snoc e x s.eligible).0 (rw p at n)) [
      | inl m ↦ inl m
      | inr q ↦ inr (q, rw q ((exclusion_iff r tokens state x).0 p).0)
    ]
    | inr (c, p) ↦ inl (rw p at n)
  ]

  added_keeps :
      (x : ModelCatalogEntry) (reason : Option String) (s : Screening) (e : ModelCatalogEntry)
      → Within e s.eligible
      → Within e (add_screened x reason s).eligible
  unfolding add_screened
  added_keeps x none s e m = (Within-snoc e x s.eligible).1 (inl m)
  added_keeps x (some reason) s e m = m

  added_eligible :
      (x : ModelCatalogEntry) (s : Screening) → Within x (add_screened x none s).eligible
  unfolding add_screened
  added_eligible x s = (Within-snoc x x s.eligible).1 (inr refl)

  screen-Serves :
      (es : List ModelCatalogEntry) (h : ModelHealth) (s : Screening) (e : ModelCatalogEntry)
      → Within e (screen clock r tokens es h s).0.eligible
      → Within e s.eligible ⊎ (Within e es × Serves r tokens e)
  unfolding screen
  screen-Serves [] h s e m = inl m
  screen-Serves (x ∷ es) h s e m =
      let (state, h1) = health_state clock x.model_key h in
      elim (screen-Serves es h1 (add_screened x (exclusion r tokens state x) s) e m) [
        | inr (n, v) ↦ inr (inr n, v)
        | inl n ↦ elim (added-Serves x state s e n) [ inl k ↦ inl k | inr (p, v) ↦ inr (inl p, v) ]
      ]

  screen_keeps :
      (es : List ModelCatalogEntry) (h : ModelHealth) (s : Screening) (e : ModelCatalogEntry)
      → Within e s.eligible
      → Within e (screen clock r tokens es h s).0.eligible
  unfolding screen
  screen_keeps [] h s e m = m
  screen_keeps (x ∷ es) h s e m =
      let (state, h1) = health_state clock x.model_key h in
      screen_keeps es h1 _ e (added_keeps x (exclusion r tokens state x) s e m)

  pub screen_finds :
      (es : List ModelCatalogEntry) (h : ModelHealth) (s : Screening) (e : ModelCatalogEntry)
      → Within e es
      → Serves r tokens e
      → get e.model_key h.cooldowns ≡ none
      → Within e (screen clock r tokens es h s).0.eligible
  unfolding screen
  screen_finds [] h s e m v c = absurd m
  screen_finds (x ∷ es) h s e (inl p) v c =
      let n : exclusion r tokens (health_state clock x.model_key h).0 x ≡ none =
        (exclusion_iff r tokens (health_state clock x.model_key h).0 x).1
          (rw (sym p) v, cool-state clock x.model_key h (rw (sym p) c)) in
      screen_keeps es (health_state clock x.model_key h).1 _ e (rw (n, p) (added_eligible x s))
  screen_finds (x ∷ es) h s e (inr m) v c =
      screen_finds es (health_state clock x.model_key h).1 _ e m v
        (cool-health_state clock e.model_key x.model_key h c)

Within-map :
    (f : ModelCatalogEntry → RouteDecision) (e : ModelCatalogEntry) (es : List ModelCatalogEntry)
    → Within e es
    → Within (f e) (map f es)
Within-map f e [] m = absurd m
Within-map f e (x ∷ es) (inl p) = inl (ap f p)
Within-map f e (x ∷ es) (inr m) = inr (Within-map f e es m)

map-Within :
    (f : ModelCatalogEntry → RouteDecision) (d : RouteDecision) (es : List ModelCatalogEntry)
    → Within d (map f es)
    → (e : ModelCatalogEntry) × Within e es × (d ≡ f e)
map-Within f d [] m = absurd m
map-Within f d (x ∷ es) (inl p) = (x, inl refl, p)
map-Within f d (x ∷ es) (inr m) = let (e, n, p) = map-Within f d es m in (e, inr n, p)

-- The route is to an entry of the catalog that serves the request, at its cost, and no entry that
-- serves the request and has no cooldown costs less.
pub record Best (r : AiInvocationRequest) (tokens : ℕ) (catalog : List ModelCatalogEntry)
    (h : ModelHealth) (d : RouteDecision) : Type 0 where
  pub chosen : ModelCatalogEntry
  pub in_catalog : Within chosen catalog
  pub same_model : (d.model_key ≡ chosen.model_key) × (d.adapter_key ≡ chosen.adapter_key)
  pub serves : Serves r tokens chosen
  pub at_cost : d.estimated_cost ≡ route_cost r tokens chosen
  pub cheapest :
      (e : ModelCatalogEntry)
      → Within e catalog
      → Serves r tokens e
      → get e.model_key h.cooldowns ≡ none
      → d.estimated_cost ≤ route_cost r tokens e

first-ok :
    (ds : List RouteDecision) (d : RouteDecision)
    → first_route ds ≡ ok d
    → (rest : List RouteDecision) × (ds ≡ d ∷ rest)
first-ok [] d p = cc
first-ok (x ∷ ds) d p = (ds, cc)

first-Within :
    (ds : List RouteDecision) (d : RouteDecision)
    → Within d ds
    → (c : RouteDecision) × (first_route ds ≡ ok c)
first-Within [] d m = absurd m
first-Within (x ∷ ds) d m = (x, refl)

abbrev nothing_yet : Screening
nothing_yet = record { eligible = []; excluded = [] }

module _ (route_digest : String → String → ℕ → Dict String String → String) (clock : ℕ → ℕ)
    (r : AiInvocationRequest) (tokens : ℕ) (catalog : List ModelCatalogEntry)
    (h : ModelHealth) where
  -- A route that is returned is Best: it is to an entry of the catalog that serves the request, its
  -- cost is that entry's for the longest answer, and no entry that serves the request and has no
  -- cooldown on record costs less.
  pub route-Best :
      (d : RouteDecision)
      → (route route_digest clock r tokens catalog h).0 ≡ ok d
      → Best r tokens catalog h d
  unfolding route eligible_routes decision
  route-Best d p =
      let s : Screening = (screen clock r tokens catalog h nothing_yet).0 in
      let make : ModelCatalogEntry → RouteDecision =
        decision route_digest clock r tokens (sort_texts (map (λ e. e.model_key) catalog))
          s.excluded in
      let latency : String → ℕ = model_latency catalog in
      let (rest, q) = first-ok (sort_routes latency (map make s.eligible)) d p in
      let inside : Within d (map make s.eligible) =
        (Within-sort_routes latency d (map make s.eligible)).0 (rw q (inl refl)) in
      let (e, m, eq) = map-Within make d s.eligible inside in
      let found : Within e catalog × Serves r tokens e =
        elim (screen-Serves clock r tokens catalog h nothing_yet e m) [
          | inl n ↦ absurd n
          | inr x ↦ x
        ] in
      record {
        chosen = e;
        in_catalog = found.0;
        same_model = (ap (λ x. x.model_key) eq, ap (λ x. x.adapter_key) eq);
        serves = found.1;
        at_cost = ap (λ x. x.estimated_cost) eq;
        cheapest = λ a m v c. sort_routes_first latency d (make a) (map make s.eligible) rest q (
            Within-map make a s.eligible
              (screen_finds clock r tokens catalog h nothing_yet a m v c));
      }

  -- An entry that serves the request and has no cooldown on record: a route is returned.
  pub route-returns :
      (e : ModelCatalogEntry)
      → Within e catalog
      → Serves r tokens e
      → get e.model_key h.cooldowns ≡ none
      → (d : RouteDecision) × ((route route_digest clock r tokens catalog h).0 ≡ ok d)
  unfolding route eligible_routes
  route-returns e m v c =
      let s : Screening = (screen clock r tokens catalog h nothing_yet).0 in
      let make : ModelCatalogEntry → RouteDecision =
        decision route_digest clock r tokens (sort_texts (map (λ e. e.model_key) catalog))
          s.excluded in
      let latency : String → ℕ = model_latency catalog in
      first-Within (sort_routes latency (map make s.eligible)) (make e) (
        (Within-sort_routes latency (make e) (map make s.eligible)).1 (
          Within-map make e s.eligible (screen_finds clock r tokens catalog h nothing_yet e m v c)))
