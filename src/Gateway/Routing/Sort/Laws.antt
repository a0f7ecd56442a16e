-- ===== src/Gateway/Routing/Sort/Laws.antt =====
-- About the order of the routes in `_eligible_routes` (gateway.py).
use aieos.Base.{
  ℕ, ◌≤◌, String, Bool, true, false, List, [], ◌∷◌, ◌≡◌, ◌⊎◌, inl, inr, ◌↔◌, arith, Within,
  Bool-cases,
}
use aieos.Gateway.Types.{RouteDecision}
use aieos.Gateway.Routing.Sort.{insert_sorted, sort, route_less, sort_routes}

module _ {A : Type 0} (less : A → A → Bool) where
  Within-insert_sorted :
      (a x : A) (ys : List A) → Within a (insert_sorted less x ys) ↔ ((a ≡ x) ⊎ Within a ys)
  unfolding insert_sorted
  Within-insert_sorted a x [] = (λ h. h, λ h. h)
  Within-insert_sorted a x (y ∷ ys) = elim (Bool-cases (less y x)) [
    | inl p ↦
        rw (p, insert_sorted)
          (
            λ h. elim h [
              | inl e ↦ inr (inl e)
              | inr m ↦ elim ((Within-insert_sorted a x ys).0 m) [
                | inl e ↦ inl e
                | inr n ↦ inr (inr n)
              ]
            ],
            λ h. elim h [
              | inl e ↦ inr ((Within-insert_sorted a x ys).1 (inl e))
              | inr m ↦ elim m [
                | inl e ↦ inl e
                | inr n ↦ inr ((Within-insert_sorted a x ys).1 (inr n))
              ]
            ],
          )
    | inr p ↦ rw (p, insert_sorted) (λ h. h, λ h. h)
  ]

  Within-sort : (a : A) (xs : List A) → Within a (sort less xs) ↔ Within a xs
  unfolding sort
  Within-sort a [] = (λ h. h, λ h. h)
  Within-sort a (x ∷ xs) = (
    λ h. elim ((Within-insert_sorted a x (sort less xs)).0 h) [
      | inl e ↦ inl e
      | inr m ↦ inr ((Within-sort a xs).0 m)
    ],
    λ h.
        (Within-insert_sorted a x (sort less xs)).1
          (elim h [ inl e ↦ inl e | inr m ↦ inr ((Within-sort a xs).1 m) ]),
  )

-- no route of the list costs less
abbrev pub AllAtLeast : ℕ → List RouteDecision → Type 0
AllAtLeast c [] = Unit
AllAtLeast c (d ∷ ds) = (c ≤ d.estimated_cost) × AllAtLeast c ds

abbrev Ascending : List RouteDecision → Type 0
Ascending [] = Unit
Ascending (d ∷ ds) = AllAtLeast d.estimated_cost ds × Ascending ds

AllAtLeast-le : (b c : ℕ) (ds : List RouteDecision) → b ≤ c → AllAtLeast c ds → AllAtLeast b ds
AllAtLeast-le b c [] h k = tt
AllAtLeast-le b c (d ∷ ds) h k = (omega arith, AllAtLeast-le b c ds h k.1)

AllAtLeast-Within :
    (c : ℕ) (a : RouteDecision) (ds : List RouteDecision)
    → AllAtLeast c ds
    → Within a ds
    → c ≤ a.estimated_cost
AllAtLeast-Within c a [] h m = absurd m
AllAtLeast-Within c a (d ∷ ds) h (inl e) = rw e h.0
AllAtLeast-Within c a (d ∷ ds) h (inr m) = AllAtLeast-Within c a ds h.1 m

module _ (latency : String → ℕ) where
  less-le :
      (a b : RouteDecision) → route_less latency a b ≡ true → a.estimated_cost ≤ b.estimated_cost
  unfolding route_less
  less-le a b h = ground arith

  not_less-le :
      (a b : RouteDecision) → route_less latency a b ≡ false → b.estimated_cost ≤ a.estimated_cost
  unfolding route_less
  not_less-le a b h = ground arith

  AllAtLeast-insert :
      (c : ℕ) (x : RouteDecision) (ys : List RouteDecision)
      → c ≤ x.estimated_cost
      → AllAtLeast c ys
      → AllAtLeast c (insert_sorted (route_less latency) x ys)
  unfolding insert_sorted
  AllAtLeast-insert c x [] h k = (h, tt)
  AllAtLeast-insert c x (y ∷ ys) h k = ground (arith, AllAtLeast-insert c x ys h k.1)

  Ascending-insert :
      (x : RouteDecision) (ys : List RouteDecision)
      → Ascending ys
      → Ascending (insert_sorted (route_less latency) x ys)
  unfolding insert_sorted
  Ascending-insert x [] k = (tt, tt)
  Ascending-insert x (y ∷ ys) k = elim (Bool-cases (route_less latency y x)) [
    | inl p ↦
        rw (p, insert_sorted)
          (AllAtLeast-insert y.estimated_cost x ys (less-le y x p) k.0, Ascending-insert x ys k.1)
    | inr p ↦
        rw (p, insert_sorted)
          (
            (
              not_less-le y x p,
              AllAtLeast-le x.estimated_cost y.estimated_cost ys (not_less-le y x p) k.0,
            ),
            k,
          )
  ]

  sort_routes-Ascending : (xs : List RouteDecision) → Ascending (sort_routes latency xs)
  unfolding sort_routes sort
  sort_routes-Ascending [] = tt
  sort_routes-Ascending (x ∷ xs) =
      Ascending-insert x (sort_routes latency xs) (sort_routes-Ascending xs)

  pub Within-sort_routes :
      (a : RouteDecision) (xs : List RouteDecision)
      → Within a (sort_routes latency xs) ↔ Within a xs
  unfolding sort_routes
  Within-sort_routes = Within-sort (route_less latency)

  -- The first of the sorted routes costs no more than any of them.
  pub sort_routes_first :
      (d a : RouteDecision) (xs ds : List RouteDecision)
      → sort_routes latency xs ≡ d ∷ ds
      → Within a xs
      → d.estimated_cost ≤ a.estimated_cost
  unfolding sort_routes
  sort_routes_first d a xs ds h m =
      let asc : Ascending (d ∷ ds) = rw h at (sort_routes-Ascending xs) in
      let w : Within a (d ∷ ds) = rw h at ((Within-sort (route_less latency) a xs).1 m) in
      elim w [
        | inl e ↦ rw e (omega arith)
        | inr n ↦ AllAtLeast-Within d.estimated_cost a ds asc.0 n
      ]
