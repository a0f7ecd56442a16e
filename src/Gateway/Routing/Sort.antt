-- ===== src/Gateway/Routing/Sort.antt =====
-- Python's `sorted`, which is stable, by the key (estimated_cost, latency tier, model_key)
pub mod Laws
use Prim.Native.Nat.{Ordering, compare}
use Prim.Native.String.{compare as compare_text}
use aieos.Base.{ℕ, String, Bool, true, false, List, [], ◌∷◌, if◌then◌else◌}
use aieos.Gateway.Types.{RouteDecision}

module _ {A : Type 0} (less : A → A → Bool) where
  unfoldable pub insert_sorted : A → List A → List A
  insert_sorted x [] = x ∷ []
  insert_sorted x (y ∷ ys) = if less y x then y ∷ insert_sorted x ys else x ∷ y ∷ ys

  unfoldable pub sort : List A → List A
  sort [] = []
  sort (x ∷ xs) = insert_sorted x (sort xs)

abbrev then_by : Ordering → Ordering → Ordering
then_by Ordering.lt o = Ordering.lt
then_by Ordering.eq o = o
then_by Ordering.gt o = Ordering.gt

abbrev is_less : Ordering → Bool
is_less Ordering.lt = true
is_less _ = false

module _ (latency : String → ℕ) where
  -- the comparison of two keys
  unfoldable pub route_less : RouteDecision → RouteDecision → Bool
  route_less a b = is_less (
      then_by (compare a.estimated_cost b.estimated_cost) (
        then_by (compare (latency a.model_key) (latency b.model_key))
          (compare_text a.model_key b.model_key)))

  unfoldable pub sort_routes : List RouteDecision → List RouteDecision
  sort_routes = sort route_less

unfoldable pub sort_texts : List String → List String
sort_texts = sort (λ a b. is_less (compare_text a b))
