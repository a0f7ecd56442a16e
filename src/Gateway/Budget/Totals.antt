-- ===== src/Gateway/Budget/Totals.antt =====
-- About the sums over the reservations in `reserve` (gateway.py).
use aieos.Base.{ℕ, ◌+◌, ◌≤◌, String, Bool, some, none, [], ◌∷◌, string_eq, ◌≡◌, arith}
use aieos.Base.Dict.{Dict, get, put}
use aieos.Gateway.Types.{GatewayReservation}
use aieos.Gateway.Budget.{total, weight, expire, expire_all}

module _ (p : GatewayReservation → Bool) where
  pub total-put_new :
      (k : String) (r : GatewayReservation) (d : Dict String GatewayReservation)
      → get k d ≡ none
      → total p (put k r d) ≡ total p d + weight p r
  unfolding total get put
  total-put_new k r [] h = ground arith
  total-put_new k r ((j, q) ∷ d) h = ground (arith, total-put_new k r d)

  pub total-put_old :
      (k : String) (r old : GatewayReservation) (d : Dict String GatewayReservation)
      → get k d ≡ some old
      → total p (put k r d) + weight p old ≡ total p d + weight p r
  unfolding total get put
  total-put_old k r old [] h = cc
  total-put_old k r old ((j, q) ∷ d) h = ground (arith, total-put_old k r old d)

  pub total-expire_all :
      (now : ℕ) (d : Dict String GatewayReservation)
      → ((r : GatewayReservation) → weight p (expire now r) ≤ weight p r)
      → total p (expire_all now d) ≤ total p d
  unfolding total expire_all
  total-expire_all now [] h = omega arith
  total-expire_all now ((j, q) ∷ d) h = omega (arith, h q, total-expire_all now d h)
