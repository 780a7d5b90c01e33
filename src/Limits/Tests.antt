-- ===== src/Limits/Tests.antt =====
-- An instance of the theorem on package ratelimit (internal/ratelimit).
use Prim.Native.Nat.{min}
use platarium_gateway_go.Common.{◌-◌, ◌≡◌, refl, true, inl, [], ◌∷◌, arith}
use platarium_gateway_go.Common.Int.{pos}
use platarium_gateway_go.Common.Text.{text}
use platarium_gateway_go.Common.Dict.{lookup}
use platarium_gateway_go.Limits.Limiter.{Limiter, new_limiter, allow}
use platarium_gateway_go.Limits.Window.{Calls, passed, calls_of, allow-window}

abbrev two_per_second : Limiter
two_per_second = new_limiter (pos 2) (pos 1000000000)

abbrev later_calls : Calls
later_calls = (text "a", 10) ∷ (text "b", 11) ∷ (text "a", 12) ∷ []

allow-window_example :
    let r = allow (text "a") 5 two_per_second in
    (r.1 ≡ true)
    × (passed (text "a") later_calls r.0
        ≡ min (calls_of (text "a") later_calls) (two_per_second.limit - 1))
unfolding lookup
allow-window_example =
    allow-window (text "a") 5 two_per_second later_calls (inl refl)
      ((λ e. omega arith), ((λ e. omega arith), ((λ e. omega arith), tt)))
