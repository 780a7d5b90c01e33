-- ===== src/Contacts/Step.antt =====
-- A call on a `Store` (internal/contacteconomy/store.go) as a value, and sequences of calls.
-- `CreateRequest` reads the store before it takes the write lock, so other calls may run between its
-- two parts: the call here is its second part, of a request that was admitted before.
use platarium_gateway_go.Common.{ℕ, ◌≡◌, List, [], ◌∷◌}
use platarium_gateway_go.Common.Int.{ℤ}
use platarium_gateway_go.Common.Text.{Text}
use platarium_gateway_go.Contacts.Types.{ContactRequest, PricingAnnounce, Store, status_pending}
use platarium_gateway_go.Contacts.Store.{set_pricing, add_xp}
use platarium_gateway_go.Contacts.Requests.{file_request}
use platarium_gateway_go.Contacts.Responses.{respond, mark_settled, expire_due}

pub data Action : Type 0 where
  files : ContactRequest → Action
  responds : ℤ → Text → Text → Text → Text → Action
  marks : Text → Text → Action
  expires : ℤ → Action
  prices : ℤ → PricingAnnounce → Action
  earns : Text → ℕ → Action

unfoldable pub act : Action → Store → Store
unfolding file_request respond mark_settled expire_due set_pricing add_xp
act (files r) s = (file_request r s).0
act (responds now id actor outcome signature) s = (respond now id actor outcome signature s).0
act (marks id tx) s = (mark_settled id tx s).0
act (expires now) s = (expire_due now s).0
act (prices now p) s = (set_pricing now p s).0
act (earns address delta) s = add_xp address delta s

unfoldable pub run : List Action → Store → Store
unfolding act
run [] s = s
run (a ∷ actions) s = run actions (act a s)

-- What `admit_request` gives the calls that file a request: it is pending.
abbrev pub IsAdmitted : Action → Type 0
IsAdmitted (files r) = r.status ≡ status_pending
IsAdmitted (responds _ _ _ _ _) = Unit
IsAdmitted (marks _ _) = Unit
IsAdmitted (expires _) = Unit
IsAdmitted (prices _ _) = Unit
IsAdmitted (earns _ _) = Unit

abbrev pub AllAdmitted : List Action → Type 0
AllAdmitted [] = Unit
AllAdmitted (a ∷ actions) = IsAdmitted a × AllAdmitted actions
