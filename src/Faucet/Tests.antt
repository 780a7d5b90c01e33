-- ===== src/Faucet/Tests.antt =====
-- Runs of package faucet (internal/faucet) on a concrete store, and instances of its theorems.
use platarium_gateway_go.Common.{
  ◌+◌, ◌-◌, ◌*◌, ◌/◌, ◌≡◌, ◌≢◌, refl, sym, ◌∙◌, none, [], arith, true, false, inl, inr, List, ◌∷◌,
}
use platarium_gateway_go.Common.Text.{text}
use platarium_gateway_go.Common.Dict.{lookup}
use platarium_gateway_go.Faucet.Cooldown.{
  CooldownStore, waits, persist_failed, second, normalize_address, next_claim, take_claim,
  try_claim,
}
use platarium_gateway_go.Faucet.Calls.{FaucetCall, all_called, tries, releases, try_claim-cooldown}
use platarium_gateway_go.Faucet.Claims.{try_claim-kept, persist_failed-ne}

-- The cooldown of a day, in nanoseconds.
abbrev fresh : CooldownStore
fresh = record { cooldown = 86400000000000; claims = []; file = none; writable = true }

granted : (try_claim (text "bob ") 5500000000 fresh).1 ≡ waits 0
unfolding try_claim next_claim take_claim normalize_address
granted = refl

same_address : normalize_address (text " bob") ≡ normalize_address (text "bob ")
unfolding normalize_address
same_address = refl

-- Bob tries again at once, alice claims, and gives her claim back.
abbrev busy : List FaucetCall
busy =
    tries (text "bob") 5600000000 ∷ tries (text "alice") 5700000000 ∷ releases (text "alice") ∷ []

alice-ne : normalize_address (text "alice") ≢ normalize_address (text "bob ")
unfolding normalize_address
alice-ne e = cc (e)

try_claim-cooldown_example :
    let s' = all_called busy (try_claim (text "bob ") 5500000000 fresh).0 in
    try_claim (text " bob") 6000000000 s'
    ≡ (s', waits (5500000000 / second * second + 86400000000000 - 6000000000))
try_claim-cooldown_example =
    try_claim-cooldown (text "bob ") (text " bob") 5500000000 6000000000 busy fresh granted
      same_address (omega arith) (inr (omega arith), (inl alice-ne, (alice-ne, tt))) (omega arith)

abbrev read_only : CooldownStore
read_only = record fresh { writable = false }

fails : (try_claim (text "bob") 5500000000 read_only).1 ≡ persist_failed
unfolding try_claim next_claim take_claim normalize_address
fails = refl

failed : (try_claim (text "bob") 5500000000 read_only).1 ≢ waits 0
failed e = persist_failed-ne (sym fails ∙ e)

try_claim-kept_example :
    lookup (text "bob") (try_claim (text "bob") 5500000000 read_only).0.claims
    ≡ lookup (text "bob") read_only.claims
try_claim-kept_example = try_claim-kept (text "bob") (text "bob") 5500000000 read_only failed
