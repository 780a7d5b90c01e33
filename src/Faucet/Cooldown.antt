-- ===== src/Faucet/Cooldown.antt =====
-- `CooldownStore` of internal/faucet/cooldown.go. A time is its nanoseconds since 1970, and a claim its
-- whole seconds. What `persistLocked` leaves in the file is a field of the state. The cooldown
-- and the times are natural numbers, where `time.Duration` is an int64 and `Sub` saturates.
use platarium_gateway_go.Common.{
  ℕ, ◌+◌, ◌-◌, ◌*◌, ◌/◌, Bool, true, false, Option, none, some, [], ltb, if◌then◌else◌, ◌==◌,
}
use platarium_gateway_go.Common.Int.{ℤ, pos, negsuc}
use platarium_gateway_go.Common.Text.{Text, text_eq, text_beq, trim_space}
use platarium_gateway_go.Common.Dict.{Dict, lookup, insert, erase}

pub record CooldownStore : Type 0 where
  pub cooldown : ℕ
  pub claims : Dict ℤ
  pub file : Option (Dict ℤ)
  pub writable : Bool

-- A wait of zero is the claim.
pub data Claim : Type 0 where
  waits : ℕ → Claim
  address_required persist_failed : Claim

abbrev pub second : ℕ
second = 1000000000

unfoldable pub normalize_address : Text → Text
unfolding trim_space
normalize_address address = trim_space address

-- `time.Unix(last, 0).Add(s.cooldown)`, and zero for a claim that does not count.
unfoldable pub next_claim : Option ℤ → ℕ → ℕ
next_claim none cooldown = 0
next_claim (some (pos last)) cooldown = if ltb 0 last then last * second + cooldown else 0
next_claim (some (negsuc last)) cooldown = 0

unfoldable pub remaining : Text → ℕ → CooldownStore → ℕ
unfolding normalize_address lookup next_claim text_beq
remaining address now s =
    let key = normalize_address address in
    if key == [] then 0 else next_claim (lookup key s.claims) s.cooldown - now

abbrev pub put_claim : Text → ℕ → CooldownStore → CooldownStore
put_claim key now s = record s { claims = insert key (pos (now / second)) s.claims }

-- Where the claim could not be persisted it is taken back.
abbrev pub restored : Text → Option ℤ → CooldownStore → CooldownStore
restored key (some prev) s = record s { claims = insert key prev s.claims }
restored key none s = record s { claims = erase key s.claims }

-- `TryClaim` after the cooldown's test.
unfoldable pub take_claim : Text → ℕ → CooldownStore → CooldownStore × Claim
unfolding lookup insert erase
take_claim key now s =
    let t = put_claim key now s in
    if s.writable
    then (record t { file = some t.claims }, waits 0)
    else (restored key (lookup key s.claims) t, persist_failed)

unfoldable pub try_claim : Text → ℕ → CooldownStore → CooldownStore × Claim
unfolding normalize_address lookup next_claim take_claim text_beq
try_claim address now s =
    let key = normalize_address address in
    let next = next_claim (lookup key s.claims) s.cooldown in
    if key == []
    then (s, address_required)
    else if ltb now next
    then (s, waits (next - now))
    else take_claim key now s

unfoldable pub release_claim : Text → CooldownStore → CooldownStore × Bool
unfolding normalize_address erase text_beq
release_claim address s =
    let key = normalize_address address in
    let t = record s { claims = erase key s.claims } in
    if key == []
    then (s, false)
    else if s.writable
    then (record t { file = some t.claims }, true)
    else (t, false)

-- What `os.ReadFile` and `json.Unmarshal` find at the store's path.
pub data Saved : Type 0 where
  missing unreadable unparsable : Saved
  payload : Dict ℤ → Saved

abbrev pub default_cooldown : ℕ
default_cooldown = 86400000000000

abbrev pub interval : ℤ → ℕ
interval (pos n) = if ltb 0 n then n else default_cooldown
interval (negsuc n) = default_cooldown

-- `NewCooldownStore`, where the directory can be made; `none` is its error.
unfoldable pub new_cooldown_store : ℤ → Saved → Bool → Option CooldownStore
new_cooldown_store cooldown missing w =
    some (record { cooldown = interval cooldown; claims = []; file = none; writable = w })
new_cooldown_store cooldown unreadable w = none
new_cooldown_store cooldown unparsable w = none
new_cooldown_store cooldown (payload d) w =
    some (record { cooldown = interval cooldown; claims = d; file = some d; writable = w })

-- `RecordClaim`; the flag is true where it returns no error.
unfoldable pub record_claim : Text → ℕ → CooldownStore → CooldownStore × Bool
unfolding normalize_address insert text_beq
record_claim address now s =
    let key = normalize_address address in
    let t = put_claim key now s in
    if key == []
    then (s, false)
    else if s.writable
    then (record t { file = some t.claims }, true)
    else (t, false)
