-- ===== src/Contacts/Store.antt =====
-- `Store` of internal/contacteconomy/store.go: opening and persisting it, prices, contacts, and
-- reputation. Each method is one step, since it runs under the mutex; `now` is the clock's time.
use platarium_gateway_go.Common.{
  ℕ, ◌+◌, ◌/◌, ◌%◌, ◌^◌, Bool, true, false, not, ◌&&◌, ◌||◌, Option, none, some, [], ◌∷◌, ◌++◌, ltb,
  if◌then◌else◌, ◌==◌, nat_eq, suc,
}
use platarium_gateway_go.Common.Int.{ℤ, pos, add64, ltb_ℤ}
use platarium_gateway_go.Common.Text.{
  Text, text, text_eq, text_beq, text_lt, trim_space, to_lower, equal_fold,
}
use platarium_gateway_go.Common.Dict.{Dict, lookup, has_key, insert}
use platarium_gateway_go.Contacts.Types.{
  Config, PricingAnnounce, ContactRequest, Reputation, FilePayload, Store, Result, ok, err,
  address_required, persist_failed, parse_failed, status_pending,
}

-- What `os.ReadFile` and `json.Unmarshal` find at the store's path.
pub data Stored : Type 0 where
  missing unreadable unparsable : Stored
  payload : FilePayload → Stored

abbrev pub empty_payload : FilePayload
empty_payload = record { requests = []; contacts = []; pricing = []; xp = [] }

-- `NewStore`, where the directory can be made.
unfoldable pub new_store : Config → Stored → Bool → Result Store
new_store cfg missing w =
    ok (record { cfg = cfg; data_of = empty_payload; file = none; writable = w })
new_store cfg unreadable w = err parse_failed
new_store cfg unparsable w = err parse_failed
new_store cfg (payload p) w = ok (record { cfg = cfg; data_of = p; file = some p; writable = w })

unfoldable pub normalize : Text → Text
unfolding trim_space
normalize addr = trim_space addr

unfoldable pub pair_key : Text → Text → Text
unfolding normalize to_lower text_lt
pair_key a b =
    let x = to_lower (normalize a) in
    let y = to_lower (normalize b) in
    if text_lt y x then y ++ (text "|" ++ x) else x ++ (text "|" ++ y)

-- `persistLocked`; the flag is true where it returns no error.
unfoldable pub persist_locked : Store → Store × Bool
persist_locked s = if s.writable then (record s { file = some s.data_of }, true) else (s, false)

-- The end of a method that persists and returns a value or the error.
unfoldable pub persisted : {A : Type 0} → A → Store → Store × Result A
unfolding persist_locked
persisted a s = let (s', fine) = persist_locked s in (s', if fine then ok a else err persist_failed)

unfoldable pub clamp_fee : Config → ℕ → ℕ
clamp_fee cfg uplp =
    if ltb uplp cfg.min_fee_uplp
    then cfg.min_fee_uplp
    else if ltb cfg.max_fee_uplp uplp
    then cfg.max_fee_uplp
    else uplp

-- The schedule that `SetPricing` stores.
unfoldable pub clamped : Config → ℤ → Text → PricingAnnounce → PricingAnnounce
unfolding clamp_fee
clamped cfg now addr p = record p {
  address = addr;
  unknown_fee_uplp = clamp_fee cfg p.unknown_fee_uplp;
  verified_fee_uplp = clamp_fee cfg p.verified_fee_uplp;
  updated_at = now;
}

abbrev pub put_pricing : Text → PricingAnnounce → Store → Store
put_pricing k p s = record s {
  data_of = record (s.data_of) { pricing = insert k p s.data_of.pricing };
}

unfoldable pub set_pricing : ℤ → PricingAnnounce → Store → Store × Result PricingAnnounce
unfolding clamped normalize to_lower persisted insert text_beq
set_pricing now p s =
    let addr = normalize p.address in
    let q = clamped s.cfg now addr p in
    if addr == [] then (s, err address_required) else persisted q (put_pricing (to_lower addr) q s)

unfoldable pub get_pricing : Text → Store → PricingAnnounce
unfolding normalize to_lower lookup
get_pricing address s =
    let addr = normalize address in
    elim (lookup (to_lower addr) s.data_of.pricing) [
      | some p ↦ p
      | none ↦ record {
        address = addr;
        unknown_fee_uplp = s.cfg.default_unknown_uplp;
        verified_fee_uplp = s.cfg.default_verified_uplp;
        blocked = false;
        signature = [];
        updated_at = pos 0;
      }
    ]

unfoldable pub has_protocol_contact : Text → Text → Store → Bool
unfolding pair_key has_key
has_protocol_contact a b s = has_key (pair_key a b) s.data_of.contacts

-- The loop of `PendingOutboundCount`.
unfoldable pub count_pending : Text → Dict ContactRequest → ℕ
unfolding equal_fold text_beq
count_pending sender [] = 0
count_pending sender ((id, r) ∷ d) =
    let n = count_pending sender d in
    if equal_fold r.sender sender && r.status == status_pending then suc n else n

unfoldable pub pending_outbound_count : Text → Store → ℕ
unfolding normalize count_pending
pending_outbound_count sender s = count_pending (normalize sender) s.data_of.requests

unfoldable pub get_xp : Text → Store → ℕ
unfolding normalize to_lower lookup
get_xp address s = elim (lookup (to_lower (normalize address)) s.data_of.xp) [
  | some r ↦ r.xp
  | none ↦ 0
]

unfoldable pub pending_limit : Text → Store → ℤ
unfolding get_xp add64
pending_limit address s =
    let lim = add64 s.cfg.base_pending_limit (pos (get_xp address s / 100)) in
    if ltb_ℤ (pos 50) lim then pos 50 else lim

-- `s.data.XP[addr]`, the zero value for a missing key.
abbrev pub reputation_or_zero : Option Reputation → Reputation
reputation_or_zero (some r) = r
reputation_or_zero none = record { address = []; xp = 0 }

unfoldable pub add_xp : Text → ℕ → Store → Store
unfolding normalize to_lower lookup insert persist_locked text_beq
add_xp address delta s =
    let addr = to_lower (normalize address) in
    let r = reputation_or_zero (lookup addr s.data_of.xp) in
    let r' : Reputation = record { address = normalize address; xp = (r.xp + delta) % 2 ^ 64 } in
    if addr == [] || delta == 0
    then s
    else (persist_locked
        (record s { data_of = record (s.data_of) { xp = insert addr r' s.data_of.xp } })).0

unfoldable pub can_send_free_dm : Text → Text → Store → Bool
unfolding equal_fold normalize has_protocol_contact
can_send_free_dm from to s =
    if not s.cfg.enabled || not s.cfg.economy_gate_dms
    then true
    else if equal_fold (normalize from) (normalize to)
    then true
    else has_protocol_contact from to s
