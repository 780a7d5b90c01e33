-- ===== src/Contacts/Tests.antt =====
-- Runs of package contacteconomy (internal/contacteconomy) on concrete stores, and instances of its
-- theorems. A toy digest stands in for SHA-256.
use platarium_gateway_go.Common.{◌≤◌, ◌≡◌, refl, true, false, none, some, List, [], ◌∷◌, arith}
use platarium_gateway_go.Common.Int.{pos, ◌≤ℤ◌}
use platarium_gateway_go.Common.Text.{text, to_lower}
use platarium_gateway_go.Common.Dict.{lookup, lookup-nil_ne}
use platarium_gateway_go.Deals.Panel.{hex}
use platarium_gateway_go.Deals.Digest.{toy, toy_from}
use platarium_gateway_go.Contacts.Types.{
  Config, ContactRequest, ProtocolContactPair, PricingAnnounce, Store, ok, outcome_accepted,
  status_pending,
}
use platarium_gateway_go.Contacts.Store.{
  empty_payload, set_pricing, get_pricing, has_protocol_contact, pending_outbound_count,
  pending_limit, normalize, clamp_fee,
}
use platarium_gateway_go.Contacts.Requests.{create_request, admit_request, file_request}
use platarium_gateway_go.Contacts.Responses.{respond, expire_due, bad_proof, settle, answer}
use platarium_gateway_go.Contacts.Step.{
  Action, files, responds, expires, marks, act, run, AllAdmitted,
}
use platarium_gateway_go.Contacts.Split.{split_bps}
use platarium_gateway_go.Contacts.Settlement.{total, split_bps-conserves}
use platarium_gateway_go.Contacts.Invariant.{StoreInv, run-StoreInv}
use platarium_gateway_go.Contacts.Carried.{Kept}
use platarium_gateway_go.Contacts.Keeping.{run-Kept_requests}
use platarium_gateway_go.Contacts.Consent.{Acceptance, act-consent}
use platarium_gateway_go.Contacts.Admission.{create_request-admits}
use platarium_gateway_go.Contacts.Prices.{set_pricing-get_pricing}

-- `ConfigFromEnv` without any variable set.
abbrev defaults : Config
defaults = record {
  enabled = true;
  min_fee_uplp = 10000;
  max_fee_uplp = 100000000;
  default_unknown_uplp = 1000000;
  default_verified_uplp = 100000;
  timeout_secs = pos 2592000;
  base_pending_limit = pos 5;
  economy_gate_dms = true;
}

abbrev empty : Store
empty = record {
  cfg = defaults;
  data_of = empty_payload;
  file = some empty_payload;
  writable = true;
}

abbrev raw : ContactRequest
raw = record {
  request_id = text "r1";
  request_id_hash = [];
  sender = text " Alice ";
  receiver = text "bob";
  sender_pub_key = [];
  receiver_pub_key = [];
  encrypted_payload = text "x";
  timestamp = pos 0;
  expires_at = pos 0;
  lock_tx_hash = text "0123456789abcdef0123456789abcdef";
  amount_uplp = 20000;
  status = [];
  settle_outcome = [];
  settle_tx_hash = [];
}

-- `unfolding running` opens what a run computes with.
abbrev running : Unit {0}
unfolding toy toy_from hex create_request admit_request file_request respond answer settle bad_proof
    expire_due run act
running = tt

abbrev created : (r : ContactRequest) × ((create_request toy (pos 100) raw empty).1 ≡ ok r)
unfolding running
created = (_, refl)

create_request-admits_example :
    let r = created.0 in
    let s' = (create_request toy (pos 100) raw empty).0 in
    (lookup r.request_id s'.data_of.requests ≡ some r)
    × (r.status ≡ status_pending)
    × ((get_pricing r.receiver empty).blocked ≡ false)
    × (has_protocol_contact r.sender r.receiver empty ≡ false)
    × (pos (pending_outbound_count r.sender s') ≤ℤ pending_limit r.sender empty)
create_request-admits_example = create_request-admits toy (pos 100) raw created.0 empty created.1

abbrev actions : List Action
actions =
    files created.0
    ∷ responds (pos 200) (text "r1") (text "BOB") outcome_accepted (text "owned:bob")
    ∷ marks (text "r1") (text "tx")
    ∷ expires (pos 9999999)
    ∷ []

actions-AllAdmitted : AllAdmitted actions
unfolding running
actions-AllAdmitted = (refl, (tt, (tt, (tt, tt))))

empty-StoreInv : StoreInv empty.data_of
empty-StoreInv = (
  record {
    keyed = λ id r m. absurd (lookup-nil_ne id r m);
    live = λ id r m. absurd (lookup-nil_ne id r m);
    locks = λ i j q r m n e. absurd (lookup-nil_ne i q m);
    pairs = λ i j q r m n a b e f. absurd (lookup-nil_ne i q m);
  },
  record {
    consent = λ k p m. absurd (lookup-nil_ne k p m);
    met = λ id r m e. absurd (lookup-nil_ne id r m);
  },
)

run-StoreInv_example : StoreInv (run actions empty).data_of
run-StoreInv_example = run-StoreInv actions empty actions-AllAdmitted empty-StoreInv

run-Kept_requests_example : Kept empty.data_of.requests (run actions empty).data_of.requests
run-Kept_requests_example = run-Kept_requests actions empty actions-AllAdmitted

-- The store with the request, before it is answered.
abbrev asked : Store
asked = act (files created.0) empty

abbrev acceptance : Action
acceptance = responds (pos 200) (text "r1") (text "BOB") outcome_accepted (text "owned:bob")

abbrev met :
    (p : ProtocolContactPair) × (lookup (text "alice|bob") (act acceptance asked).data_of.contacts
      ≡ some p)
unfolding running
met = (_, refl)

not_met : lookup (text "alice|bob") asked.data_of.contacts ≡ none
unfolding running
not_met = refl

act-consent_example : Acceptance acceptance asked (text "alice|bob")
act-consent_example = act-consent acceptance asked (text "alice|bob") met.0 not_met met.1

abbrev schedule : PricingAnnounce
schedule = record {
  address = text "Bob ";
  unknown_fee_uplp = 1;
  verified_fee_uplp = 50000;
  blocked = false;
  signature = [];
  updated_at = pos 0;
}

abbrev priced : (q : PricingAnnounce) × ((set_pricing (pos 7) schedule empty).1 ≡ ok q)
unfolding running set_pricing clamp_fee
priced = (_, refl)

same_address : to_lower (normalize (text "bOB")) ≡ to_lower (normalize schedule.address)
unfolding running set_pricing
same_address = refl

set_pricing-get_pricing_example :
    (get_pricing (text "bOB") (set_pricing (pos 7) schedule empty).0 ≡ priced.0)
    × (10000 ≤ priced.0.unknown_fee_uplp)
    × (priced.0.unknown_fee_uplp ≤ 100000000)
    × (10000 ≤ priced.0.verified_fee_uplp)
    × (priced.0.verified_fee_uplp ≤ 100000000)
set_pricing-get_pricing_example =
    set_pricing-get_pricing (pos 7) schedule priced.0 empty (text "bOB") (omega arith) priced.1
      same_address

split_bps-conserves_example :
    total (split_bps 18446744073709551615 outcome_accepted) ≡ 18446744073709551615
split_bps-conserves_example =
    split_bps-conserves 18446744073709551615 outcome_accepted (omega arith)
