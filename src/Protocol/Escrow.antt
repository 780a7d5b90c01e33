-- ===== src/Protocol/Escrow.antt =====
-- internal/escrow, and the intents and the status that internal/protocol/contact.go builds on it. The
-- hash of a request's id is a parameter.
use platarium_gateway_go.Common.{ℕ, Bool, ◌||◌, [], if◌then◌else◌, ◌==◌}
use platarium_gateway_go.Common.Int.{ℤ}
use platarium_gateway_go.Common.Text.{Text, text, text_eq, text_beq, trim_space}
use platarium_gateway_go.Contacts.Types.{
  ContactRequest, status_established, status_rejected, status_expired, outcome_timeout,
}

abbrev pub purpose_contact : Text
purpose_contact = text "contact"

abbrev pub outcome_accept : Text
outcome_accept = text "accept"

abbrev pub outcome_reject : Text
outcome_reject = text "reject"

abbrev pub outcome_cancel : Text
outcome_cancel = text "cancel"

pub record Status : Type 0 where
  pub escrow_id : Text
  pub purpose : Text
  pub creator : Text
  pub beneficiary : Text
  pub amount_uplp : ℕ
  pub asset : Text
  pub status : Text
  pub lock_tx_hash : Text
  pub settle_tx_hash : Text
  pub expires_at : ℤ
  pub outcome_key : Text

pub record SettleIntent : Type 0 where
  pub tx_kind : Text
  pub escrow_id : Text
  pub purpose : Text
  pub outcome_key : Text
  pub amount_uplp : ℕ
  pub beneficiary : Text
  pub creator : Text
  pub suggested_node : Text
  pub lock_tx_hash : Text

pub record LockPayload : Type 0 where
  pub tx_kind : Text
  pub escrow_id : Text
  pub creator : Text
  pub beneficiary : Text
  pub amount : ℕ
  pub purpose : Text
  pub rules_hash : Text
  pub expires_at : ℤ
  pub nonce : ℕ

unfoldable pub default_purpose : Text → Text
unfolding trim_space text_beq
default_purpose purpose = if trim_space purpose == [] then purpose_contact else purpose

unfoldable pub map_protocol_outcome : Text → Text
unfolding text_beq
map_protocol_outcome o =
    if o == text "accepted" || o == outcome_accept
    then outcome_accept
    else if o == outcome_timeout
    then outcome_timeout
    else if o == text "rejected" || o == outcome_reject
    then outcome_reject
    else if o == text "cancelled" || (o == text "canceled" || o == outcome_cancel)
    then outcome_cancel
    else []

unfoldable pub is_escrow_tx_kind : Text → Bool
unfolding text_beq
is_escrow_tx_kind t =
    t == text "escrow_lock"
    || (t == text "escrow_settle"
        || (t == text "escrow_refund"
            || (t == text "escrow_cancel"
                || (t == text "contact_escrow_lock" || t == text "contact_escrow_settle"))))

unfoldable pub build_settle_intent :
    Text → Text → Text → ℕ → Text → Text → Text → Text → SettleIntent
unfolding map_protocol_outcome
build_settle_intent escrow_id purpose outcome amount creator beneficiary lock_tx_hash node_hint =
    record {
      tx_kind = text "escrow_settle";
      escrow_id = escrow_id;
      purpose = purpose;
      outcome_key = map_protocol_outcome outcome;
      amount_uplp = amount;
      beneficiary = beneficiary;
      creator = creator;
      suggested_node = node_hint;
      lock_tx_hash = lock_tx_hash;
    }

unfoldable pub build_lock_payload : Text → Text → Text → Text → Text → ℕ → ℤ → ℕ → LockPayload
unfolding default_purpose
build_lock_payload escrow_id creator beneficiary purpose rules_hash amount expires_at nonce =
    record {
      tx_kind = text "escrow_lock";
      escrow_id = escrow_id;
      creator = creator;
      beneficiary = beneficiary;
      amount = amount;
      purpose = default_purpose purpose;
      rules_hash = rules_hash;
      expires_at = expires_at;
      nonce = nonce;
    }

abbrev pub first_given : Text → Text → Text
first_given t d = if t == [] then d else t

unfoldable pub contact_settle_from_request : (Text → Text) → ContactRequest → Text → SettleIntent
unfolding build_settle_intent text_beq
contact_settle_from_request request_id_hash r node_hint =
    build_settle_intent (first_given r.request_id_hash (request_id_hash r.request_id))
      purpose_contact (first_given r.settle_outcome outcome_timeout) r.amount_uplp r.sender
      r.receiver r.lock_tx_hash node_hint

unfoldable pub contact_lock_payload : Text → Text → Text → ℕ → ℤ → ℕ → LockPayload
unfolding build_lock_payload
contact_lock_payload escrow_id creator beneficiary amount expires_at nonce =
    build_lock_payload escrow_id creator beneficiary purpose_contact [] amount expires_at nonce

-- The switch of `StatusFromContactRequest`.
unfoldable pub status_name : Text → Text
unfolding text_beq
status_name s =
    if s == status_established
    then text "RELEASED"
    else if s == status_rejected
    then text "REFUNDED"
    else if s == status_expired
    then text "EXPIRED"
    else text "LOCKED"

unfoldable pub status_from_contact_request : ContactRequest → Status
unfolding status_name map_protocol_outcome
status_from_contact_request r = record {
  escrow_id = r.request_id_hash;
  purpose = purpose_contact;
  creator = r.sender;
  beneficiary = r.receiver;
  amount_uplp = r.amount_uplp;
  asset = text "PLP";
  status = status_name r.status;
  lock_tx_hash = r.lock_tx_hash;
  settle_tx_hash = r.settle_tx_hash;
  expires_at = r.expires_at;
  outcome_key = map_protocol_outcome r.settle_outcome;
}
