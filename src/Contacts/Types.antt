-- ===== src/Contacts/Types.antt =====
-- The data of internal/contacteconomy/store.go: its configuration, requests, contacts, prices and
-- reputations, and the state of a `Store`. What `persistLocked` leaves in the file is a field of the
-- state: the payload itself, since its JSON form holds the same fields.
use platarium_gateway_go.Common.{ℕ, Bool, Option}
use platarium_gateway_go.Common.Int.{ℤ}
use platarium_gateway_go.Common.Text.{Text, text}
use platarium_gateway_go.Common.Dict.{Dict}

abbrev pub status_pending : Text
status_pending = text "pending"

abbrev pub status_established : Text
status_established = text "established"

abbrev pub status_rejected : Text
status_rejected = text "rejected"

abbrev pub status_expired : Text
status_expired = text "expired"

abbrev pub outcome_accepted : Text
outcome_accepted = text "accepted"

abbrev pub outcome_timeout : Text
outcome_timeout = text "timeout"

abbrev pub outcome_rejected : Text
outcome_rejected = text "rejected"

pub record Config : Type 0 where
  pub enabled : Bool
  pub min_fee_uplp : ℕ
  pub max_fee_uplp : ℕ
  pub default_unknown_uplp : ℕ
  pub default_verified_uplp : ℕ
  pub timeout_secs : ℤ
  pub base_pending_limit : ℤ
  pub economy_gate_dms : Bool

pub record PricingAnnounce : Type 0 where
  pub address : Text
  pub unknown_fee_uplp : ℕ
  pub verified_fee_uplp : ℕ
  pub blocked : Bool
  pub signature : Text
  pub updated_at : ℤ

pub record ContactRequest : Type 0 where
  pub request_id : Text
  pub request_id_hash : Text
  pub sender : Text
  pub receiver : Text
  pub sender_pub_key : Text
  pub receiver_pub_key : Text
  pub encrypted_payload : Text
  pub timestamp : ℤ
  pub expires_at : ℤ
  pub lock_tx_hash : Text
  pub amount_uplp : ℕ
  pub status : Text
  pub settle_outcome : Text
  pub settle_tx_hash : Text

pub record ProtocolContactPair : Type 0 where
  pub a : Text
  pub b : Text
  pub established : ℤ
  pub request_id : Text

pub record Reputation : Type 0 where
  pub address : Text
  pub xp : ℕ

pub record FilePayload : Type 0 where
  pub requests : Dict ContactRequest
  pub contacts : Dict ProtocolContactPair
  pub pricing : Dict PricingAnnounce
  pub xp : Dict Reputation

-- `file` is the payload at the store's path, and `writable` says whether `persistLocked` succeeds.
pub record Store : Type 0 where
  pub cfg : Config
  pub data_of : FilePayload
  pub file : Option FilePayload
  pub writable : Bool

pub data Error : Type 0 where
  address_required disabled ids_required lock_required placeholder_lock lock_too_short
        payload_too_large amount_required receiver_blocked already_contacts limit_exceeded
        duplicate_request lock_used pair_pending signature_required bad_signature owner_mismatch
        not_found not_pending not_receiver expired bad_outcome persist_failed parse_failed :
      Error

-- A method's result; `expired` of `Respond` comes with the request.
pub data Result (A : Type 0) : Type 0 where
  ok : A → Result A
  err : Error → Result A
