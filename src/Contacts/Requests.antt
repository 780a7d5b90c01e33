-- ===== src/Contacts/Requests.antt =====
-- `CreateRequest` of `Store` in internal/contacteconomy/store.go, and what reads the requests.
-- SHA-256 is a parameter.
use platarium_gateway_go.Common.{
  ◌*◌, Bool, false, not, ◌&&◌, ◌||◌, Option, none, some, List, [], ◌∷◌, ltb, if◌then◌else◌, ◌==◌,
  nat_eq, length,
}
use platarium_gateway_go.Common.Int.{ℤ, pos, add64, ltb_ℤ, leb_ℤ, int_eq}
use platarium_gateway_go.Common.Text.{
  Text, text, text_eq, text_beq, trim_space, to_lower, equal_fold, has_prefix,
}
use platarium_gateway_go.Common.Dict.{Dict, lookup, has_key, insert}
use platarium_gateway_go.Deals.Panel.{Sha256, hex}
use platarium_gateway_go.Contacts.Types.{
  Config, ContactRequest, ProtocolContactPair, Store, Error, Result, ok, err, status_pending,
  disabled, ids_required, lock_required, placeholder_lock, lock_too_short, payload_too_large,
  amount_required, receiver_blocked, already_contacts, limit_exceeded, duplicate_request, lock_used,
  pair_pending,
}
use platarium_gateway_go.Contacts.Store.{
  normalize, persisted, get_pricing, has_protocol_contact, pending_outbound_count, pending_limit,
}

abbrev pub put_request : Text → ContactRequest → Store → Store
put_request id r s = record s {
  data_of = record (s.data_of) { requests = insert id r s.data_of.requests };
}

abbrev pub put_contact : Text → ProtocolContactPair → Store → Store
put_contact k p s = record s {
  data_of = record (s.data_of) { contacts = insert k p s.data_of.contacts };
}

-- The first checks of `CreateRequest`, which read the request alone.
unfoldable pub malformed : ContactRequest → Option Error
unfolding has_prefix to_lower text_beq
malformed r =
    if r.request_id == [] || r.sender == [] || r.receiver == []
    then some ids_required
    else if r.lock_tx_hash == [] || r.encrypted_payload == []
    then some lock_required
    else if has_prefix (to_lower r.lock_tx_hash) (text "escrow_lock:")
        || has_prefix (to_lower r.lock_tx_hash) (text "escrow-intent:")
    then some placeholder_lock
    else if ltb (length r.lock_tx_hash) 32
    then some lock_too_short
    else if ltb (64 * 1024) (length r.encrypted_payload)
    then some payload_too_large
    else if r.amount_uplp == 0
    then some amount_required
    else none

-- The checks of `CreateRequest` that read the store before it takes the write lock.
unfoldable pub not_admitted : ContactRequest → Store → Option Error
unfolding get_pricing has_protocol_contact pending_outbound_count pending_limit
not_admitted r s =
    if (get_pricing r.receiver s).blocked
    then some receiver_blocked
    else if has_protocol_contact r.sender r.receiver s
    then some already_contacts
    else if leb_ℤ (pending_limit r.sender s) (pos (pending_outbound_count r.sender s))
    then some limit_exceeded
    else none

-- The request that `CreateRequest` stores.
unfoldable pub stamped : Sha256 → Config → ℤ → ContactRequest → ContactRequest
unfolding hex add64
stamped sha cfg now r =
    let at = if r.timestamp == pos 0 then now else r.timestamp in
    record r {
      request_id_hash = hex (sha.sum r.request_id);
      timestamp = at;
      expires_at = add64 at cfg.timeout_secs;
      status = status_pending;
    }

-- An early return: the error if there is one, and else what follows.
abbrev pub unless : {A : Type 0} → Option Error → Result A → Result A
unless (some e) r = err e
unless none r = r

-- `CreateRequest` up to the write lock: the request to store, or the error.
unfoldable pub admit_request : Sha256 → ℤ → ContactRequest → Store → Result ContactRequest
unfolding normalize malformed not_admitted stamped
admit_request sha now raw s =
    let r = record raw { sender = normalize raw.sender; receiver = normalize raw.receiver } in
    if not s.cfg.enabled
    then err disabled
    else unless (malformed r) (unless (not_admitted r s) (ok (stamped sha s.cfg now r)))

-- The loop over the requests that compares the lock.
unfoldable pub lock_taken : Text → Dict ContactRequest → Bool
unfolding text_beq
lock_taken h [] = false
lock_taken h ((id, r) ∷ d) = r.lock_tx_hash == h || lock_taken h d

-- The loop over the requests that compares sender and receiver.
unfoldable pub pair_taken : Text → Text → Dict ContactRequest → Bool
unfolding equal_fold text_beq
pair_taken from to [] = false
pair_taken from to ((id, r) ∷ d) =
    (r.status == status_pending && equal_fold r.sender from && equal_fold r.receiver to)
    || pair_taken from to d

-- `CreateRequest` under the write lock.
unfoldable pub file_request : ContactRequest → Store → Store × Result ContactRequest
unfolding has_key lock_taken pair_taken insert persisted
file_request r s =
    if has_key r.request_id s.data_of.requests
    then (s, err duplicate_request)
    else if lock_taken r.lock_tx_hash s.data_of.requests
    then (s, err lock_used)
    else if pair_taken r.sender r.receiver s.data_of.requests
    then (s, err pair_pending)
    else persisted r (put_request r.request_id r s)

-- `CreateRequest`, where no other call runs between its two parts.
unfoldable pub create_request : Sha256 → ℤ → ContactRequest → Store → Store × Result ContactRequest
unfolding admit_request file_request
create_request sha now raw s = elim (admit_request sha now raw s) [
  | err e ↦ (s, err e)
  | ok r ↦ file_request r s
]

abbrev pub get_request : Text → Store → Option ContactRequest
get_request id s = lookup id s.data_of.requests

-- The loop of `FindByEscrowID`.
unfoldable pub find_escrow : Text → Dict ContactRequest → Option ContactRequest
unfolding equal_fold text_beq
find_escrow id [] = none
find_escrow id ((k, r) ∷ d) =
    let rest = find_escrow id d in
    if r.request_id_hash == id || equal_fold r.request_id_hash id then some r else rest

unfoldable pub find_by_escrow_id : Text → Store → Option ContactRequest
unfolding trim_space find_escrow text_beq
find_by_escrow_id escrow_id s =
    let id = trim_space escrow_id in if id == [] then none else find_escrow id s.data_of.requests

-- sort.Slice by `Timestamp`, by insertion.
insert_by_time : ContactRequest → List ContactRequest → List ContactRequest
insert_by_time r [] = r ∷ []
insert_by_time r (q ∷ rs) =
    if ltb_ℤ q.timestamp r.timestamp then q ∷ insert_by_time r rs else r ∷ q ∷ rs

-- The loop of `ListPendingFor`.
pending_from : Text → Dict ContactRequest → List ContactRequest
unfolding insert_by_time equal_fold text_beq
pending_from addr [] = []
pending_from addr ((id, r) ∷ d) =
    let rest = pending_from addr d in
    if r.status == status_pending && (equal_fold r.receiver addr || equal_fold r.sender addr)
    then insert_by_time r rest
    else rest

unfoldable pub list_pending_for : Text → Store → List ContactRequest
unfolding normalize pending_from
list_pending_for address s = pending_from (normalize address) s.data_of.requests
