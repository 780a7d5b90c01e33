-- ===== src/Contacts/Responses.antt =====
-- `Store` of internal/contacteconomy/store.go: the answer to a request, its settlement, and what is due.
use platarium_gateway_go.Common.{
  Bool, not, ◌&&◌, ◌||◌, Option, none, some, List, [], ◌∷◌, if◌then◌else◌, ◌==◌, nat_eq,
}
use platarium_gateway_go.Common.Int.{ℤ, ltb_ℤ, int_eq}
use platarium_gateway_go.Common.Text.{
  Text, text, text_eq, text_beq, trim_space, equal_fold, has_prefix, trim_prefix,
}
use platarium_gateway_go.Common.Dict.{Dict, lookup, insert, map_values}
use platarium_gateway_go.Contacts.Types.{
  ContactRequest, ProtocolContactPair, Store, Error, Result, err, status_pending,
  status_established, status_rejected, status_expired, outcome_accepted, outcome_timeout,
  outcome_rejected, signature_required, bad_signature, owner_mismatch, not_found, not_pending,
  not_receiver, expired, bad_outcome,
}
use platarium_gateway_go.Contacts.Store.{normalize, pair_key, persist_locked, persisted}
use platarium_gateway_go.Contacts.Requests.{put_contact, put_request}

-- The checks of `Respond` on the signature, which read no state.
unfoldable pub bad_proof : Text → Text → Option Error
unfolding trim_space has_prefix trim_prefix normalize equal_fold text_beq
bad_proof actor signature =
    if trim_space signature == []
    then some signature_required
    else if has_prefix signature (text "sig-") && not (has_prefix signature (text "sig-core:"))
    then some bad_signature
    else if has_prefix signature (text "owned:")
        && (normalize (trim_prefix signature (text "owned:")) == []
            || not (equal_fold (normalize (trim_prefix signature (text "owned:"))) actor))
    then some owner_mismatch
    else none

abbrev pub timed_out : ContactRequest → ContactRequest
timed_out r = record r { status = status_expired; settle_outcome = outcome_timeout }

abbrev pub accepted : ContactRequest → ContactRequest
accepted r = record r { status = status_established; settle_outcome = outcome_accepted }

abbrev pub rejected : ContactRequest → ContactRequest
rejected r = record r { status = status_rejected; settle_outcome = outcome_rejected }

abbrev pub contact_of : ℤ → ContactRequest → ProtocolContactPair
contact_of now r = record {
  a = r.sender;
  b = r.receiver;
  established = now;
  request_id = r.request_id;
}

-- The switch of `Respond` and what follows it.
unfoldable pub settle : ℤ → Text → Text → ContactRequest → Store → Store × Result ContactRequest
unfolding pair_key insert persisted text_beq
settle now id outcome r s =
    if outcome == outcome_accepted
    then persisted (accepted r) (
        put_request id (accepted r)
          (put_contact (pair_key r.sender r.receiver) (contact_of now r) s))
    else if outcome == outcome_rejected
    then persisted (rejected r) (put_request id (rejected r) s)
    else (s, err bad_outcome)

-- `Respond` once the request is found.
unfoldable pub answer :
    ℤ → Text → Text → Text → ContactRequest → Store → Store × Result ContactRequest
unfolding settle insert persist_locked equal_fold text_beq
answer now id actor outcome r s =
    if not (r.status == status_pending)
    then (s, err not_pending)
    else if not (equal_fold r.receiver actor)
    then (s, err not_receiver)
    else if ltb_ℤ r.expires_at now
    then ((persist_locked (put_request id (timed_out r) s)).0, err expired)
    else settle now id outcome r s

-- `Respond`; where the request has expired, the source returns it beside the error.
unfoldable pub respond : ℤ → Text → Text → Text → Text → Store → Store × Result ContactRequest
unfolding normalize bad_proof answer lookup
respond now id raw_actor outcome signature s =
    let actor = normalize raw_actor in
    elim (bad_proof actor signature) [
      | some e ↦ (s, err e)
      | none ↦ elim (lookup id s.data_of.requests) [
        | none ↦ (s, err not_found)
        | some r ↦ answer now id actor outcome r s
      ]
    ]

unfoldable pub mark_settled : Text → Text → Store → Store × Result (Unit {0})
unfolding lookup insert persisted
mark_settled id tx s = elim (lookup id s.data_of.requests) [
  | none ↦ (s, err not_found)
  | some r ↦ persisted tt (put_request id (record r { settle_tx_hash = tx }) s)
]

abbrev pub is_due : ℤ → ContactRequest → Bool
is_due now r = r.status == status_pending && ltb_ℤ r.expires_at now

-- The body of the loop of `ExpireDue`, on the store and on the list that it returns.
unfoldable pub expire_one : ℤ → ContactRequest → ContactRequest
unfolding text_beq
expire_one now r = if is_due now r then timed_out r else r

unfoldable pub due_of : ℤ → Dict ContactRequest → List ContactRequest
unfolding text_beq
due_of now [] = []
due_of now ((id, r) ∷ d) =
    let rest = due_of now d in if is_due now r then timed_out r ∷ rest else rest

unfoldable pub expire_due : ℤ → Store → Store × List ContactRequest
unfolding expire_one due_of map_values persist_locked
expire_due now s =
    let out = due_of now s.data_of.requests in
    let s' = record s {
      data_of = record (s.data_of) { requests = map_values (expire_one now) s.data_of.requests };
    } in
    (elim out [ [] ↦ s' | x ∷ xs ↦ (persist_locked s').0 ], out)
