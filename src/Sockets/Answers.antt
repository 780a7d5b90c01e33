-- ===== src/Sockets/Answers.antt =====
-- The answer to a contact request over a session (`applyContactRespondWS` of
-- internal/websocket/messaging.go). The two parties are told of it elsewhere.
use platarium_gateway_go.Common.{Option, none, some, [], if◌then◌else◌, ◌==◌}
use platarium_gateway_go.Common.Int.{ℤ}
use platarium_gateway_go.Common.Text.{Text, text_eq, text_beq, trim_space}
use platarium_gateway_go.Contacts.Types.{
  ContactRequest, Store, Result, ok, err, Error, outcome_accepted,
}
use platarium_gateway_go.Contacts.Store.{add_xp}
use platarium_gateway_go.Contacts.Responses.{respond}
use platarium_gateway_go.Protocol.Ownership.{
  Ownership, granted, refused, OwnershipError, resolve_authenticated_owner,
  reject_client_owned_proof, mint_owned_proof,
}
use platarium_gateway_go.Protocol.Escrow.{SettleIntent, contact_settle_from_request}
use platarium_gateway_go.Sockets.Types.{Client, Server}
use platarium_gateway_go.Sockets.Sessions.{authenticated_owner, text_else}

-- The fields of a "contactRespond" message that it reads.
pub record ContactRespond : Type 0 where
  pub request_id : Text
  pub outcome : Text
  pub actor : Text
  pub signature : Text

pub data Prepared : Type 0 where
  prepared : Text → Text → Prepared
  unprepared : OwnershipError → Prepared

abbrev pub prepared_by : Text → Ownership → Prepared
prepared_by verified (granted proof) = prepared verified proof
prepared_by verified (refused e) = unprepared e

-- A client gives a signature that is no marker, or the gateway makes the marker.
abbrev pub prepared_with : Text → Text → Option OwnershipError → Prepared
prepared_with verified signature (some e) = unprepared e
prepared_with verified signature none =
    if trim_space signature == []
    then prepared_by verified (mint_owned_proof verified)
    else prepared verified signature

abbrev pub prepared_for : Text → Ownership → Prepared
prepared_for signature (refused e) = unprepared e
prepared_for signature (granted verified) =
    prepared_with verified signature (reject_client_owned_proof signature)

unfoldable pub prepare_contact_respond_ownership : Client → ContactRespond → Prepared
unfolding authenticated_owner resolve_authenticated_owner reject_client_owned_proof mint_owned_proof
    trim_space text_beq
prepare_contact_respond_ownership client d =
    let auth = authenticated_owner client in
    prepared_for d.signature (resolve_authenticated_owner (text_else d.actor auth) auth)

pub data Answer : Type 0 where
  no_economy : Answer
  not_owner : OwnershipError → Answer
  not_answered : Error → Answer
  answered : ContactRequest → SettleIntent → Answer

-- The points that an acceptance gives.
unfoldable pub credited : Text → Text → ContactRequest → Store → Store
unfolding add_xp text_beq
credited verified outcome r ce =
    if outcome == outcome_accepted then add_xp r.sender 10 (add_xp verified 25 ce) else ce

abbrev pub after_respond :
    (Text → Text) → Text → Text → Store × Result ContactRequest → Option Store × Answer
after_respond request_id_hash verified outcome (ce, err e) = (some ce, not_answered e)
after_respond request_id_hash verified outcome (ce, ok r) = (
  some (credited verified outcome r ce),
  answered r (contact_settle_from_request request_id_hash r []),
)

abbrev pub respond_as :
    (Text → Text) → ℤ → ContactRespond → Store → Prepared → Option Store × Answer
respond_as request_id_hash now d ce (unprepared e) = (some ce, not_owner e)
respond_as request_id_hash now d ce (prepared verified signature) =
    after_respond request_id_hash verified d.outcome
      (respond now d.request_id verified d.outcome signature ce)

-- `applyContactRespondWS` of the client with the ID `id`.
unfoldable pub apply_contact_respond :
    (Text → Text) → ℤ → Text → ContactRespond → Server → Option Store → Option Store × Answer
unfolding prepare_contact_respond_ownership respond credited contact_settle_from_request
apply_contact_respond request_id_hash now id d s none = (none, no_economy)
apply_contact_respond request_id_hash now id d s (some ce) =
    respond_as request_id_hash now d ce (prepare_contact_respond_ownership (s.objects id) d)
