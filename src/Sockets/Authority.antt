-- ===== src/Sockets/Authority.antt =====
-- By whose authority contact requests are answered over sessions (internal/websocket/messaging.go).
use platarium_gateway_go.Common.{
  ◌≡◌, ◌≢◌, refl, sym, ◌∙◌, ap, subst, ◌⊎◌, inl, inr, true, false, Option, none, some, [],
  Bool-cases,
}
use platarium_gateway_go.Common.Int.{ℤ}
use platarium_gateway_go.Common.Text.{
  Text, text_eq, text_beq, text_beq_iff, text_beq-ne, trim_space,
}
use platarium_gateway_go.Common.Trimming.{trim_space-trim_space}
use platarium_gateway_go.Contacts.Types.{
  ContactRequest, Store, Result, ok, err, outcome_accepted, outcome_rejected,
}
use platarium_gateway_go.Contacts.Store.{normalize}
use platarium_gateway_go.Contacts.Responses.{respond}
use platarium_gateway_go.Contacts.Answered.{Answerable, IsVerdict, respond-cases}
use platarium_gateway_go.Protocol.Ownership.{
  Ownership, granted, refused, OwnershipError, resolve_authenticated_owner,
  reject_client_owned_proof, mint_owned_proof,
}
use platarium_gateway_go.Protocol.Minting.{Proven, resolve-granted}
use platarium_gateway_go.Protocol.Escrow.{
  SettleIntent, contact_settle_from_request, outcome_accept, outcome_reject, first_given,
  purpose_contact,
}
use platarium_gateway_go.Sockets.Types.{Client, Server}
use platarium_gateway_go.Sockets.Sessions.{Prover, authenticated_owner, text_else}
use platarium_gateway_go.Sockets.Steps.{Reach, IsProven, Any}
use platarium_gateway_go.Sockets.Owned.{reachable-OwnerInv}
use platarium_gateway_go.Sockets.Answers.{
  ContactRespond, Prepared, prepared, unprepared, prepared_by, prepared_with, prepared_for,
  prepare_contact_respond_ownership, Answer, answered, not_answered, not_owner, no_economy,
  after_respond, respond_as, apply_contact_respond,
}

prepared_inj : {v s w p : Text} → prepared v s ≡ prepared w p → w ≡ v
prepared_inj e = cc

prepared_by-verified :
    (verified : Text) (o : Ownership) {w p : Text}
    → prepared_by verified o ≡ prepared w p
    → w ≡ verified
prepared_by-verified verified (granted proof) e = prepared_inj e
prepared_by-verified verified (refused x) e = cc

prepared_with-verified :
    (verified signature : Text) (o : Option OwnershipError) {w p : Text}
    → prepared_with verified signature o ≡ prepared w p
    → w ≡ verified
prepared_with-verified verified signature (some x) e = cc
prepared_with-verified verified signature none e =
    elim (Bool-cases (text_beq (trim_space signature) [])) [
      | inl f ↦ prepared_by-verified verified (mint_owned_proof verified) (rw f at e)
      | inr f ↦ prepared_inj (rw f at e)
    ]

prepared_for-verified :
    (signature : Text) (o : Ownership) {w p : Text}
    → prepared_for signature o ≡ prepared w p
    → o ≡ granted w
prepared_for-verified signature (refused x) e = cc
prepared_for-verified signature (granted verified) e =
    ap granted
      (sym (prepared_with-verified verified signature (reject_client_owned_proof signature) e))

-- Only a client whose session is authenticated is prepared, and for its own address.
prepare-authenticated :
    (client : Client) (d : ContactRespond) {w p : Text}
    → prepare_contact_respond_ownership client d ≡ prepared w p
    → (client.authenticated ≡ true) × (w ≡ trim_space client.address)
unfolding prepare_contact_respond_ownership authenticated_owner trim_space
prepare-authenticated client d {w} e = elim (Bool-cases client.authenticated) [
  | inl t ↦ (t, known.1 ∙ ap trim_space (mine t))
  | inr t ↦ absurd (known.0.not_empty (ap trim_space (nobody t)))
]
  where
    auth : Text
    auth = authenticated_owner client

    known : Proven (text_else d.actor auth) auth × (w ≡ trim_space auth)
    known = resolve-granted (text_else d.actor auth) auth w (
        prepared_for-verified d.signature
          (resolve_authenticated_owner (text_else d.actor auth) auth) e)

    mine : client.authenticated ≡ true → auth ≡ client.address
    mine t = rw t refl

    nobody : client.authenticated ≡ false → auth ≡ []
    nobody t = rw t refl

-- The answer settles nothing.
abbrev pub IsRefusal : Answer → Type 0
IsRefusal (answered r intent) = ⊥
IsRefusal no_economy = Unit {0}
IsRefusal (not_owner e) = Unit {0}
IsRefusal (not_answered e) = Unit {0}

-- The escrow of a request is named by the hash that it carries, or where it carries none by that of its
-- id.
abbrev pub IsEscrow : (Text → Text) → ContactRequest → Text → Type 0
IsEscrow hash q id =
    ((q.request_id_hash ≢ []) × (id ≡ q.request_id_hash))
    ⊎ ((q.request_id_hash ≡ []) × (id ≡ hash q.request_id))

first_given-IsEscrow :
    (hash : Text → Text) (q : ContactRequest) (id : Text)
    → id ≡ first_given q.request_id_hash (hash q.request_id)
    → IsEscrow hash q id
first_given-IsEscrow hash q id e = elim (Bool-cases (text_beq q.request_id_hash [])) [
  | inl f ↦ inr ((text_beq_iff q.request_id_hash []).0 f, rw f at e)
  | inr f ↦ inl (text_beq-ne q.request_id_hash [] f, rw f at e)
]

-- The intent of an answer settles the escrow of the request as was asked.
abbrev pub IsSettled : (Text → Text) → ContactRequest → Text → Answer → Type 0
IsSettled hash q outcome (answered r intent) =
    IsEscrow hash q intent.escrow_id
    × (intent.purpose ≡ purpose_contact)
    × (intent.beneficiary ≡ q.receiver)
    × (intent.creator ≡ q.sender)
    × (intent.amount_uplp ≡ q.amount_uplp)
    × (intent.lock_tx_hash ≡ q.lock_tx_hash)
    × (((outcome ≡ outcome_accepted) × (intent.outcome_key ≡ outcome_accept))
        ⊎ ((outcome ≡ outcome_rejected) × (intent.outcome_key ≡ outcome_reject)))
IsSettled hash q outcome no_economy = Unit
IsSettled hash q outcome (not_owner e) = Unit
IsSettled hash q outcome (not_answered e) = Unit

after_respond-IsSettled :
    (hash : Text → Text) (verified outcome : Text) (q : ContactRequest)
    (r : Store × Result ContactRequest)
    → IsVerdict q outcome r.1
    → IsSettled hash q outcome (after_respond hash verified outcome r).1
unfolding contact_settle_from_request
after_respond-IsSettled hash verified outcome q (ce, err e) v = tt
after_respond-IsSettled hash verified outcome q (ce, ok r) (inl (a, b)) =
    let f = λ (g : SettleIntent → Text). ap (λ t. g (contact_settle_from_request hash t [])) b in
    (
      first_given-IsEscrow hash q _ (f (λ i. i.escrow_id)),
      f (λ i. i.purpose),
      f (λ i. i.beneficiary),
      f (λ i. i.creator),
      ap (λ t. t.amount_uplp) b,
      f (λ i. i.lock_tx_hash),
      inl (a, f (λ i. i.outcome_key)),
    )
after_respond-IsSettled hash verified outcome q (ce, ok r) (inr (a, b)) =
    let f = λ (g : SettleIntent → Text). ap (λ t. g (contact_settle_from_request hash t [])) b in
    (
      first_given-IsEscrow hash q _ (f (λ i. i.escrow_id)),
      f (λ i. i.purpose),
      f (λ i. i.beneficiary),
      f (λ i. i.creator),
      ap (λ t. t.amount_uplp) b,
      f (λ i. i.lock_tx_hash),
      inr (a, f (λ i. i.outcome_key)),
    )

-- In every state of the sessions that the handlers reach, the answer of a client to a contact request is
-- refused and leaves the store as it is, or the prover has accepted credentials for the client's
-- address, which is the receiver of the request, in any letter case, and the request is pending. An
-- answer that is given then settles the escrow that the request's hash names, or the hash of its id where
-- it carries none, for contacts, with its amount and its lock, between its sender and its receiver, as
-- was asked.
pub apply_contact_respond-authority :
    (prove : Option Prover) (hash : Text → Text) (now : ℤ) (id : Text) (d : ContactRespond)
    (s : Server) (ce : Store)
    → Reach prove Any s
    → let r = apply_contact_respond hash now id d s (some ce) in
      let address = (s.objects id).address in
      ((r.0 ≡ some ce) × IsRefusal r.1)
      ⊎ ((q : ContactRequest) × IsProven prove address
          × Answerable d.request_id (trim_space address) ce q
          × IsSettled hash q d.outcome r.1)
unfolding apply_contact_respond normalize
apply_contact_respond-authority prove hash now id d s ce reach =
    by_preparation (prepare_contact_respond_ownership (s.objects id) d) refl
  where
    address : Text
    address = (s.objects id).address

    Conclusion : Option Store × Answer → Type 0
    Conclusion r =
        ((r.0 ≡ some ce) × IsRefusal r.1)
        ⊎ ((q : ContactRequest) × IsProven prove address
            × Answerable d.request_id (trim_space address) ce q
            × IsSettled hash q d.outcome r.1)

    by_preparation :
        (p : Prepared)
        → prepare_contact_respond_ownership (s.objects id) d ≡ p
        → Conclusion (respond_as hash now d ce p)
    by_preparation (unprepared e) h = inl (refl, tt)
    by_preparation (prepared verified signature) h =
        let (authed, own) = prepare-authenticated (s.objects id) d h in
        elim (respond-cases now d.request_id verified d.outcome signature ce) [
          | inl (x, e) ↦ rw e (inl (refl, tt))
          | inr (q, a, v) ↦ inr (
            q,
            (reachable-OwnerInv prove reach).owned id authed,
            subst (λ t. Answerable d.request_id t ce q)
                (ap trim_space own ∙ trim_space-trim_space address) a,
            after_respond-IsSettled hash verified d.outcome q
                (respond now d.request_id verified d.outcome signature ce) v,
          )
        ]
