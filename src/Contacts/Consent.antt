-- ===== src/Contacts/Consent.antt =====
-- Who makes a contact in internal/contacteconomy/store.go.
use platarium_gateway_go.Common.{
  ◌≡◌, sym, ◌∙◌, ◌≢◌, ◌⊎◌, inl, inr, true, false, none, some, Bool-cases, Option-cases, ap, arith,
  ℕ, nat_eq,
}
use platarium_gateway_go.Common.Int.{ℤ, ltb_ℤ}
use platarium_gateway_go.Common.Text.{Text, text_eq, text_beq, text_beq_iff, equal_fold}
use platarium_gateway_go.Common.Dict.{Dict, lookup, insert, lookup-insert_cases}
use platarium_gateway_go.Contacts.Types.{
  ContactRequest, ProtocolContactPair, PricingAnnounce, Store, status_pending, outcome_accepted,
  outcome_rejected,
}
use platarium_gateway_go.Contacts.Store.{
  normalize, pair_key, persist_locked, persisted, set_pricing, add_xp,
}
use platarium_gateway_go.Contacts.Requests.{file_request, put_request, put_contact}
use platarium_gateway_go.Contacts.Responses.{
  respond, answer, settle, bad_proof, mark_settled, expire_due, accepted, rejected, contact_of,
  timed_out,
}
use platarium_gateway_go.Contacts.Step.{Action, files, responds, marks, expires, prices, earns, act}
use platarium_gateway_go.Contacts.History.{persist_locked-data_of, persisted-data_of}

-- The receiver's acceptance, in time, of a pending request of the pair `k`.
pub record Acceptance (a : Action) (s : Store) (k : Text) : Type 0 where
  pub now : ℤ
  pub id : Text
  pub actor : Text
  pub signature : Text
  pub request : ContactRequest
  pub is_answer : a ≡ responds now id actor outcome_accepted signature
  pub proven : bad_proof (normalize actor) signature ≡ none
  pub known : lookup id s.data_of.requests ≡ some request
  pub pending : request.status ≡ status_pending
  pub by_receiver : equal_fold request.receiver (normalize actor) ≡ true
  pub in_time : ltb_ℤ request.expires_at now ≡ false
  pub of_pair : pair_key request.sender request.receiver ≡ k

file_request-contacts :
    (r : ContactRequest) (s : Store) → (file_request r s).0.data_of.contacts ≡ s.data_of.contacts
unfolding file_request persisted persist_locked
file_request-contacts r s = ground arith

mark_settled-contacts :
    (id tx : Text) (s : Store) → (mark_settled id tx s).0.data_of.contacts ≡ s.data_of.contacts
unfolding mark_settled persisted persist_locked
mark_settled-contacts id tx s = ground arith

expire_due-contacts :
    (now : ℤ) (s : Store) → (expire_due now s).0.data_of.contacts ≡ s.data_of.contacts
unfolding expire_due persist_locked
expire_due-contacts now s = ground arith

set_pricing-contacts :
    (now : ℤ) (p : PricingAnnounce) (s : Store)
    → (set_pricing now p s).0.data_of.contacts ≡ s.data_of.contacts
unfolding set_pricing persisted persist_locked
set_pricing-contacts now p s = ground arith

add_xp-contacts :
    (address : Text) (delta : ℕ) (s : Store)
    → (add_xp address delta s).data_of.contacts ≡ s.data_of.contacts
unfolding add_xp persist_locked
add_xp-contacts address delta s = ground arith

settle-contacts :
    (now : ℤ) (id outcome : Text) (q : ContactRequest) (s : Store)
    → ((settle now id outcome q s).0.data_of.contacts ≡ s.data_of.contacts)
      ⊎ ((outcome ≡ outcome_accepted)
          × ((settle now id outcome q s).0.data_of.contacts
              ≡ insert (pair_key q.sender q.receiver) (contact_of now q) s.data_of.contacts))
unfolding settle
settle-contacts now id outcome q s = elim (Bool-cases (text_beq outcome outcome_accepted)) [
  | inl e ↦
      let x = persisted-data_of (accepted q) (
        put_request id (accepted q)
          (put_contact (pair_key q.sender q.receiver) (contact_of now q) s)) in
      inr ((text_beq_iff outcome outcome_accepted).0 e, rw e (ap (λ d. d.contacts) x))
  | inr e ↦ elim (Bool-cases (text_beq outcome outcome_rejected)) [
    | inl f ↦
        let x = persisted-data_of (rejected q) (put_request id (rejected q) s) in
        inl (rw (e, f) (ap (λ d. d.contacts) x))
    | inr f ↦ inl (rw (e, f))
  ]
]

answer-contacts :
    (now : ℤ) (id actor outcome : Text) (q : ContactRequest) (s : Store)
    → ((answer now id actor outcome q s).0.data_of.contacts ≡ s.data_of.contacts)
      ⊎ ((outcome ≡ outcome_accepted)
          × (q.status ≡ status_pending)
          × (equal_fold q.receiver actor ≡ true)
          × (ltb_ℤ q.expires_at now ≡ false)
          × ((answer now id actor outcome q s).0.data_of.contacts
              ≡ insert (pair_key q.sender q.receiver) (contact_of now q) s.data_of.contacts))
unfolding answer
answer-contacts now id actor outcome q s = elim (Bool-cases (text_beq q.status status_pending)) [
  | inr e ↦ inl (rw e)
  | inl e ↦ elim (Bool-cases (equal_fold q.receiver actor)) [
    | inr f ↦ inl (rw (e, f))
    | inl f ↦ elim (Bool-cases (ltb_ℤ q.expires_at now)) [
      | inl g ↦ inl (
          rw (e, f, g)
            (ap (λ d. d.contacts) (persist_locked-data_of (put_request id (timed_out q) s))))
      | inr g ↦ elim (settle-contacts now id outcome q s) [
        | inl x ↦ inl (rw (e, f, g) x)
        | inr (o, x) ↦ inr (o, (text_beq_iff q.status status_pending).0 e, f, g, rw (e, f, g) x)
      ]
    ]
  ]
]

-- What `Respond` does to the contacts.
respond-contacts :
    (now : ℤ) (id actor outcome signature : Text) (s : Store)
    → ((respond now id actor outcome signature s).0.data_of.contacts ≡ s.data_of.contacts)
      ⊎ ((q : ContactRequest) × (bad_proof (normalize actor) signature ≡ none)
          × (lookup id s.data_of.requests ≡ some q)
          × ((respond now id actor outcome signature s).0.data_of.contacts
              ≡ (answer now id (normalize actor) outcome q s).0.data_of.contacts))
unfolding respond
respond-contacts now id actor outcome signature s =
    elim (Option-cases (bad_proof (normalize actor) signature)) [
      | inr (x, e) ↦ inl (rw (e, respond))
      | inl e ↦ elim (Option-cases (lookup id s.data_of.requests)) [
        | inl n ↦ inl (rw (e, n, respond))
        | inr (q, m) ↦ inr (q, e, m, rw (e, m, respond))
      ]
    ]

some-ne : {A : Type 0} (a : A) → some a ≢ none
some-ne a e = cc

-- A contact that is there after and was not there before.
newly :
    (k : Text) (p : ProtocolContactPair) (cs ds : Dict ProtocolContactPair)
    → lookup k cs ≡ none
    → lookup k ds ≡ some p
    → ds ≡ cs
    → ⊥
newly k p cs ds n m e = let x = sym m ∙ (ap (λ d. lookup k d) e ∙ n) in absurd (some-ne p x)

respond-consent :
    (now : ℤ) (id actor outcome signature : Text) (s : Store) (k : Text) (p : ProtocolContactPair)
    → lookup k s.data_of.contacts ≡ none
    → lookup k (respond now id actor outcome signature s).0.data_of.contacts ≡ some p
    → Acceptance (responds now id actor outcome signature) s k
respond-consent now id actor outcome signature s k p new m =
    elim (respond-contacts now id actor outcome signature s) [
      | inl e ↦ absurd (newly k p s.data_of.contacts _ new m e)
      | inr (q, e, f, x) ↦ elim (answer-contacts now id (normalize actor) outcome q s) [
        | inl y ↦ absurd (newly k p s.data_of.contacts _ new m (x ∙ y))
        | inr (o, pend, by, time, y) ↦
            let key = pair_key q.sender q.receiver in
            let m' = sym (ap (λ d. lookup k d) (x ∙ y)) ∙ m in
            elim (lookup-insert_cases key k (contact_of now q) p s.data_of.contacts m') [
              | inl (same, _) ↦ record {
                now = now;
                id = id;
                actor = actor;
                signature = signature;
                request = q;
                is_answer = ap (λ t. responds now id actor t signature) o;
                proven = e;
                known = f;
                pending = pend;
                by_receiver = by;
                in_time = time;
                of_pair = same;
              }
              | inr (_, old) ↦ absurd (some-ne p (sym old ∙ new))
            ]
      ]
    ]

-- A contact that a call makes was accepted: the call is the answer, by the receiver with a proof of
-- ownership, to a pending request of that pair that has not expired.
pub act-consent :
    (a : Action) (s : Store) (k : Text) (p : ProtocolContactPair)
    → lookup k s.data_of.contacts ≡ none
    → lookup k (act a s).data_of.contacts ≡ some p
    → Acceptance a s k
unfolding act
act-consent (files r) s k p n m = absurd (newly k p _ _ n m (file_request-contacts r s))
act-consent (responds now id actor outcome signature) s k p n m =
    respond-consent now id actor outcome signature s k p n m
act-consent (marks id tx) s k p n m = absurd (newly k p _ _ n m (mark_settled-contacts id tx s))
act-consent (expires now) s k p n m = absurd (newly k p _ _ n m (expire_due-contacts now s))
act-consent (prices now q) s k p n m = absurd (newly k p _ _ n m (set_pricing-contacts now q s))
act-consent (earns address delta) s k p n m =
    absurd (newly k p _ _ n m (add_xp-contacts address delta s))
