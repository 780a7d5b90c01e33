-- ===== src/Contacts/History.antt =====
-- What a call changes in the requests and the contacts of internal/contacteconomy/store.go.
use platarium_gateway_go.Common.{
  ◌≡◌, refl, inl, inr, false, ◌||◌, none, some, [], ◌==◌, Bool-cases, Option-cases, List-cases,
  List, arith, ap, ℕ, nat_eq,
}
use platarium_gateway_go.Common.Int.{ℤ, ltb_ℤ}
use platarium_gateway_go.Common.Text.{Text, text_eq, text_beq, text_beq_iff, equal_fold, to_lower}
use platarium_gateway_go.Common.Dict.{lookup, has_key, insert, map_values}
use platarium_gateway_go.Contacts.Types.{
  ContactRequest, PricingAnnounce, FilePayload, Store, status_pending, outcome_accepted,
  outcome_rejected,
}
use platarium_gateway_go.Contacts.Store.{
  persist_locked, persisted, set_pricing, add_xp, pair_key, normalize, clamped, put_pricing,
}
use platarium_gateway_go.Contacts.Requests.{
  file_request, lock_taken, pair_taken, put_request, put_contact,
}
use platarium_gateway_go.Contacts.Responses.{
  respond, answer, settle, bad_proof, mark_settled, expire_due, expire_one, due_of, accepted,
  rejected, timed_out, contact_of,
}
use platarium_gateway_go.Contacts.Step.{
  Action, files, responds, marks, expires, prices, earns, act, IsAdmitted,
}
use platarium_gateway_go.Contacts.Life.{
  Quiet, rejected-Quiet, timed_out-Quiet, marked-Quiet, expire_one-Quiet,
}

pub data Change (d e : FilePayload) : Type 0 where
  stays : e.requests ≡ d.requests → e.contacts ≡ d.contacts → Change d e
  adds :
      (r : ContactRequest)
      → r.status ≡ status_pending
      → lookup r.request_id d.requests ≡ none
      → lock_taken r.lock_tx_hash d.requests ≡ false
      → pair_taken r.sender r.receiver d.requests ≡ false
      → e.requests ≡ insert r.request_id r d.requests
      → e.contacts ≡ d.contacts
      → Change d e
  edits :
      (id : Text) (q r : ContactRequest)
      → lookup id d.requests ≡ some q
      → Quiet q r
      → e.requests ≡ insert id r d.requests
      → e.contacts ≡ d.contacts
      → Change d e
  maps :
      (f : ContactRequest → ContactRequest)
      → ((q : ContactRequest) → Quiet q (f q))
      → e.requests ≡ map_values f d.requests
      → e.contacts ≡ d.contacts
      → Change d e
  accepts :
      (now : ℤ) (id : Text) (q : ContactRequest)
      → lookup id d.requests ≡ some q
      → q.status ≡ status_pending
      → e.requests ≡ insert id (accepted q) d.requests
      → e.contacts ≡ insert (pair_key q.sender q.receiver) (contact_of now q) d.contacts
      → Change d e

pub persist_locked-data_of : (s : Store) → (persist_locked s).0.data_of ≡ s.data_of
unfolding persist_locked
persist_locked-data_of s = ground arith

pub persisted-data_of : {A : Type 0} (a : A) (s : Store) → (persisted a s).0.data_of ≡ s.data_of
unfolding persisted
persisted-data_of a s = persist_locked-data_of s

has_key-none :
    {V : Type 0} (k : Text) (d : List (Text × V)) → has_key k d ≡ false → lookup k d ≡ none
unfolding has_key
has_key-none k d h = ground arith

file_request-Change :
    (r : ContactRequest) (s : Store)
    → r.status ≡ status_pending
    → Change s.data_of (file_request r s).0.data_of
unfolding file_request
file_request-Change r s pending = elim (Bool-cases (has_key r.request_id s.data_of.requests)) [
  | inl e ↦ rw e (stays refl refl)
  | inr e ↦ elim (Bool-cases (lock_taken r.lock_tx_hash s.data_of.requests)) [
    | inl f ↦ rw (e, f) (stays refl refl)
    | inr f ↦ elim (Bool-cases (pair_taken r.sender r.receiver s.data_of.requests)) [
      | inl g ↦ rw (e, f, g) (stays refl refl)
      | inr g ↦
          let p = persisted-data_of r (put_request r.request_id r s) in
          rw (e, f, g)
            (adds r pending (has_key-none r.request_id s.data_of.requests e) f g
              (ap (λ d. d.requests) p) (ap (λ d. d.contacts) p))
    ]
  ]
]

settle-Change :
    (now : ℤ) (id outcome : Text) (q : ContactRequest) (s : Store)
    → lookup id s.data_of.requests ≡ some q
    → q.status ≡ status_pending
    → Change s.data_of (settle now id outcome q s).0.data_of
unfolding settle
settle-Change now id outcome q s m p = elim (Bool-cases (text_beq outcome outcome_accepted)) [
  | inl e ↦
      let x = persisted-data_of (accepted q) (
        put_request id (accepted q)
          (put_contact (pair_key q.sender q.receiver) (contact_of now q) s)) in
      rw e (accepts now id q m p (ap (λ d. d.requests) x) (ap (λ d. d.contacts) x))
  | inr e ↦ elim (Bool-cases (text_beq outcome outcome_rejected)) [
    | inl f ↦
        let x = persisted-data_of (rejected q) (put_request id (rejected q) s) in
        rw (e, f)
          (edits id q (rejected q) m (rejected-Quiet q p) (ap (λ d. d.requests) x)
            (ap (λ d. d.contacts) x))
    | inr f ↦ rw (e, f) (stays refl refl)
  ]
]

answer-Change :
    (now : ℤ) (id actor outcome : Text) (q : ContactRequest) (s : Store)
    → lookup id s.data_of.requests ≡ some q
    → Change s.data_of (answer now id actor outcome q s).0.data_of
unfolding answer
answer-Change now id actor outcome q s m = elim (Bool-cases (text_beq q.status status_pending)) [
  | inr e ↦ rw e (stays refl refl)
  | inl e ↦ elim (Bool-cases (equal_fold q.receiver actor)) [
    | inr f ↦ rw (e, f) (stays refl refl)
    | inl f ↦
        let p = (text_beq_iff q.status status_pending).0 e in
        elim (Bool-cases (ltb_ℤ q.expires_at now)) [
          | inl g ↦
              let x = persist_locked-data_of (put_request id (timed_out q) s) in
              rw (e, f, g)
                (edits id q (timed_out q) m (timed_out-Quiet q p) (ap (λ d. d.requests) x)
                  (ap (λ d. d.contacts) x))
          | inr g ↦ rw (e, f, g) (settle-Change now id outcome q s m p)
        ]
  ]
]

respond-Change :
    (now : ℤ) (id actor outcome signature : Text) (s : Store)
    → Change s.data_of (respond now id actor outcome signature s).0.data_of
unfolding respond
respond-Change now id actor outcome signature s =
    elim (Option-cases (bad_proof (normalize actor) signature)) [
      | inr (x, e) ↦ rw (e, respond) (stays refl refl)
      | inl e ↦ elim (Option-cases (lookup id s.data_of.requests)) [
        | inl n ↦ rw (e, n, respond) (stays refl refl)
        | inr (q, m) ↦ rw (e, m, respond) (answer-Change now id (normalize actor) outcome q s m)
      ]
    ]

mark_settled-Change : (id tx : Text) (s : Store) → Change s.data_of (mark_settled id tx s).0.data_of
unfolding mark_settled
mark_settled-Change id tx s = elim (Option-cases (lookup id s.data_of.requests)) [
  | inl n ↦ rw (n, mark_settled) (stays refl refl)
  | inr (q, m) ↦
      let r = record q { settle_tx_hash = tx } in
      let x = persisted-data_of {A = Unit {0}} tt (put_request id r s) in
      rw (m, mark_settled)
        (edits id q r m (marked-Quiet q tx) (ap (λ d. d.requests) x) (ap (λ d. d.contacts) x))
]

pub expire_due-data_of :
    (now : ℤ) (s : Store)
    → (expire_due now s).0.data_of
      ≡ record (s.data_of) { requests = map_values (expire_one now) s.data_of.requests }
unfolding expire_due
expire_due-data_of now s = elim (List-cases (due_of now s.data_of.requests)) [
  | inl e ↦ rw (e, expire_due)
  | inr (x, xs, e) ↦ rw (e, expire_due) (persist_locked-data_of _)
]

set_pricing-Change :
    (now : ℤ) (p : PricingAnnounce) (s : Store) → Change s.data_of (set_pricing now p s).0.data_of
unfolding set_pricing
set_pricing-Change now p s = elim (Bool-cases (text_beq (normalize p.address) [])) [
  | inl e ↦ rw e (stays refl refl)
  | inr e ↦
      let q = clamped s.cfg now (normalize p.address) p in
      let x = persisted-data_of q (put_pricing (to_lower (normalize p.address)) q s) in
      rw e (stays (ap (λ d. d.requests) x) (ap (λ d. d.contacts) x))
]

add_xp-Change :
    (address : Text) (delta : ℕ) (s : Store) → Change s.data_of (add_xp address delta s).data_of
unfolding add_xp
add_xp-Change address delta s =
    elim (Bool-cases (text_beq (to_lower (normalize address)) [] || delta == 0)) [
      | inl e ↦ rw e (stays refl refl)
      | inr e ↦ rw e (
          stays (ap (λ d. d.requests) (persist_locked-data_of _))
            (ap (λ d. d.contacts) (persist_locked-data_of _)))
    ]

pub act-Change : (a : Action) (s : Store) → IsAdmitted a → Change s.data_of (act a s).data_of
unfolding act
act-Change (files r) s h = file_request-Change r s h
act-Change (responds now id actor outcome signature) s h =
    respond-Change now id actor outcome signature s
act-Change (marks id tx) s h = mark_settled-Change id tx s
act-Change (expires now) s h =
    let x = expire_due-data_of now s in
    maps (expire_one now) (expire_one-Quiet now) (ap (λ d. d.requests) x) (ap (λ d. d.contacts) x)
act-Change (prices now p) s h = set_pricing-Change now p s
act-Change (earns address delta) s h = add_xp-Change address delta s
