-- ===== src/Contacts/Answered.antt =====
-- Whom `Respond` of internal/contacteconomy/store.go obeys, and what it answers.
use platarium_gateway_go.Common.{◌≡◌, refl, ◌⊎◌, inl, inr, true, some, Bool-cases, Option-cases}
use platarium_gateway_go.Common.Int.{ℤ, ltb_ℤ}
use platarium_gateway_go.Common.Text.{Text, text_eq, text_beq, text_beq_iff, equal_fold}
use platarium_gateway_go.Common.Dict.{lookup}
use platarium_gateway_go.Contacts.Types.{
  ContactRequest, Store, Result, ok, err, Error, not_pending, not_receiver, not_found,
  status_pending, outcome_accepted, outcome_rejected,
}
use platarium_gateway_go.Contacts.Store.{normalize, pair_key, persisted, persist_locked}
use platarium_gateway_go.Contacts.Requests.{put_request, put_contact}
use platarium_gateway_go.Contacts.Responses.{
  respond, answer, settle, bad_proof, accepted, rejected, contact_of,
}

-- The result is an error, or the request as it was accepted or rejected, as was asked.
abbrev pub IsVerdict : ContactRequest → Text → Result ContactRequest → Type 0
IsVerdict q outcome (err e) = Unit {0}
IsVerdict q outcome (ok r) =
    ((outcome ≡ outcome_accepted) × (r ≡ accepted q))
    ⊎ ((outcome ≡ outcome_rejected) × (r ≡ rejected q))

-- The request that is answered: it is pending, and the actor is its receiver.
pub record Answerable (id actor : Text) (s : Store) (q : ContactRequest) : Type 0 where
  pub known : lookup id s.data_of.requests ≡ some q
  pub pending : q.status ≡ status_pending
  pub by_receiver : equal_fold q.receiver actor ≡ true

persisted-IsVerdict :
    (q r : ContactRequest) (outcome : Text) (s : Store)
    → IsVerdict q outcome (ok r)
    → IsVerdict q outcome (persisted r s).1
unfolding persisted persist_locked
persisted-IsVerdict q r outcome s v = elim (Bool-cases s.writable) [
  | inl e ↦ rw e v
  | inr e ↦ rw e tt
]

settle-IsVerdict :
    (now : ℤ) (id outcome : Text) (q : ContactRequest) (s : Store)
    → IsVerdict q outcome (settle now id outcome q s).1
unfolding settle
settle-IsVerdict now id outcome q s = elim (Bool-cases (text_beq outcome outcome_accepted)) [
  | inl e ↦ rw e (
      persisted-IsVerdict q (accepted q) outcome
        (put_request id (accepted q)
          (put_contact (pair_key q.sender q.receiver) (contact_of now q) s))
        (inl ((text_beq_iff outcome outcome_accepted).0 e, refl)))
  | inr e ↦ elim (Bool-cases (text_beq outcome outcome_rejected)) [
    | inl f ↦
        rw (e, f)
          (persisted-IsVerdict q (rejected q) outcome (put_request id (rejected q) s)
            (inr ((text_beq_iff outcome outcome_rejected).0 f, refl)))
    | inr f ↦ rw (e, f) tt
  ]
]

answer-cases :
    (now : ℤ) (id actor outcome : Text) (q : ContactRequest) (s : Store)
    → ((e : Error) × (answer now id actor outcome q s ≡ (s, err e)))
      ⊎ ((q.status ≡ status_pending)
          × (equal_fold q.receiver actor ≡ true)
          × IsVerdict q outcome (answer now id actor outcome q s).1)
unfolding answer
answer-cases now id actor outcome q s = elim (Bool-cases (text_beq q.status status_pending)) [
  | inr e ↦ inl (not_pending, rw e refl)
  | inl e ↦ elim (Bool-cases (equal_fold q.receiver actor)) [
    | inr f ↦ inl (not_receiver, rw (e, f) refl)
    | inl f ↦
        let p = (text_beq_iff q.status status_pending).0 e in
        elim (Bool-cases (ltb_ℤ q.expires_at now)) [
          | inl g ↦ inr (p, f, rw (e, f, g) tt)
          | inr g ↦ inr (p, f, rw (e, f, g) (settle-IsVerdict now id outcome q s))
        ]
  ]
]

-- `Respond` returns an error and leaves the store as it is, or answers a request that the actor may.
pub respond-cases :
    (now : ℤ) (id actor outcome signature : Text) (s : Store)
    → ((e : Error) × (respond now id actor outcome signature s ≡ (s, err e)))
      ⊎ ((q : ContactRequest) × Answerable id (normalize actor) s q
          × IsVerdict q outcome (respond now id actor outcome signature s).1)
unfolding respond
respond-cases now id actor outcome signature s =
    elim (Option-cases (bad_proof (normalize actor) signature)) [
      | inr (x, e) ↦ inl (x, rw (e, respond) refl)
      | inl e ↦ elim (Option-cases (lookup id s.data_of.requests)) [
        | inl n ↦ inl (not_found, rw (e, n, respond) refl)
        | inr (q, m) ↦ elim (answer-cases now id (normalize actor) outcome q s) [
          | inl (x, f) ↦ inl (x, rw (e, m, respond) f)
          | inr (p, r, v) ↦
              inr (q, record { known = m; pending = p; by_receiver = r }, rw (e, m, respond) v)
        ]
      ]
    ]
