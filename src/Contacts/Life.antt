-- ===== src/Contacts/Life.antt =====
-- The life of a request of internal/contacteconomy/store.go: pending, and then established, rejected
-- or expired for good.
use platarium_gateway_go.Common.{◌≡◌, refl, ◌∙◌, ◌≢◌, ◌⊎◌, inl, inr, Bool-cases, arith}
use platarium_gateway_go.Common.Int.{ℤ}
use platarium_gateway_go.Common.Text.{Text, text_eq, text_beq, text_beq_iff, text_beq-ne}
use platarium_gateway_go.Contacts.Types.{
  ContactRequest, status_pending, status_established, status_rejected, status_expired,
  outcome_accepted, outcome_timeout, outcome_rejected,
}
use platarium_gateway_go.Contacts.Responses.{timed_out, accepted, rejected, is_due, expire_one}

-- A status of the life cycle, and the outcome that goes with it.
abbrev pub IsLive : ContactRequest → Type 0
IsLive r =
    (r.status ≡ status_pending)
    ⊎ ((r.status ≡ status_established) × (r.settle_outcome ≡ outcome_accepted))
    ⊎ ((r.status ≡ status_rejected) × (r.settle_outcome ≡ outcome_rejected))
    ⊎ ((r.status ≡ status_expired) × (r.settle_outcome ≡ outcome_timeout))

-- What a request becomes: it keeps its parties, lock, amount and deadline, a settled one keeps its
-- status and outcome, and none is pending again.
pub record Later (q r : ContactRequest) : Type 0 where
  pub same_id : r.request_id ≡ q.request_id
  pub same_sender : r.sender ≡ q.sender
  pub same_receiver : r.receiver ≡ q.receiver
  pub same_lock : r.lock_tx_hash ≡ q.lock_tx_hash
  pub same_amount : r.amount_uplp ≡ q.amount_uplp
  pub same_expiry : r.expires_at ≡ q.expires_at
  pub was_pending : r.status ≡ status_pending → q.status ≡ status_pending
  pub settled :
      q.status ≢ status_pending → (r.status ≡ q.status) × (r.settle_outcome ≡ q.settle_outcome)
  pub live : IsLive q → IsLive r

-- A request that is later and not newly established.
abbrev pub Quiet : ContactRequest → ContactRequest → Type 0
Quiet q r = Later q r × (r.status ≡ status_established → q.status ≡ status_established)

pub Later-refl : (q : ContactRequest) → Later q q
Later-refl q = record {
  same_id = refl;
  same_sender = refl;
  same_receiver = refl;
  same_lock = refl;
  same_amount = refl;
  same_expiry = refl;
  was_pending = λ e. e;
  settled = λ n. (refl, refl);
  live = λ l. l;
}

pub Later-trans : (p q r : ContactRequest) → Later p q → Later q r → Later p r
Later-trans p q r a b = record {
  same_id = b.same_id ∙ a.same_id;
  same_sender = b.same_sender ∙ a.same_sender;
  same_receiver = b.same_receiver ∙ a.same_receiver;
  same_lock = b.same_lock ∙ a.same_lock;
  same_amount = b.same_amount ∙ a.same_amount;
  same_expiry = b.same_expiry ∙ a.same_expiry;
  was_pending = λ e. a.was_pending (b.was_pending e);
  settled = λ n.
      let (s, o) = a.settled n in
      let (t, u) = b.settled (λ e. n (a.was_pending e)) in (t ∙ s, u ∙ o);
  live = λ l. b.live (a.live l);
}

-- A pending request that is given a status of the life cycle other than pending.
settles :
    (q : ContactRequest) (status outcome : Text)
    → q.status ≡ status_pending
    → status ≢ status_pending
    → IsLive (record q { status = status; settle_outcome = outcome })
    → Later q (record q { status = status; settle_outcome = outcome })
settles q status outcome p n l = record {
  same_id = refl;
  same_sender = refl;
  same_receiver = refl;
  same_lock = refl;
  same_amount = refl;
  same_expiry = refl;
  was_pending = λ e. absurd (n e);
  settled = λ m. absurd (m p);
  live = λ _. l;
}

pub accepted-Later : (q : ContactRequest) → q.status ≡ status_pending → Later q (accepted q)
unfolding text_beq
accepted-Later q p =
    settles q status_established outcome_accepted p
      (text_beq-ne status_established status_pending refl) (inr (inl (refl, refl)))

pub rejected-Quiet : (q : ContactRequest) → q.status ≡ status_pending → Quiet q (rejected q)
unfolding text_beq
rejected-Quiet q p = (
  settles q status_rejected outcome_rejected p (text_beq-ne status_rejected status_pending refl)
      (inr (inr (inl (refl, refl)))),
  λ e. absurd (text_beq-ne status_rejected status_established refl e),
)

pub timed_out-Quiet : (q : ContactRequest) → q.status ≡ status_pending → Quiet q (timed_out q)
unfolding text_beq
timed_out-Quiet q p = (
  settles q status_expired outcome_timeout p (text_beq-ne status_expired status_pending refl)
      (inr (inr (inr (refl, refl)))),
  λ e. absurd (text_beq-ne status_expired status_established refl e),
)

pub marked-Quiet : (q : ContactRequest) (tx : Text) → Quiet q (record q { settle_tx_hash = tx })
marked-Quiet q tx = (
  record {
    same_id = refl;
    same_sender = refl;
    same_receiver = refl;
    same_lock = refl;
    same_amount = refl;
    same_expiry = refl;
    was_pending = λ e. e;
    settled = λ n. (refl, refl);
    live = λ l. l;
  },
  λ e. e,
)

pub expire_one-Quiet : (now : ℤ) (q : ContactRequest) → Quiet q (expire_one now q)
unfolding expire_one
expire_one-Quiet now q = elim (Bool-cases (is_due now q)) [
  | inl e ↦ rw e (timed_out-Quiet q ((text_beq_iff q.status status_pending).0 (ground arith)))
  | inr e ↦ rw e (Later-refl q, λ x. x)
]
