-- ===== src/Contacts/Admission.antt =====
-- What `CreateRequest` of internal/contacteconomy/store.go admits, and what refused calls leave.
use platarium_gateway_go.Common.{
  ℕ, suc, ◌≤◌, ◌≡◌, refl, sym, ◌∙◌, ◌≢◌, ◌⊎◌, inl, inr, true, false, Option, none, some, [], ◌∷◌,
  Bool-cases, ap, subst, arith, if◌then◌else◌, not, Bool,
}
use platarium_gateway_go.Common.Int.{ℤ, pos, negsuc, leb_ℤ, ◌≤ℤ◌}
use platarium_gateway_go.Common.Text.{Text, text_eq}
use platarium_gateway_go.Common.Dict.{Dict, lookup, has_key, insert, lookup-insert_self}
use platarium_gateway_go.Deals.Panel.{Sha256}
use platarium_gateway_go.Contacts.Types.{
  ContactRequest, Store, Error, Result, ok, err, status_pending, disabled,
}
use platarium_gateway_go.Contacts.Store.{
  normalize, persist_locked, persisted, get_pricing, has_protocol_contact, count_pending,
  pending_outbound_count, pending_limit,
}
use platarium_gateway_go.Contacts.Requests.{
  malformed, not_admitted, stamped, admit_request, lock_taken, pair_taken, file_request,
  create_request, unless, put_request,
}
use platarium_gateway_go.Contacts.History.{persisted-data_of}

ok_inj : {A : Type 0} {a b : A} → ok a ≡ ok b → a ≡ b
ok_inj e = cc

Result-cases : {A : Type 0} (r : Result A) → ((e : Error) × (r ≡ err e)) ⊎ ((a : A) × (r ≡ ok a))
Result-cases (ok a) = inr (a, refl)
Result-cases (err e) = inl (e, refl)

pub ok-ne-err : {A : Type 0} (a : A) (e : Error) → ok a ≢ err e
ok-ne-err a e h = cc

pub persisted-ok : {A : Type 0} (a b : A) (s : Store) → (persisted a s).1 ≡ ok b → a ≡ b
unfolding persisted persist_locked
persisted-ok a b s e = ground arith

-- A request that is filed is stored as it is.
file_request-ok :
    (r q : ContactRequest) (s : Store)
    → (file_request r s).1 ≡ ok q
    → (r ≡ q)
      × ((file_request r s).0.data_of
          ≡ record (s.data_of) { requests = insert r.request_id r s.data_of.requests })
unfolding file_request
file_request-ok r q s = elim (Bool-cases (has_key r.request_id s.data_of.requests)) [
  | inl e ↦ rw e (λ h. absurd (ok-ne-err _ _ (sym h)))
  | inr e ↦ elim (Bool-cases (lock_taken r.lock_tx_hash s.data_of.requests)) [
    | inl f ↦ rw (e, f) (λ h. absurd (ok-ne-err _ _ (sym h)))
    | inr f ↦ elim (Bool-cases (pair_taken r.sender r.receiver s.data_of.requests)) [
      | inl g ↦ rw (e, f, g) (λ h. absurd (ok-ne-err _ _ (sym h)))
      | inr g ↦
          let t = put_request r.request_id r s in
          rw (e, f, g) (λ h. (persisted-ok r q t h, persisted-data_of r t))
    ]
  ]
]

-- What the request passed before the write lock.
record Admitted (r : ContactRequest) (s : Store) : Type 0 where
  pending : r.status ≡ status_pending
  open_receiver : (get_pricing r.receiver s).blocked ≡ false
  strangers : has_protocol_contact r.sender r.receiver s ≡ false
  below : leb_ℤ (pending_limit r.sender s) (pos (pending_outbound_count r.sender s)) ≡ false

not_admitted-none :
    (r : ContactRequest) (s : Store)
    → not_admitted r s ≡ none
    → ((get_pricing r.receiver s).blocked ≡ false)
      × (has_protocol_contact r.sender r.receiver s ≡ false)
      × (leb_ℤ (pending_limit r.sender s) (pos (pending_outbound_count r.sender s)) ≡ false)
unfolding not_admitted
not_admitted-none r s e = ground arith

unless-ok :
    {A : Type 0} (m : Option Error) (r : Result A) (a : A)
    → unless m r ≡ ok a
    → (m ≡ none) × (r ≡ ok a)
unless-ok (some e) r a h = absurd (ok-ne-err a e (sym h))
unless-ok none r a h = (refl, h)

past_guard :
    {A : Type 0} (b : Bool) (e : Error) (r : Result A) (a : A)
    → (if not b then err e else r) ≡ ok a
    → r ≡ ok a
past_guard true e r a h = h
past_guard false e r a h = absurd (ok-ne-err a e (sym h))

admit_request-none :
    (sha : Sha256) (now : ℤ) (raw r : ContactRequest) (s : Store)
    → let q = record raw { sender = normalize raw.sender; receiver = normalize raw.receiver } in
      admit_request sha now raw s ≡ ok r → (not_admitted q s ≡ none) × (stamped sha s.cfg now q ≡ r)
unfolding admit_request
admit_request-none sha now raw r s h =
    let q = record raw { sender = normalize raw.sender; receiver = normalize raw.receiver } in
    let a = past_guard s.cfg.enabled disabled _ r h in
    let b = (unless-ok (malformed q) _ r a).1 in
    let (c, d) = unless-ok (not_admitted q s) (ok (stamped sha s.cfg now q)) r b in (c, ok_inj d)

admit_request-ok :
    (sha : Sha256) (now : ℤ) (raw r : ContactRequest) (s : Store)
    → admit_request sha now raw s ≡ ok r
    → Admitted r s
unfolding stamped
admit_request-ok sha now raw r s h =
    let q = record raw { sender = normalize raw.sender; receiver = normalize raw.receiver } in
    let (g, e) = admit_request-none sha now raw r s h in
    let (a, b, c) = not_admitted-none q s g in
    subst (λ t. Admitted t s) e
      (record { pending = refl; open_receiver = a; strangers = b; below = c })

count_pending-insert :
    (sender id : Text) (r : ContactRequest) (d : Dict ContactRequest)
    → count_pending sender (insert id r d) ≤ suc (count_pending sender d)
unfolding count_pending insert
count_pending-insert sender id r [] = ground arith
count_pending-insert sender id r ((k, q) ∷ d) = ground (arith, count_pending-insert sender id r d)

create_request-ok :
    (sha : Sha256) (now : ℤ) (raw r : ContactRequest) (s : Store)
    → (create_request sha now raw s).1 ≡ ok r
    → Admitted r s
      × ((create_request sha now raw s).0.data_of
          ≡ record (s.data_of) { requests = insert r.request_id r s.data_of.requests })
unfolding create_request
create_request-ok sha now raw r s = elim (Result-cases (admit_request sha now raw s)) [
  | inl (e, f) ↦ rw (f, create_request) (λ h. absurd (ok-ne-err _ _ (sym h)))
  | inr (q, f) ↦
      rw (f, create_request)
        (λ h.
          let (same, after) = file_request-ok q r s h in
          (
            subst (λ t. Admitted t s) same (admit_request-ok sha now raw q s f),
            after
                ∙ ap
                    (λ t. record (s.data_of) {
                      requests = insert t.request_id t s.data_of.requests;
                    })
                    same,
          ))
]

-- A request that `CreateRequest` returns is stored under its id and is pending; its receiver takes
-- requests, the two were no contacts, and the sender's pending requests are then at most the limit.
pub create_request-admits :
    (sha : Sha256) (now : ℤ) (raw r : ContactRequest) (s : Store)
    → (create_request sha now raw s).1 ≡ ok r
    → let s' = (create_request sha now raw s).0 in
      (lookup r.request_id s'.data_of.requests ≡ some r)
      × (r.status ≡ status_pending)
      × ((get_pricing r.receiver s).blocked ≡ false)
      × (has_protocol_contact r.sender r.receiver s ≡ false)
      × (pos (pending_outbound_count r.sender s') ≤ℤ pending_limit r.sender s)
unfolding pending_outbound_count
create_request-admits sha now raw r s h =
    let (a, after) = create_request-ok sha now raw r s h in
    let rs = s.data_of.requests in
    let same = ap (λ d. d.requests) after in
    (
      ap (λ d. lookup r.request_id d) same ∙ lookup-insert_self r.request_id r rs,
      a.pending,
      a.open_receiver,
      a.strangers,
      below-le (count_pending (normalize r.sender) rs) _ (pending_limit r.sender s) a.below (
          subst
            (λ d.
              count_pending (normalize r.sender) d ≤ suc (count_pending (normalize r.sender) rs))
            (sym same) (count_pending-insert (normalize r.sender) r.request_id r rs)),
    )
  where
    below-le : (m n : ℕ) (l : ℤ) → leb_ℤ l (pos m) ≡ false → n ≤ suc m → pos n ≤ℤ l
    below-le m n (pos l) h k = ground arith
    below-le m n (negsuc l) h k = ground arith
