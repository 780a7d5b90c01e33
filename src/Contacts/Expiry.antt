-- ===== src/Contacts/Expiry.antt =====
-- What `ExpireDue` of internal/contacteconomy/store.go leaves, and what is on disk.
use platarium_gateway_go.Common.{
  ◌≡◌, refl, sym, ◌∙◌, ◌≢◌, inl, inr, true, false, some, List, [], ◌∷◌, Bool-cases, Option-cases,
  List-cases, ℕ, nat_eq, ap, subst, arith, if◌then◌else◌,
}
use platarium_gateway_go.Common.Int.{ℤ}
use platarium_gateway_go.Common.Text.{Text, text_eq, text_beq}
use platarium_gateway_go.Common.Dict.{Dict, map_values, lookup}
use platarium_gateway_go.Contacts.Types.{ContactRequest, PricingAnnounce, Store}
use platarium_gateway_go.Contacts.Store.{persist_locked, persisted, set_pricing, add_xp, normalize}
use platarium_gateway_go.Contacts.Requests.{file_request}
use platarium_gateway_go.Contacts.Responses.{
  timed_out, is_due, expire_one, due_of, expire_due, respond, answer, settle, mark_settled,
  bad_proof,
}
use platarium_gateway_go.Contacts.Step.{
  Action, files, responds, marks, expires, prices, earns, act, run,
}
use platarium_gateway_go.Contacts.History.{expire_due-data_of}

expire_one-not_due : (now : ℤ) (r : ContactRequest) → is_due now (expire_one now r) ≡ false
unfolding expire_one text_beq
expire_one-not_due now r = elim (Bool-cases (is_due now r)) [ inl e ↦ rw e | inr e ↦ rw (e, e) ]

expire_one-same : (now : ℤ) (r : ContactRequest) → is_due now r ≡ false → expire_one now r ≡ r
unfolding expire_one
expire_one-same now r e = rw e

due_of-expired :
    (now : ℤ) (d : Dict ContactRequest) → due_of now (map_values (expire_one now) d) ≡ []
unfolding due_of map_values
due_of-expired now [] = refl
due_of-expired now ((id, r) ∷ d) = rw (expire_one-not_due now r, due_of-expired now d)

map_values-expired :
    (now : ℤ) (d : Dict ContactRequest)
    → map_values (expire_one now) (map_values (expire_one now) d) ≡ map_values (expire_one now) d
unfolding map_values
map_values-expired now [] = refl
map_values-expired now ((id, r) ∷ d) =
    let e = expire_one-same now (expire_one now r) (expire_one-not_due now r) in
    let f = map_values-expired now d in cc (e, f)

expire_due-none :
    (now : ℤ) (s : Store)
    → due_of now s.data_of.requests ≡ []
    → map_values (expire_one now) s.data_of.requests ≡ s.data_of.requests
    → expire_due now s ≡ (s, [])
unfolding expire_due
expire_due-none now s e f =
    rw (e, expire_due)
      (ap (λ d. (record s { data_of = record (s.data_of) { requests = d } }, [])) f)

-- `ExpireDue` leaves nothing due: called again at the same time it changes nothing and returns no
-- request.
expire_due-expire_due :
    (now : ℤ) (s : Store) → expire_due now (expire_due now s).0 ≡ ((expire_due now s).0, [])
expire_due-expire_due now s =
    let s' = (expire_due now s).0 in
    let e = ap (λ d. d.requests) (expire_due-data_of now s) in
    let f : map_values (expire_one now) s'.data_of.requests ≡ s'.data_of.requests =
      ap (λ d. map_values (expire_one now) d) e
      ∙ (map_values-expired now s.data_of.requests ∙ sym e) in
    expire_due-none now s' (ap (λ d. due_of now d) e ∙ due_of-expired now s.data_of.requests) f

-- What is in the file is the state, and writes succeed.
abbrev pub IsSaved : Store → Type 0
IsSaved s = (s.writable ≡ true) × (s.file ≡ some s.data_of)

file_request-IsSaved : (r : ContactRequest) (s : Store) → IsSaved s → IsSaved (file_request r s).0
unfolding file_request persisted persist_locked
file_request-IsSaved r s h = ground arith

answer-IsSaved :
    (now : ℤ) (id actor outcome : Text) (r : ContactRequest) (s : Store)
    → IsSaved s
    → IsSaved (answer now id actor outcome r s).0
unfolding answer settle persisted persist_locked
answer-IsSaved now id actor outcome r s h = ground arith

respond-IsSaved :
    (now : ℤ) (id actor outcome signature : Text) (s : Store)
    → IsSaved s
    → IsSaved (respond now id actor outcome signature s).0
unfolding respond
respond-IsSaved now id actor outcome signature s h =
    elim (Option-cases (bad_proof (normalize actor) signature)) [
      | inr (x, e) ↦ rw (e, respond) h
      | inl e ↦ elim (Option-cases (lookup id s.data_of.requests)) [
        | inl n ↦ rw (e, n, respond) h
        | inr (q, m) ↦ rw (e, m, respond) (answer-IsSaved now id (normalize actor) outcome q s h)
      ]
    ]

mark_settled-IsSaved : (id tx : Text) (s : Store) → IsSaved s → IsSaved (mark_settled id tx s).0
unfolding mark_settled persisted persist_locked
mark_settled-IsSaved id tx s h = ground arith

set_pricing-IsSaved :
    (now : ℤ) (p : PricingAnnounce) (s : Store) → IsSaved s → IsSaved (set_pricing now p s).0
unfolding set_pricing persisted persist_locked
set_pricing-IsSaved now p s h = ground arith

add_xp-IsSaved :
    (address : Text) (delta : ℕ) (s : Store) → IsSaved s → IsSaved (add_xp address delta s)
unfolding add_xp persist_locked
add_xp-IsSaved address delta s h = ground arith

cons-ne : {A : Type 0} (x : A) (xs : List A) → x ∷ xs ≢ []
cons-ne x xs e = cc

map_values-not_due :
    (now : ℤ) (d : Dict ContactRequest) → due_of now d ≡ [] → map_values (expire_one now) d ≡ d
unfolding due_of map_values
map_values-not_due now [] e = refl
map_values-not_due now ((id, r) ∷ d) e = elim (Bool-cases (is_due now r)) [
  | inl due ↦ absurd (
      cons-ne (timed_out r) (due_of now d)
        (subst (λ b. (if b then timed_out r ∷ due_of now d else due_of now d) ≡ []) due e))
  | inr off ↦
      let a = expire_one-same now r off in
      let b =
        map_values-not_due now d
          (subst (λ b. (if b then timed_out r ∷ due_of now d else due_of now d) ≡ []) off e) in
      cc (a, b)
]

expire_due-IsSaved : (now : ℤ) (s : Store) → IsSaved s → IsSaved (expire_due now s).0
unfolding expire_due persist_locked
expire_due-IsSaved now s h = elim (List-cases (due_of now s.data_of.requests)) [
  | inl e ↦
      subst IsSaved
        (sym
          (ap (λ x. x.0) (expire_due-none now s e (map_values-not_due now s.data_of.requests e))))
        h
  | inr (x, xs, e) ↦ rw (e, expire_due) (ground arith)
]

-- Where writes succeed, after every call the file holds the whole state.
run-IsSaved : (actions : List Action) (s : Store) → IsSaved s → IsSaved (run actions s)
unfolding run act
run-IsSaved [] s h = h
run-IsSaved (files r ∷ actions) s h = run-IsSaved actions _ (file_request-IsSaved r s h)
run-IsSaved (responds now id actor outcome signature ∷ actions) s h =
    run-IsSaved actions _ (respond-IsSaved now id actor outcome signature s h)
run-IsSaved (marks id tx ∷ actions) s h = run-IsSaved actions _ (mark_settled-IsSaved id tx s h)
run-IsSaved (expires now ∷ actions) s h = run-IsSaved actions _ (expire_due-IsSaved now s h)
run-IsSaved (prices now p ∷ actions) s h = run-IsSaved actions _ (set_pricing-IsSaved now p s h)
run-IsSaved (earns address delta ∷ actions) s h =
    run-IsSaved actions _ (add_xp-IsSaved address delta s h)
