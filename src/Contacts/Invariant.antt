-- ===== src/Contacts/Invariant.antt =====
-- The invariant of a `Store` (internal/contacteconomy/store.go), and that every sequence of calls
-- keeps it, however the two parts of `CreateRequest` interleave with other calls.
use platarium_gateway_go.Common.{
  ◌≡◌, refl, sym, ◌∙◌, ◌≢◌, inl, inr, none, some, List, [], ◌∷◌, ap, subst,
}
use platarium_gateway_go.Common.Int.{ℤ}
use platarium_gateway_go.Common.Text.{Text, text_eq, text_beq, text_beq-ne}
use platarium_gateway_go.Common.Dict.{
  Dict, lookup, insert, lookup-insert_cases, lookup-insert_self, lookup-insert_found,
  lookup-insert_ne, map_values,
}
use platarium_gateway_go.Contacts.Types.{
  ContactRequest, ProtocolContactPair, FilePayload, Store, status_pending, status_established,
}
use platarium_gateway_go.Contacts.Store.{pair_key}
use platarium_gateway_go.Contacts.Responses.{accepted, contact_of}
use platarium_gateway_go.Contacts.Step.{Action, act, run, AllAdmitted}
use platarium_gateway_go.Contacts.Sound.{Sound, Sound-Carried, insert-Sound}
use platarium_gateway_go.Contacts.Life.{Later, Later-refl, Quiet, accepted-Later}
use platarium_gateway_go.Contacts.Carried.{
  Carried, Kept, insert-Carried, map_values-Carried, insert-Kept, map_values-Kept,
}
use platarium_gateway_go.Contacts.History.{Change, stays, adds, edits, maps, accepts, act-Change}

-- A contact comes from an established request of its pair, and such a request has its contact.
pub record Linked (rs : Dict ContactRequest) (cs : Dict ProtocolContactPair) : Type 0 where
  pub consent :
      (k : Text) (p : ProtocolContactPair)
      → lookup k cs ≡ some p
      → (r : ContactRequest) × (lookup p.request_id rs ≡ some r)
        × (r.status ≡ status_established)
        × (pair_key r.sender r.receiver ≡ k)
  pub met :
      (id : Text) (r : ContactRequest)
      → lookup id rs ≡ some r
      → r.status ≡ status_established
      → (p : ProtocolContactPair) × (lookup (pair_key r.sender r.receiver) cs ≡ some p)

abbrev pub StoreInv : FilePayload → Type 0
StoreInv d = Sound d.requests × Linked d.requests d.contacts

established-ne : status_established ≢ status_pending
unfolding text_beq
established-ne = text_beq-ne status_established status_pending refl

still_established :
    (q r : ContactRequest)
    → Later q r
    → q.status ≡ status_established
    → r.status ≡ status_established
still_established q r x e = (x.settled (λ p. established-ne (sym e ∙ p))).0 ∙ e

consent-Kept :
    (xs ys : Dict ContactRequest) (cs : Dict ProtocolContactPair)
    → Kept xs ys
    → Linked xs cs
    → (k : Text) (p : ProtocolContactPair) → lookup k cs ≡ some p
    → (r : ContactRequest) × (lookup p.request_id ys ≡ some r)
      × (r.status ≡ status_established)
      × (pair_key r.sender r.receiver ≡ k)
consent-Kept xs ys cs keep v k p m =
    let (q, n, e, f) = v.consent k p m in
    let (r, o, x) = keep p.request_id q n in
    (
      r,
      o,
      still_established q r x e,
      ap (λ t. pair_key t r.receiver) x.same_sender
          ∙ (ap (λ t. pair_key q.sender t) x.same_receiver ∙ f),
    )

met-Quiet :
    (xs ys : Dict ContactRequest) (cs : Dict ProtocolContactPair)
    → Carried Quiet xs ys
    → Linked xs cs
    → (id : Text) (r : ContactRequest) → lookup id ys ≡ some r
    → r.status ≡ status_established
    → (p : ProtocolContactPair) × (lookup (pair_key r.sender r.receiver) cs ≡ some p)
met-Quiet xs ys cs back v id r m e =
    let (q, n, both) = back id r m in
    let (x, quiet) = both in
    let (p, o) = v.met id q n (quiet e) in
    (
      p,
      ap (λ t. lookup (pair_key t r.receiver) cs) x.same_sender
          ∙ (ap (λ t. lookup (pair_key q.sender t) cs) x.same_receiver ∙ o),
    )

Quiet-refl : (q : ContactRequest) → Quiet q q
Quiet-refl q = (Later-refl q, λ e. e)

Linked-Quiet :
    (xs ys : Dict ContactRequest) (cs : Dict ProtocolContactPair)
    → Kept xs ys
    → Carried Quiet xs ys
    → Linked xs cs
    → Linked ys cs
Linked-Quiet xs ys cs keep back v = record {
  consent = consent-Kept xs ys cs keep v;
  met = met-Quiet xs ys cs back v;
}

accept-Linked :
    (now : ℤ) (id : Text) (q : ContactRequest) (xs : Dict ContactRequest)
    (cs : Dict ProtocolContactPair)
    → lookup id xs ≡ some q
    → q.request_id ≡ id
    → q.status ≡ status_pending
    → Linked xs cs
    → Linked
        (insert id (accepted q) xs)
        (insert (pair_key q.sender q.receiver) (contact_of now q) cs)
accept-Linked now id q xs cs m same p v =
    let key = pair_key q.sender q.receiver in
    let ys = insert id (accepted q) xs in
    record {
      consent = λ k c n. elim (lookup-insert_cases key k (contact_of now q) c cs n) [
        | inl (e, f) ↦ (
          accepted q,
          ap (λ t. lookup t.request_id ys) (sym f)
              ∙ (ap (λ t. lookup t ys) same ∙ lookup-insert_self id (accepted q) xs),
          refl,
          e,
        )
        | inr (_, o) ↦
            consent-Kept xs ys cs (insert-Kept id q (accepted q) xs m (accepted-Later q p)) v k c o
      ];
      met = λ j r n e. elim (lookup-insert_cases id j (accepted q) r xs n) [
        | inl (_, f) ↦
            subst
              (λ t.
                (c : ProtocolContactPair) × (lookup (pair_key t.sender t.receiver)
                    (insert key (contact_of now q) cs)
                  ≡ some c))
              f (contact_of now q, lookup-insert_self key (contact_of now q) cs)
        | inr (_, o) ↦
            let (c, x) = v.met j r o e in
            lookup-insert_found key (pair_key r.sender r.receiver) (contact_of now q) c cs x
      ];
    }

-- A new pending request is linked to nothing.
add-Linked :
    (r : ContactRequest) (xs : Dict ContactRequest) (cs : Dict ProtocolContactPair)
    → lookup r.request_id xs ≡ none
    → r.status ≡ status_pending
    → Linked xs cs
    → Linked (insert r.request_id r xs) cs
add-Linked r xs cs free p v = record {
  consent = λ k c m.
      let (q, n, e, f) = v.consent k c m in
      (
        q,
        lookup-insert_ne r.request_id c.request_id r xs
              (λ same. let x = ap (λ t. lookup t xs) same in cc (x, n, free))
            ∙ n,
        e,
        f,
      );
  met = λ j q n e. elim (lookup-insert_cases r.request_id j r q xs n) [
    | inl (_, f) ↦ absurd (established-ne (sym e ∙ (ap (λ t. t.status) (sym f) ∙ p)))
    | inr (_, o) ↦ v.met j q o e
  ];
}

over :
    (d e : FilePayload) (rs : Dict ContactRequest) (cs : Dict ProtocolContactPair)
    → e.requests ≡ rs
    → e.contacts ≡ cs
    → Sound rs
    → Linked rs cs
    → StoreInv e
over d e rs cs a b v w =
    (subst Sound (sym a) v, subst (λ t. Linked t e.contacts) (sym a) (subst (Linked rs) (sym b) w))

weaken : (xs ys : Dict ContactRequest) → Carried Quiet xs ys → Carried Later xs ys
weaken xs ys back j r m = let (q, n, both) = back j r m in (q, n, both.0)

Change-StoreInv : (d e : FilePayload) → Change d e → StoreInv d → StoreInv e
Change-StoreInv d e (stays a b) (v, w) = over d e d.requests d.contacts a b v w
Change-StoreInv d e (adds r p free lock pair a b) (v, w) =
    over d e (insert r.request_id r d.requests) d.contacts a b
      (insert-Sound r d.requests p lock pair v) (add-Linked r d.requests d.contacts free p w)
Change-StoreInv d e (edits id q r m x a b) (v, w) =
    let ys = insert id r d.requests in
    let back = insert-Carried Quiet Quiet-refl id q r d.requests m x in
    over d e ys d.contacts a b (Sound-Carried d.requests ys (weaken d.requests ys back) v)
      (Linked-Quiet d.requests ys d.contacts (insert-Kept id q r d.requests m x.0) back w)
Change-StoreInv d e (maps f x a b) (v, w) =
    let ys = map_values f d.requests in
    let back = map_values-Carried Quiet Quiet-refl f d.requests x in
    over d e ys d.contacts a b (Sound-Carried d.requests ys (weaken d.requests ys back) v)
      (Linked-Quiet d.requests ys d.contacts (map_values-Kept f d.requests (λ q. (x q).0)) back w)
Change-StoreInv d e (accepts now id q m p a b) (v, w) =
    let ys = insert id (accepted q) d.requests in
    let back =
      insert-Carried Later Later-refl id q (accepted q) d.requests m (accepted-Later q p) in
    over d e ys (insert (pair_key q.sender q.receiver) (contact_of now q) d.contacts) a b
      (Sound-Carried d.requests ys back v)
      (accept-Linked now id q d.requests d.contacts m (v.keyed id q m) p w)

-- Every sequence of calls, of which those that file a request file a pending one, keeps the invariant
-- of the store: requests are filed under their ids, with a status of the life cycle and its outcome; a
-- lock backs at most one request; a pair has at most one pending request; each contact comes from an
-- established request of its pair, and each established request has its contact.
pub run-StoreInv :
    (actions : List Action) (s : Store)
    → AllAdmitted actions
    → StoreInv s.data_of
    → StoreInv (run actions s).data_of
unfolding run
run-StoreInv [] s h v = v
run-StoreInv (a ∷ actions) s h v =
    run-StoreInv actions (act a s) h.1
      (Change-StoreInv s.data_of (act a s).data_of (act-Change a s h.0) v)
