-- ===== src/Contacts/Sound.antt =====
-- Soundness of the requests of internal/contacteconomy/store.go, and that what a call does keeps it.
use platarium_gateway_go.Common.{
  ◌≡◌, sym, ◌∙◌, ◌≢◌, inl, inr, true, false, ◌&&◌, some, [], ◌∷◌, ap, subst, arith, Bool-cases,
  some_inj,
}
use platarium_gateway_go.Common.Text.{
  Text, text_eq, text_beq, text_beq_iff, equal_fold, equal_fold_iff,
}
use platarium_gateway_go.Common.Dict.{Dict, lookup, insert, lookup-insert_cases}
use platarium_gateway_go.Contacts.Types.{ContactRequest, status_pending}
use platarium_gateway_go.Contacts.Requests.{lock_taken, pair_taken}
use platarium_gateway_go.Contacts.Life.{IsLive, Later}
use platarium_gateway_go.Contacts.Carried.{Carried}

-- Each request is filed under its id and has a status of the life cycle, a lock backs one request,
-- and an ordered pair has one pending request.
pub record Sound (rs : Dict ContactRequest) : Type 0 where
  pub keyed : (id : Text) (r : ContactRequest) → lookup id rs ≡ some r → r.request_id ≡ id
  pub live : (id : Text) (r : ContactRequest) → lookup id rs ≡ some r → IsLive r
  pub locks :
      (i j : Text) (q r : ContactRequest)
      → lookup i rs ≡ some q
      → lookup j rs ≡ some r
      → q.lock_tx_hash ≡ r.lock_tx_hash
      → i ≡ j
  pub pairs :
      (i j : Text) (q r : ContactRequest)
      → lookup i rs ≡ some q
      → lookup j rs ≡ some r
      → q.status ≡ status_pending
      → r.status ≡ status_pending
      → equal_fold q.sender r.sender ≡ true
      → equal_fold q.receiver r.receiver ≡ true
      → i ≡ j

pub Sound-Carried : (xs ys : Dict ContactRequest) → Carried Later xs ys → Sound xs → Sound ys
Sound-Carried xs ys back v = record {
  keyed = λ id r m. let (q, n, x) = back id r m in x.same_id ∙ v.keyed id q n;
  live = λ id r m. let (q, n, x) = back id r m in x.live (v.live id q n);
  locks = λ i j q r m n e.
      let (q', m', x) = back i q m in
      let (r', n', y) = back j r n in v.locks i j q' r' m' n' (sym x.same_lock ∙ (e ∙ y.same_lock));
  pairs = λ i j q r m n a b e f.
      let (q', m', x) = back i q m in
      let (r', n', y) = back j r n in
      v.pairs i j q' r' m' n' (x.was_pending a) (y.was_pending b)
        (cc (e, x.same_sender, y.same_sender)) (cc (f, x.same_receiver, y.same_receiver));
}

lock_taken-found :
    (h id : Text) (r : ContactRequest) (d : Dict ContactRequest)
    → lock_taken h d ≡ false
    → lookup id d ≡ some r
    → r.lock_tx_hash ≢ h
unfolding lock_taken lookup
lock_taken-found h id r [] f m = cc
lock_taken-found h id r ((k, q) ∷ d) f m =
    ground (arith, lock_taken-found h id r d, text_beq_iff q.lock_tx_hash h)

pair_taken-head :
    (from to k : Text) (q : ContactRequest) (d : Dict ContactRequest)
    → pair_taken from to ((k, q) ∷ d) ≡ false
    → (q.status ≡ status_pending → (equal_fold q.sender from && equal_fold q.receiver to) ≡ false)
      × (pair_taken from to d ≡ false)
unfolding pair_taken
pair_taken-head from to k q d f =
    (λ p. ground (arith, (text_beq_iff q.status status_pending).1 p), ground arith)

lookup-hit :
    (k id : Text) (q : ContactRequest) (d : Dict ContactRequest)
    → text_beq k id ≡ true
    → lookup id ((k, q) ∷ d) ≡ some q
unfolding lookup
lookup-hit k id q d e = rw e

lookup-miss :
    (k id : Text) (q : ContactRequest) (d : Dict ContactRequest)
    → text_beq k id ≡ false
    → lookup id ((k, q) ∷ d) ≡ lookup id d
unfolding lookup
lookup-miss k id q d e = rw e

pair_taken-found :
    (from to id : Text) (r : ContactRequest) (d : Dict ContactRequest)
    → pair_taken from to d ≡ false
    → lookup id d ≡ some r
    → r.status ≡ status_pending
    → (equal_fold r.sender from && equal_fold r.receiver to) ≡ false
unfolding lookup
pair_taken-found from to id r [] f m p = cc
pair_taken-found from to id r ((k, q) ∷ d) f m p =
    let (head, tail) = pair_taken-head from to k q d f in
    elim (Bool-cases (text_beq k id)) [
      | inl e ↦
          let same : q ≡ r = some_inj (sym (lookup-hit k id q d e) ∙ m) in
          subst
            (λ t.
              t.status ≡ status_pending
              → (equal_fold t.sender from && equal_fold t.receiver to) ≡ false)
            same head p
      | inr e ↦ pair_taken-found from to id r d tail (sym (lookup-miss k id q d e) ∙ m) p
    ]

-- A request that `CreateRequest` files.
pub insert-Sound :
    (r : ContactRequest) (xs : Dict ContactRequest)
    → r.status ≡ status_pending
    → lock_taken r.lock_tx_hash xs ≡ false
    → pair_taken r.sender r.receiver xs ≡ false
    → Sound xs
    → Sound (insert r.request_id r xs)
insert-Sound r xs p lock pair v = record {
  keyed = λ id q m. elim (lookup-insert_cases r.request_id id r q xs m) [
    | inl (e, f) ↦ ap (λ t. t.request_id) (sym f) ∙ e
    | inr (_, n) ↦ v.keyed id q n
  ];
  live = λ id q m. elim (lookup-insert_cases r.request_id id r q xs m) [
    | inl (e, f) ↦ subst IsLive f (inl p)
    | inr (_, n) ↦ v.live id q n
  ];
  locks = λ i j q t m n e. elim (lookup-insert_cases r.request_id i r q xs m) [
    | inl (a, b) ↦ elim (lookup-insert_cases r.request_id j r t xs n) [
      | inl (c, d) ↦ sym a ∙ c
      | inr (_, o) ↦
          absurd (
            lock_taken-found r.lock_tx_hash j t xs lock o
              (sym e ∙ ap (λ y. y.lock_tx_hash) (sym b)))
    ]
    | inr (_, o) ↦ elim (lookup-insert_cases r.request_id j r t xs n) [
      | inl (c, d) ↦
          absurd
            (lock_taken-found r.lock_tx_hash i q xs lock o (e ∙ ap (λ y. y.lock_tx_hash) (sym d)))
      | inr (_, u) ↦ v.locks i j q t o u e
    ]
  ];
  pairs = λ i j q t m n a b e f. elim (lookup-insert_cases r.request_id i r q xs m) [
    | inl (c, d) ↦ elim (lookup-insert_cases r.request_id j r t xs n) [
      | inl (g, h) ↦ sym c ∙ g
      | inr (_, o) ↦
          let x = pair_taken-found r.sender r.receiver j t xs pair o b in
          absurd (
            clash t q
              (subst
                (λ y. (equal_fold t.sender y.sender && equal_fold t.receiver y.receiver) ≡ false) d
                x)
              (equal_fold-flip q.sender t.sender e) (equal_fold-flip q.receiver t.receiver f))
    ]
    | inr (_, o) ↦ elim (lookup-insert_cases r.request_id j r t xs n) [
      | inl (g, h) ↦
          let x = pair_taken-found r.sender r.receiver i q xs pair o a in
          absurd (
            clash q t
              (subst
                (λ y. (equal_fold q.sender y.sender && equal_fold q.receiver y.receiver) ≡ false) h
                x)
              e f)
      | inr (_, u) ↦ v.pairs i j q t o u a b e f
    ]
  ];
}
  where
    clash :
        (x y : ContactRequest)
        → (equal_fold x.sender y.sender && equal_fold x.receiver y.receiver) ≡ false
        → equal_fold x.sender y.sender ≡ true
        → equal_fold x.receiver y.receiver ≡ true
        → ⊥
    clash x y n a b = ground arith

    equal_fold-flip : (x y : Text) → equal_fold x y ≡ true → equal_fold y x ≡ true
    equal_fold-flip x y e = (equal_fold_iff y x).1 (sym ((equal_fold_iff x y).0 e))
