-- ===== src/Deals/Case.antt =====
-- The invariant of one case of internal/deals/book.go, and how a case may change.
pub mod Keys
pub mod Growth
use platarium_gateway_go.Common.{
  ℕ, ◌≤◌, ◌≡◌, refl, sym, ◌∙◌, ◌≢◌, ◌⊎◌, inl, inr, Bool, true, false, Option, none, some, List, [],
  ◌∷◌, arith, length, ltb, if◌then◌else◌, ◌==◌, Bool-cases, Option-cases, subst, ap, not, ◌&&◌,
}
use platarium_gateway_go.Common.Text.{Text, text_eq, text_beq, text_beq_iff}
use platarium_gateway_go.Common.Dict.{Dict, lookup, has_key, insert, lookup-insert}
use platarium_gateway_go.Deals.Sets.{contains, Distinct}
use platarium_gateway_go.Deals.Panel.{Sha256, hash_commit}
use platarium_gateway_go.Deals.Quorum.{verdict_fulfilled, verdict_not_fulfilled, quorum_of}
use platarium_gateway_go.Deals.Quorum.Majority.{votes, votes-insert, quorum_of-votes}
use platarium_gateway_go.Deals.Book.{
  Case, Result, ok, err, set_from, text_or, settle_quorum, freeze_case,
}
use platarium_gateway_go.Deals.Methods.{
  reveal_case, store_reveal, commit_case, close_case, fresh_case,
}
use Keys.{keys, insert-Distinct}

abbrev pub IsVerdict : Text → Type 0
IsVerdict v = (v ≡ verdict_fulfilled) ⊎ (v ≡ verdict_not_fulfilled)

-- A revealed verdict is the one that its author had committed to.
abbrev pub Backed : Sha256 → Case → Text → Text → Type 0
Backed sha c k v =
    IsVerdict v × (nonce : Text) × (lookup k c.commits ≡ some (hash_commit sha v nonce))

pub record CaseInv (sha : Sha256) (c : Case) : Type 0 where
  pub seats : length c.panel ≡ 5
  pub apart : Distinct c.panel
  pub members : c.panel_set ≡ set_from [] c.panel
  pub committed : (k h : Text) → lookup k c.commits ≡ some h → contains k c.panel_set ≡ true
  pub backed : (k v : Text) → lookup k c.reveals ≡ some v → Backed sha c k v
  pub once : Distinct (keys c.reveals)
  pub decided : c.quorum ≢ [] → (c.frozen ≡ true) × (3 ≤ votes c.quorum c.reveals)

-- Settling either changes nothing or writes a verdict that has three votes.
pub settle_quorum_cases :
    (c : Case)
    → (settle_quorum c ≡ c)
      ⊎ ((q : Text) × (c.quorum ≡ [])
          × (quorum_of c.reveals ≡ some q)
          × (settle_quorum c ≡ record c { quorum = q }))
unfolding settle_quorum
settle_quorum_cases c = elim (Bool-cases (text_beq c.quorum [])) [
  | inl e ↦ elim (Option-cases (quorum_of c.reveals)) [
    | inl n ↦ inl (rw (e, n))
    | inr (q, m) ↦ inr (q, (text_beq_iff c.quorum []).0 e, m, rw (e, m))
  ]
  | inr n ↦ inl (rw n)
]

-- What a commitment that is taken has passed, and the case that it leaves.
pub commit_case-inv :
    (key hash : Text) (c d : Case)
    → commit_case key hash c ≡ ok d
    → (contains key c.panel_set ≡ true)
      × (lookup key c.commits ≡ none)
      × (hash ≢ [])
      × (d ≡ record c { commits = insert key hash c.commits })
unfolding commit_case
commit_case-inv key hash c d e = ground (arith, text_beq_iff hash [])

-- An entry under another key stays.
pub kept_by_insert :
    {V : Type 0} (k j : Text) (v : V) (d : Dict V) (w : V)
    → lookup k d ≡ none
    → lookup j d ≡ some w
    → lookup j (insert k v d) ≡ some w
kept_by_insert k j v d w n m = elim (Bool-cases (text_beq k j)) [
  | inl e ↦ let p = (text_beq_iff k j).0 e in let n' = subst (λ t. lookup t d ≡ none) p n in cc
  | inr e ↦ rw (lookup-insert k j v d, e) m
]

module _ (sha : Sha256) where
  pub settle_quorum-CaseInv :
      (c : Case) → c.frozen ≡ true → CaseInv sha c → CaseInv sha (settle_quorum c)
  settle_quorum-CaseInv c f v = elim (settle_quorum_cases c) [
    | inl e ↦ subst (CaseInv sha) (sym e) v
    | inr (q, _, m, e) ↦ subst (CaseInv sha) (sym e) (record {
      seats = v.seats;
      apart = v.apart;
      members = v.members;
      committed = v.committed;
      backed = v.backed;
      once = v.once;
      decided = λ _. (f, quorum_of-votes c.reveals q m);
    })
  ]

  freeze-CaseInv : (c : Case) → CaseInv sha c → CaseInv sha (record c { frozen = true })
  freeze-CaseInv c v = record {
    seats = v.seats;
    apart = v.apart;
    members = v.members;
    committed = v.committed;
    backed = v.backed;
    once = v.once;
    decided = λ n. (refl, (v.decided n).1);
  }

  pub freeze_case-CaseInv : (h : ℕ) (c : Case) → CaseInv sha c → CaseInv sha (freeze_case h c)
  unfolding freeze_case
  freeze_case-CaseInv h c v = elim (Bool-cases (not c.frozen && ltb c.deadline h)) [
    | inl e ↦ rw e (settle_quorum-CaseInv _ refl (freeze-CaseInv c v))
    | inr e ↦ rw e v
  ]

  settle_if_frozen-CaseInv :
      (c : Case) → CaseInv sha c → CaseInv sha (if c.frozen then settle_quorum c else c)
  settle_if_frozen-CaseInv c v = go c.frozen refl
    where
      go : (b : Bool) → c.frozen ≡ b → CaseInv sha (if b then settle_quorum c else c)
      go true f = settle_quorum-CaseInv c f v
      go false f = v

  pub close_case-CaseInv : (h : ℕ) (c : Case) → CaseInv sha c → CaseInv sha (close_case h c)
  unfolding close_case
  close_case-CaseInv h c v = elim (Bool-cases (not c.frozen && ltb c.deadline h)) [
    | inl e ↦ rw e (settle_quorum-CaseInv _ refl (freeze-CaseInv c v))
    | inr e ↦ rw e (settle_if_frozen-CaseInv c v)
  ]

  pub commit_case-CaseInv :
      (key hash : Text) (c d : Case) → commit_case key hash c ≡ ok d → CaseInv sha c → CaseInv sha d
  commit_case-CaseInv key hash c d e v =
      let (on, new, _, same) = commit_case-inv key hash c d e in
      subst (CaseInv sha) (sym same) (record {
        seats = v.seats;
        apart = v.apart;
        members = v.members;
        committed = λ k h m.
            ground
              (arith, lookup-insert key k hash c.commits, text_beq_iff key k, v.committed k h, on);
        backed = λ k w m.
            let (i, nonce, l) = v.backed k w m in
            (i, nonce, kept_by_insert key k hash c.commits (hash_commit sha w nonce) new l);
        once = v.once;
        decided = v.decided;
      })

  -- What a reveal that is taken has passed, and the case that it leaves.
  pub reveal_case-inv :
      (key verdict nonce : Text) (c d : Case)
      → reveal_case sha key verdict nonce c ≡ ok d
      → (contains key c.panel_set ≡ true)
        × (lookup key c.commits ≡ some (hash_commit sha verdict nonce))
        × (lookup key c.reveals ≡ none)
        × (d ≡ store_reveal key verdict c)
  unfolding reveal_case
  reveal_case-inv key verdict nonce c d e = elim (Option-cases (lookup key c.commits)) [
    | inl n ↦ ground arith
    | inr (want, m) ↦ ground (arith, text_beq_iff want (hash_commit sha verdict nonce))
  ]

  reveal-CaseInv :
      (key verdict nonce : Text) (c : Case)
      → IsVerdict verdict
      → lookup key c.commits ≡ some (hash_commit sha verdict nonce)
      → lookup key c.reveals ≡ none
      → CaseInv sha c
      → CaseInv sha (record c { reveals = insert key verdict c.reveals })
  reveal-CaseInv key verdict nonce c i m n v = record {
    seats = v.seats;
    apart = v.apart;
    members = v.members;
    committed = v.committed;
    backed = λ k w l. elim (Bool-cases (text_beq key k)) [
      | inl e ↦
          let p = (text_beq_iff key k).0 e in
          let q : verdict ≡ w = ground (arith, lookup-insert key k verdict c.reveals) in
          subst (λ t. Backed sha c t w) p (subst (λ t. Backed sha c key t) q (i, nonce, m))
      | inr e ↦ v.backed k w (sym (rw (lookup-insert key k verdict c.reveals, e)) ∙ l)
    ];
    once = insert-Distinct key verdict c.reveals v.once;
    decided = λ q.
        let (f, three) = v.decided q in
        (f, omega (arith, votes-insert c.quorum key verdict c.reveals n));
  }

  store_reveal-CaseInv :
      (key verdict : Text) (c : Case)
      → CaseInv sha (record c { reveals = insert key verdict c.reveals })
      → CaseInv sha (store_reveal key verdict c)
  unfolding store_reveal
  store_reveal-CaseInv key verdict c v = go (c.frozen) refl (text_beq c.quorum []) refl
    where
      c' : Case
      c' = record c { reveals = insert key verdict c.reveals }

      go :
          (f : Bool)
          → c.frozen ≡ f
          → (b : Bool) → text_beq c.quorum [] ≡ b
          → CaseInv sha (if f && b then settle_quorum c' else c')
      go true e true _ = settle_quorum-CaseInv c' e v
      go true _ false _ = v
      go false _ b _ = v

  pub reveal_case-CaseInv :
      (key verdict nonce : Text) (c d : Case)
      → IsVerdict verdict
      → reveal_case sha key verdict nonce c ≡ ok d
      → CaseInv sha c
      → CaseInv sha d
  reveal_case-CaseInv key verdict nonce c d i e v =
      let (_, m, n, same) = reveal_case-inv key verdict nonce c d e in
      subst (CaseInv sha) (sym same)
        (store_reveal-CaseInv key verdict c (reveal-CaseInv key verdict nonce c i m n v))
