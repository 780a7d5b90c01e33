-- ===== src/Deals/Rulings.antt =====
-- What a ruling of `Quorum` (internal/deals/book.go) rests on.
use platarium_gateway_go.Common.{
  ℕ, ◌≤◌, ◌<◌, ◌≡◌, sym, ◌∙◌, ◌≢◌, ◌⊎◌, inl, inr, true, false, ◌||◌, not, Option, none, some, List,
  [], ◌∷◌, arith, length, if◌then◌else◌, ◌==◌, Bool-cases, Option-cases, subst, ap,
}
use platarium_gateway_go.Common.Text.{Text, text_eq, text_beq, text_beq_iff}
use platarium_gateway_go.Common.Dict.{Dict, lookup, lookup-insert_self}
use platarium_gateway_go.Deals.Sets.{contains, Distinct, length-le_of_subset}
use platarium_gateway_go.Deals.Panel.{Sha256}
use platarium_gateway_go.Deals.Quorum.{
  verdict_fulfilled, verdict_not_fulfilled, outcome_fulfilled, outcome_not_fulfilled, quorum_of,
  core_outcome,
}
use platarium_gateway_go.Deals.Quorum.Majority.{votes, votes_disjoint, quorum_of-majority}
use platarium_gateway_go.Deals.Book.{Case, Book, set_from}
use platarium_gateway_go.Deals.Methods.{close_case, quorum}
use platarium_gateway_go.Deals.Case.{IsVerdict, CaseInv, close_case-CaseInv}
use platarium_gateway_go.Deals.Case.Keys.{keys, contains-keys_found, lookup_of_key, length-keys}
use platarium_gateway_go.Deals.Filed.{BookInv}

contains-set_from :
    (k : Text) (seen ks : List Text)
    → contains k (set_from seen ks) ≡ true
    → (contains k seen || contains k ks) ≡ true
unfolding contains set_from
contains-set_from k seen [] h = ground arith
contains-set_from k seen (x ∷ ks) h =
    ground (arith, contains-set_from k seen ks, contains-set_from k (x ∷ seen) ks, text_beq_iff x k)

-- A verdict with a vote stands in the reveals.
voter :
    (v : Text) (d : Dict Text)
    → Distinct (keys d)
    → 1 ≤ votes v d
    → (k : Text) × (lookup k d ≡ some v)
unfolding votes lookup
voter v [] u h = absurd (omega arith)
voter v ((k, w) ∷ d) u h = elim (Bool-cases (text_beq w v)) [
  | inl e ↦ (k, ground (arith, text_beq_iff w v, text_beq_iff k k))
  | inr n ↦
      let (j, m) = voter v d u.1 (ground arith) in
      (
        j,
        elim (Bool-cases (text_beq k j)) [
          | inl e ↦
              let p = (text_beq_iff k j).0 e in
              let q = subst (λ t. contains t (keys d) ≡ false) p u.0 in
              let r = contains-keys_found j d v m in cc
          | inr o ↦ rw (o, lookup) m
        ],
      )
]

seated :
    (k : Text) (panel : List Text) → contains k (set_from [] panel) ≡ true → contains k panel ≡ true
unfolding contains
seated k panel h = contains-set_from k [] panel h

module _ (sha : Sha256) where
  -- A panel of five reveals at most five times.
  pub length-reveals : (c : Case) → CaseInv sha c → length c.reveals ≤ 5
  length-reveals c v =
      let sub : length (keys c.reveals) ≤ length c.panel =
        length-le_of_subset (keys c.reveals) c.panel v.once λ k m.
          let (w, e) = lookup_of_key k c.reveals m in
          let (_, nonce, l) = v.backed k w e in
          let on = subst (λ s. contains k s ≡ true) v.members (v.committed k _ l) in
          seated k c.panel on in
      omega (arith, sub, length-keys c.reveals, v.seats)

  IsVerdict-votes : (c : Case) (v : Text) → CaseInv sha c → 3 ≤ votes v c.reveals → IsVerdict v
  IsVerdict-votes c v w h =
      let (k, m) = voter v c.reveals w.once (omega arith) in (w.backed k v m).0

  -- What `Quorum` answers about a case that it has closed.
  abbrev answer : Case → Option Text
  answer c = if not c.frozen || c.quorum == [] then none else some (core_outcome c.quorum)

  quorum-found :
      (id : Text) (b : Book) (c : Case)
      → lookup id b.cases ≡ some c
      → (lookup id (quorum id b).0.cases ≡ some (close_case b.height c))
        × ((quorum id b).1 ≡ answer (close_case b.height c))
  unfolding quorum
  quorum-found id b c m =
      (rw (m, quorum) (lookup-insert_self id (close_case b.height c) b.cases), rw (m, quorum))

  quorum-unknown : (id : Text) (b : Book) → lookup id b.cases ≡ none → (quorum id b).1 ≡ none
  unfolding quorum
  quorum-unknown id b n = rw (n, quorum)

  answer-inv :
      (c : Case) (o : Text)
      → answer c ≡ some o
      → (c.frozen ≡ true) × (c.quorum ≢ []) × (o ≡ core_outcome c.quorum)
  answer-inv c o e = ground (arith, text_beq_iff c.quorum [])

  core_outcome_cases :
      (v : Text)
      → IsVerdict v
      → ((v ≡ verdict_fulfilled) × (core_outcome v ≡ outcome_fulfilled))
        ⊎ ((v ≡ verdict_not_fulfilled) × (core_outcome v ≡ outcome_not_fulfilled))
  unfolding core_outcome
  core_outcome_cases v (inl e) = inl (e, rw e)
  core_outcome_cases v (inr e) = inr (e, rw e)

  -- A ruling of a book that keeps its invariant comes from a frozen case in which at least three of at
  -- most five reveals are one verdict, and is the outcome of that verdict.
  pub quorum_sound :
      (id : Text) (b : Book) (o : Text)
      → BookInv sha b
      → (quorum id b).1 ≡ some o
      → (c : Case) × (v : Text) × (lookup id (quorum id b).0.cases ≡ some c)
        × (c.frozen ≡ true)
        × (3 ≤ votes v c.reveals)
        × (length c.reveals ≤ 5)
        × (((v ≡ verdict_fulfilled) × (o ≡ outcome_fulfilled))
            ⊎ ((v ≡ verdict_not_fulfilled) × (o ≡ outcome_not_fulfilled)))
  quorum_sound id b o inv e = elim (Option-cases (lookup id b.cases)) [
    | inl n ↦ let x = quorum-unknown id b n in cc
    | inr (c, m) ↦
        let c' = close_case b.height c in
        let v = close_case-CaseInv sha b.height c (inv.sound id c m).0 in
        let (found, ans) = quorum-found id b c m in
        let (f, n, same) = answer-inv c' o (sym ans ∙ e) in
        let three = (v.decided n).1 in
        (
          c',
          c'.quorum,
          found,
          f,
          three,
          length-reveals c' v,
          subst
              (λ t.
                ((c'.quorum ≡ verdict_fulfilled) × (t ≡ outcome_fulfilled))
                ⊎ ((c'.quorum ≡ verdict_not_fulfilled) × (t ≡ outcome_not_fulfilled)))
              (sym same) (core_outcome_cases c'.quorum (IsVerdict-votes c' c'.quorum v three)),
        )
  ]

  close_case-decides :
      (h : ℕ) (c : Case) (w : Text)
      → (c.frozen ≡ true) ⊎ (c.deadline < h)
      → quorum_of c.reveals ≡ some w
      → w ≢ []
      → ((close_case h c).frozen ≡ true)
        × ((close_case h c).quorum ≢ [])
        × ((close_case h c).reveals ≡ c.reveals)
  unfolding close_case
  close_case-decides h c w due e n = ground (arith, text_beq_iff c.quorum [])

  -- Two verdicts cannot both have three of five votes.
  one_majority : (v w : Text) (d : Dict Text) → length d ≤ 5 → 3 ≤ votes v d → 3 ≤ votes w d → v ≡ w
  one_majority v w d five a b = elim (Bool-cases (text_beq v w)) [
    | inl e ↦ (text_beq_iff v w).0 e
    | inr n ↦
        absurd
          (omega (arith, votes_disjoint v w d (λ p. let t = (text_beq_iff v w).1 p in cc (t, n))))
  ]

  -- In a book that keeps its invariant, once the deadline of a case has passed, or it is frozen, three
  -- reveals of one verdict are a ruling: the outcome of that verdict.
  pub quorum_complete :
      (id : Text) (b : Book) (c : Case) (v : Text)
      → BookInv sha b
      → lookup id b.cases ≡ some c
      → (c.frozen ≡ true) ⊎ (c.deadline < b.height)
      → 3 ≤ votes v c.reveals
      → (quorum id b).1 ≡ some (core_outcome v)
  quorum_complete id b c v inv m due three =
      let w = (inv.sound id c m).0 in
      let five = length-reveals c w in
      let won = (quorum_of-majority c.reveals v five).1 three in
      let c' = close_case b.height c in
      let (f, n, same) =
        close_case-decides b.height c v due won (full v (IsVerdict-votes c v w three)) in
      let w' = close_case-CaseInv sha b.height c w in
      let three' = subst (λ d. 3 ≤ votes c'.quorum d) same (w'.decided n).1 in
      let q = one_majority c'.quorum v c.reveals five three' three in
      (quorum-found id b c m).1 ∙ (answer-some c' f n ∙ ap (λ t. some (core_outcome t)) q)
    where
      full : (v : Text) → IsVerdict v → v ≢ []
      full v (inl e) p = cc
      full v (inr e) p = cc

      answer-some :
          (c : Case) → c.frozen ≡ true → c.quorum ≢ [] → answer c ≡ some (core_outcome c.quorum)
      answer-some c f n = ground (arith, text_beq_iff c.quorum [])
