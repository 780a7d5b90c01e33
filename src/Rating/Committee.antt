-- ===== src/Rating/Committee.antt =====
-- Who sits on a committee that `SelectCommittee` (internal/rating/registry.go) chooses.
use Prim.Native.Nat.{min}
use platarium_gateway_go.Common.{
  ℕ, zero, suc, ◌≤◌, ◌≡◌, refl, sym, ◌∙◌, ap, subst, ◌⊎◌, inl, inr, Bool, true, false, List, [],
  ◌∷◌, length, arith, Bool-cases, if◌then◌else◌, leb,
}
use platarium_gateway_go.Common.Int.{ℤ, pos, leb_ℤ, ltb_ℤ, add64}
use platarium_gateway_go.Common.Text.{Text, text_eq, text_beq, text_beq_iff, text_beq_refl}
use platarium_gateway_go.Deals.Sets.{contains, Distinct, contains-get_or}
use platarium_gateway_go.Rating.Registry.{Registry}
use platarium_gateway_go.Rating.Selection.{
  Rand, may_serve, filter_eligible_candidates, without, total_weight, find_roll, roll_for,
  select_by_weight, draw_seats, select_committee, weight_at_least_one,
}
use platarium_gateway_go.Rating.Candidates.{
  AllServe, contains-filter, filter-contains, filter-Distinct, contains-without, without-gone,
  filter-AllServe, filter-same, without-AllServe, without-Distinct, length-without,
}

head-or_later :
    (b : Bool) (t id : Text) (ids : List Text)
    → (t ≡ id) ⊎ (contains t ids ≡ true)
    → contains (if b then id else t) (id ∷ ids) ≡ true
unfolding contains
head-or_later true t id ids h = ground (arith, text_beq_refl id)
head-or_later false t id ids (inl e) = ground (arith, (text_beq_iff id t).1 (sym e))
head-or_later false t id ids (inr e) = ground arith

-- The roll falls on a candidate, or on what follows the loop.
find_roll-member :
    (r : Registry) (roll sum : ℤ) (last : Text) (ids : List Text)
    → (find_roll r roll sum last ids ≡ last) ⊎ (contains (find_roll r roll sum last ids) ids ≡ true)
unfolding find_roll
find_roll-member r roll sum last [] = inl refl
find_roll-member r roll sum last (id ∷ ids) =
    let sum' = add64 sum (weight_at_least_one r id) in
    inr (
      head-or_later (ltb_ℤ roll sum') (find_roll r roll sum' id ids) id ids
        (find_roll-member r roll sum' id ids))

find_roll-first :
    (r : Registry) (roll : ℤ) (last id : Text) (ids : List Text)
    → contains (find_roll r roll (pos 0) last (id ∷ ids)) (id ∷ ids) ≡ true
unfolding find_roll
find_roll-first r roll last id ids =
    let sum' = add64 (pos 0) (weight_at_least_one r id) in
    head-or_later (ltb_ℤ roll sum') (find_roll r roll sum' id ids) id ids
      (find_roll-member r roll sum' id ids)

roll_for-member :
    (rand : Rand) (draw : ℕ) (r : Registry) (id : Text) (ids : List Text)
    → contains (roll_for rand draw r (id ∷ ids)) (id ∷ ids) ≡ true
unfolding roll_for
roll_for-member rand draw r id ids =
    elim (Bool-cases (leb_ℤ (total_weight r (pos 0) (id ∷ ids)) (pos 0))) [
      | inl e ↦ rw e (
          contains-get_or (rand.intn draw (length (id ∷ ids))) (id ∷ ids) []
            (rand.intn-lt draw (length (id ∷ ids)) (omega arith)))
      | inr e ↦
          rw e (find_roll-first r (rand.int63n draw (total_weight r (pos 0) (id ∷ ids))) [] id ids)
    ]

select_by_weight-roll :
    (rand : Rand) (draw : ℕ) (r : Registry) (id x : Text) (xs : List Text)
    → filter_eligible_candidates r (id ∷ x ∷ xs) ≡ id ∷ x ∷ xs
    → select_by_weight rand draw r (id ∷ x ∷ xs) ≡ roll_for rand draw r (id ∷ x ∷ xs)
unfolding select_by_weight
select_by_weight-roll rand draw r id x xs s = rw (s, select_by_weight)

single : (id : Text) → contains id (id ∷ []) ≡ true
unfolding contains
single id = ground (arith, text_beq_refl id)

select_by_weight-member :
    (rand : Rand) (draw : ℕ) (r : Registry) (id : Text) (ids : List Text)
    → AllServe r (id ∷ ids)
    → contains (select_by_weight rand draw r (id ∷ ids)) (id ∷ ids) ≡ true
unfolding select_by_weight
select_by_weight-member rand draw r id [] s = single id
select_by_weight-member rand draw r id (x ∷ xs) s =
    subst (λ t. contains t (id ∷ x ∷ xs) ≡ true)
      (sym (select_by_weight-roll rand draw r id x xs (filter-same r (id ∷ x ∷ xs) s)))
      (roll_for-member rand draw r id (x ∷ xs))

-- What the loop may still choose from.
record Remaining (r : Registry) (ids : List Text) : Type 0 where
  serve : AllServe r ids
  apart : Distinct ids
  named : contains [] ids ≡ false

without-Remaining :
    (r : Registry) (p : Text) (ids : List Text) → Remaining r ids → Remaining r (without p ids)
without-Remaining r p ids v = record {
  serve = without-AllServe r p ids v.serve;
  apart = without-Distinct p ids v.apart;
  named = contains-without p [] ids v.named;
}

-- The next node that the loop picks is one of those that remain, and has a name.
picked_of :
    (rand : Rand) (draw : ℕ) (r : Registry) (ids : List Text)
    → 1 ≤ length ids
    → Remaining r ids
    → (contains (select_by_weight rand draw r ids) ids ≡ true)
      × (text_beq (select_by_weight rand draw r ids) [] ≡ false)
picked_of rand draw r [] h v = absurd (omega arith)
picked_of rand draw r (id ∷ ids) h v =
    let m = select_by_weight-member rand draw r id ids v.serve in
    let p = select_by_weight rand draw r (id ∷ ids) in
    (
      m,
      elim (Bool-cases (text_beq p [])) [
        | inr e ↦ e
        | inl e ↦
            let q = subst (λ t. contains t (id ∷ ids) ≡ true) ((text_beq_iff p []).0 e) m in
            cc (q, v.named)
      ],
    )

draw_seats-length :
    (rand : Rand) (r : Registry) (seats draw : ℕ) (ids : List Text)
    → seats ≤ length ids
    → Remaining r ids
    → length (draw_seats rand r seats draw ids) ≡ seats
unfolding draw_seats
draw_seats-length rand r zero draw ids h v = refl
draw_seats-length rand r (suc seats) draw ids h v =
    let (m, named) = picked_of rand draw r ids (omega arith) v in
    let p = select_by_weight rand draw r ids in
    let n = length-without p ids v.apart m in
    rw named (
      ap suc (
        draw_seats-length rand r seats (suc draw) (without p ids) (omega (arith, n))
          (without-Remaining r p ids v)))

draw_seats-none :
    (rand : Rand) (r : Registry) (seats draw : ℕ) (ids : List Text) (k : Text)
    → seats ≤ length ids
    → Remaining r ids
    → contains k ids ≡ false
    → contains k (draw_seats rand r seats draw ids) ≡ false
unfolding draw_seats contains
draw_seats-none rand r zero draw ids k h v o = refl
draw_seats-none rand r (suc seats) draw ids k h v o =
    let (m, named) = picked_of rand draw r ids (omega arith) v in
    let p = select_by_weight rand draw r ids in
    let n = length-without p ids v.apart m in
    let rest =
      draw_seats-none rand r seats (suc draw) (without p ids) k (omega (arith, n))
        (without-Remaining r p ids v) (contains-without p k ids o) in
    let ne : text_beq p k ≡ false = differ p k ids m o in rw (named, ne) rest
  where
    differ :
        (p k : Text) (ids : List Text)
        → contains p ids ≡ true
        → contains k ids ≡ false
        → text_beq p k ≡ false
    differ p k ids m o = elim (Bool-cases (text_beq p k)) [
      | inr e ↦ e
      | inl e ↦ let q = subst (λ t. contains t ids ≡ true) ((text_beq_iff p k).0 e) m in cc (q, o)
    ]

draw_seats-Distinct :
    (rand : Rand) (r : Registry) (seats draw : ℕ) (ids : List Text)
    → seats ≤ length ids
    → Remaining r ids
    → Distinct (draw_seats rand r seats draw ids)
unfolding draw_seats
draw_seats-Distinct rand r zero draw ids h v = tt
draw_seats-Distinct rand r (suc seats) draw ids h v =
    let (m, named) = picked_of rand draw r ids (omega arith) v in
    let p = select_by_weight rand draw r ids in
    let n = length-without p ids v.apart m in
    let w = without-Remaining r p ids v in
    rw named (
      draw_seats-none rand r seats (suc draw) (without p ids) p (omega (arith, n)) w
          (without-gone p ids),
      draw_seats-Distinct rand r seats (suc draw) (without p ids) (omega (arith, n)) w,
    )

-- Of candidates that are distinct and named, while the registry does not change, a committee of the asked
-- size, or of all those that may serve if they are fewer, is chosen: it has no one twice, and each member
-- is a candidate that is not suspended, whatever the rolls.
pub select_committee-seats :
    (rand : Rand) (r : Registry) (ids : List Text) (count : ℕ)
    → Distinct ids
    → contains [] ids ≡ false
    → let committee = select_committee rand r ids (pos count) in
      (length committee ≡ min count (length (filter_eligible_candidates r ids)))
      × Distinct committee
      × ((k : Text)
          → contains k committee ≡ true
          → (contains k ids ≡ true) × (may_serve r k ≡ true))
unfolding select_committee
select_committee-seats rand r ids count u named =
    let e = filter_eligible_candidates r ids in
    let v : Remaining r e = record {
      serve = filter-AllServe r ids;
      apart = filter-Distinct r ids u;
      named = filter-contains r [] ids named;
    } in
    elim (Bool-cases (leb (length e) count)) [
      | inl all ↦
          let few : length e ≤ count = ground arith in
          rw all (omega (arith, few), v.apart, λ k m. contains-filter r k ids m)
      | inr few ↦
          let fits : count ≤ length e = ground arith in
          rw few (
            draw_seats-length rand r count 0 e fits v ∙ omega arith,
            draw_seats-Distinct rand r count 0 e fits v,
            λ k m. elim (Bool-cases (contains k e)) [
              | inl on ↦ contains-filter r k ids on
              | inr off ↦
                  let x = draw_seats-none rand r count 0 e k fits v off in absurd (cc (x, m))
            ],
          )
    ]
