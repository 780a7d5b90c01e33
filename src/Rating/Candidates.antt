-- ===== src/Rating/Candidates.antt =====
-- The lists of candidates in internal/rating/registry.go: filtering and removing.

use platarium_gateway_go.Common.{
  suc, ◌≡◌, refl, ap, subst, inl, inr, true, false, List, [], ◌∷◌, length, All, arith, Bool-cases,
}
use platarium_gateway_go.Common.Text.{Text, text_eq, text_beq, text_beq_iff}
use platarium_gateway_go.Deals.Sets.{contains, Distinct}
use platarium_gateway_go.Rating.Registry.{Registry}
use platarium_gateway_go.Rating.Selection.{may_serve, filter_eligible_candidates, without}

-- A candidate that may serve is what the filter keeps.
pub contains-filter :
    (r : Registry) (k : Text) (ids : List Text)
    → contains k (filter_eligible_candidates r ids) ≡ true
    → (contains k ids ≡ true) × (may_serve r k ≡ true)
unfolding contains filter_eligible_candidates
contains-filter r k [] h = cc
contains-filter r k (id ∷ ids) h = elim (Bool-cases (may_serve r id)) [
  | inr e ↦ let (a, b) = contains-filter r k ids (ground arith) in (ground arith, b)
  | inl e ↦ elim (Bool-cases (text_beq id k)) [
    | inl f ↦ (ground arith, subst (λ t. may_serve r t ≡ true) ((text_beq_iff id k).0 f) e)
    | inr f ↦ let (a, b) = contains-filter r k ids (ground arith) in (ground arith, b)
  ]
]

pub filter-contains :
    (r : Registry) (k : Text) (ids : List Text)
    → contains k ids ≡ false
    → contains k (filter_eligible_candidates r ids) ≡ false
unfolding contains filter_eligible_candidates
filter-contains r k [] h = refl
filter-contains r k (id ∷ ids) h = ground (arith, filter-contains r k ids)

pub filter-Distinct :
    (r : Registry) (ids : List Text) → Distinct ids → Distinct (filter_eligible_candidates r ids)
unfolding filter_eligible_candidates
filter-Distinct r [] u = tt
filter-Distinct r (id ∷ ids) u = elim (Bool-cases (may_serve r id)) [
  | inl e ↦ rw e (filter-contains r id ids u.0, filter-Distinct r ids u.1)
  | inr e ↦ rw e (filter-Distinct r ids u.1)
]

pub contains-without :
    (p k : Text) (ids : List Text) → contains k ids ≡ false → contains k (without p ids) ≡ false
unfolding contains without
contains-without p k [] h = refl
contains-without p k (id ∷ ids) h = ground (arith, contains-without p k ids)

pub without-gone : (p : Text) (ids : List Text) → contains p (without p ids) ≡ false
unfolding contains without
without-gone p [] = refl
without-gone p (id ∷ ids) = ground (arith, without-gone p ids)

abbrev pub AllServe : Registry → List Text → Type 0
AllServe r ids = All (λ id. may_serve r id ≡ true) ids

pub filter-AllServe :
    (r : Registry) (ids : List Text) → AllServe r (filter_eligible_candidates r ids)
unfolding filter_eligible_candidates
filter-AllServe r [] = tt
filter-AllServe r (id ∷ ids) = elim (Bool-cases (may_serve r id)) [
  | inl e ↦ rw (e, filter_eligible_candidates) (e, filter-AllServe r ids)
  | inr e ↦ rw e (filter-AllServe r ids)
]

pub filter-same :
    (r : Registry) (ids : List Text) → AllServe r ids → filter_eligible_candidates r ids ≡ ids
unfolding filter_eligible_candidates
filter-same r [] s = refl
filter-same r (id ∷ ids) s = rw (s.0, filter-same r ids s.1)

pub without-AllServe :
    (r : Registry) (p : Text) (ids : List Text) → AllServe r ids → AllServe r (without p ids)
unfolding without
without-AllServe r p [] s = tt
without-AllServe r p (id ∷ ids) s = elim (Bool-cases (text_beq id p)) [
  | inl e ↦ rw e (without-AllServe r p ids s.1)
  | inr e ↦ rw e (s.0, without-AllServe r p ids s.1)
]

pub without-Distinct : (p : Text) (ids : List Text) → Distinct ids → Distinct (without p ids)
unfolding without
without-Distinct p [] u = tt
without-Distinct p (id ∷ ids) u = elim (Bool-cases (text_beq id p)) [
  | inl e ↦ rw e (without-Distinct p ids u.1)
  | inr e ↦ rw e (contains-without p id ids u.0, without-Distinct p ids u.1)
]

without-same : (p : Text) (ids : List Text) → contains p ids ≡ false → without p ids ≡ ids
unfolding contains without
without-same p [] h = refl
without-same p (id ∷ ids) h = ground (arith, without-same p ids)

pub length-without :
    (p : Text) (ids : List Text)
    → Distinct ids
    → contains p ids ≡ true
    → suc (length (without p ids)) ≡ length ids
unfolding contains without
length-without p [] u h = cc
length-without p (id ∷ ids) u h = elim (Bool-cases (text_beq id p)) [
  | inl e ↦
      let gone = subst (λ t. contains t ids ≡ false) ((text_beq_iff id p).0 e) u.0 in
      rw e (ap (λ x. suc (length x)) (without-same p ids gone))
  | inr e ↦ rw e (ap suc (length-without p ids u.1 (ground arith)))
]
