-- ===== src/Rating/Selection.antt =====
-- `SelectByWeight` and `SelectCommittee` of internal/rating/registry.go. Package math/rand is a
-- parameter: a source with `Int63n` and `Intn`, by the number of the call.
use platarium_gateway_go.Common.{
  ℕ, zero, suc, ◌<◌, Bool, true, not, none, some, List, [], ◌∷◌, length, leb, if◌then◌else◌, ◌==◌,
}
use platarium_gateway_go.Common.Int.{ℤ, pos, negsuc, ltb_ℤ, leb_ℤ, add64}
use platarium_gateway_go.Common.Text.{Text, text_eq, text_beq}
use platarium_gateway_go.Common.Dict.{lookup}
use platarium_gateway_go.Deals.Sets.{get_or}
use platarium_gateway_go.Rating.Scores.{is_eligible_for_committee}
use platarium_gateway_go.Rating.Registry.{Registry, selection_weight_for}

pub record Rand : Type 0 where
  pub int63n : ℕ → ℤ → ℤ
  pub intn : ℕ → ℕ → ℕ
  pub intn-lt : (draw n : ℕ) → 0 < n → intn draw n < n

-- `n := r.Get(id); n == nil || n.IsEligibleForCommittee()`
unfoldable pub may_serve : Registry → Text → Bool
unfolding lookup is_eligible_for_committee
may_serve r id = elim (lookup id r) [ none ↦ true | some n ↦ is_eligible_for_committee n ]

unfoldable pub filter_eligible_candidates : Registry → List Text → List Text
unfolding may_serve
filter_eligible_candidates r [] = []
filter_eligible_candidates r (id ∷ ids) =
    let rest = filter_eligible_candidates r ids in if may_serve r id then id ∷ rest else rest

-- The loop that removes the picked node.
unfoldable pub without : Text → List Text → List Text
unfolding text_beq
without picked [] = []
without picked (id ∷ ids) =
    let rest = without picked ids in if not (id == picked) then id ∷ rest else rest

unfoldable pub weight_at_least_one : Registry → Text → ℤ
unfolding selection_weight_for
weight_at_least_one r id = let w = selection_weight_for id r in if leb_ℤ w (pos 0) then pos 1 else w

-- The sum of the weights, in the order of the loop.
unfoldable pub total_weight : Registry → ℤ → List Text → ℤ
unfolding weight_at_least_one add64
total_weight r sum [] = sum
total_weight r sum (id ∷ ids) = total_weight r (add64 sum (weight_at_least_one r id)) ids

-- The loop over the weights after the roll; `last` is what follows it.
unfoldable pub find_roll : Registry → ℤ → ℤ → Text → List Text → Text
unfolding weight_at_least_one add64
find_roll r roll sum last [] = last
find_roll r roll sum last (id ∷ ids) =
    let sum' = add64 sum (weight_at_least_one r id) in
    let rest = find_roll r roll sum' id ids in if ltb_ℤ roll sum' then id else rest

-- `SelectByWeight` with two eligible candidates or more.
unfoldable pub roll_for : Rand → ℕ → Registry → List Text → Text
unfolding total_weight find_roll get_or
roll_for rand draw r ids =
    let total = total_weight r (pos 0) ids in
    if leb_ℤ total (pos 0)
    then get_or ids (rand.intn draw (length ids)) []
    else find_roll r (rand.int63n draw total) (pos 0) [] ids

unfoldable pub select_by_weight : Rand → ℕ → Registry → List Text → Text
unfolding filter_eligible_candidates roll_for
select_by_weight rand draw r [] = []
select_by_weight rand draw r (id ∷ []) = id
select_by_weight rand draw r (id ∷ id' ∷ ids) =
    elim (filter_eligible_candidates r (id ∷ id' ∷ ids)) [
      | [] ↦ []
      | x ∷ xs ↦ elim xs [ [] ↦ x | y ∷ ys ↦ roll_for rand draw r (x ∷ y ∷ ys) ]
    ]

-- The loop of `SelectCommittee`, with the seats left.
unfoldable pub draw_seats : Rand → Registry → ℕ → ℕ → List Text → List Text
unfolding select_by_weight without text_beq
draw_seats rand r zero draw remaining = []
draw_seats rand r (suc seats) draw remaining =
    let picked = select_by_weight rand draw r remaining in
    let rest = draw_seats rand r seats (suc draw) (without picked remaining) in
    if picked == [] then [] else picked ∷ rest

-- `SelectCommittee`, where no other call changes the registry meanwhile.
unfoldable pub select_committee : Rand → Registry → List Text → ℤ → List Text
unfolding filter_eligible_candidates draw_seats
select_committee rand r ids (pos count) =
    let eligible = filter_eligible_candidates r ids in
    if leb (length eligible) count then eligible else draw_seats rand r count 0 eligible
select_committee rand r ids (negsuc n) = []
