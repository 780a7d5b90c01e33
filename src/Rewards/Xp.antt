-- ===== src/Rewards/Xp.antt =====
-- `ComputeValidationXP` of internal/rewards/xp.go, in int64 with its wrap-around, and its floor.
use platarium_gateway_go.Common.{◌||◌, leb, if◌then◌else◌, arith}
use platarium_gateway_go.Common.Int.{ℤ, pos, negsuc, ltb_ℤ, leb_ℤ, ◌≤ℤ◌, add64, sub64, mul64, quo64}
use platarium_gateway_go.Rating.Registry.{selection_percent_from_load}

abbrev pub min_validation_xp : ℤ
min_validation_xp = pos 10

unfoldable pub load_xp_bonus : ℤ → ℤ
unfolding selection_percent_from_load
load_xp_bonus load =
    let sel = selection_percent_from_load load in
    if leb 50 sel
    then pos 0
    else if leb 30 sel
    then pos 2
    else if leb 25 sel
    then pos 4
    else if leb 20 sel
    then pos 6
    else if leb 15 sel
    then pos 8
    else pos 10

-- The end of `distributionXPBonus`, from the scaled ratio.
unfoldable pub bonus_of_ratio : ℤ → ℤ
unfolding sub64
bonus_of_ratio ratio =
    let bonus = sub64 ratio (pos 10) in
    if leb_ℤ ratio (pos 10) then pos 0 else if ltb_ℤ (pos 10) bonus then pos 10 else bonus

unfoldable pub distribution_xp_bonus : ℤ → ℤ → ℤ → ℤ
unfolding bonus_of_ratio mul64 quo64
distribution_xp_bonus my_weight total_weight voters =
    let share = quo64 total_weight voters in
    let equal = if leb_ℤ share (pos 0) then pos 1 else share in
    if leb_ℤ voters (pos 0) || leb_ℤ total_weight (pos 0) || leb_ℤ my_weight (pos 0)
    then pos 0
    else bonus_of_ratio (quo64 (mul64 my_weight (pos 10)) equal)

unfoldable pub compute_validation_xp : ℤ → ℤ → ℤ → ℤ → ℤ
unfolding add64 load_xp_bonus distribution_xp_bonus
compute_validation_xp load my_weight total_weight voters =
    let xp =
      add64 (add64 min_validation_xp (load_xp_bonus load))
        (distribution_xp_bonus my_weight total_weight voters) in
    if ltb_ℤ xp min_validation_xp then min_validation_xp else xp

-- Whatever the load, the weights and the number of voters, an award is at least the floor of ten.
pub compute_validation_xp-floor :
    (load my_weight total_weight voters : ℤ)
    → min_validation_xp ≤ℤ compute_validation_xp load my_weight total_weight voters
unfolding compute_validation_xp
compute_validation_xp-floor load my_weight total_weight voters = at_least (
    add64 (add64 min_validation_xp (load_xp_bonus load))
      (distribution_xp_bonus my_weight total_weight voters))
  where
    at_least :
        (x : ℤ) → min_validation_xp ≤ℤ (if ltb_ℤ x min_validation_xp then min_validation_xp else x)
    at_least (pos n) = ground arith
    at_least (negsuc n) = ground arith
