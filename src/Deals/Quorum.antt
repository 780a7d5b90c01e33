-- ===== src/Deals/Quorum.antt =====
-- `quorumOf` and `coreOutcome` of internal/deals/book.go.
pub mod Majority
use platarium_gateway_go.Common.{
  ℕ, suc, ◌+◌, ◌≡◌, Option, none, some, [], ◌∷◌, leb, if◌then◌else◌, ◌==◌,
}
use platarium_gateway_go.Common.Text.{Text, text, text_eq, text_beq}
use platarium_gateway_go.Common.Dict.{Dict, lookup, insert}

abbrev pub verdict_fulfilled : Text
verdict_fulfilled = text "fulfilled"

abbrev pub verdict_not_fulfilled : Text
verdict_not_fulfilled = text "not-fulfilled"

abbrev pub outcome_fulfilled : Text
outcome_fulfilled = text "dispute-fulfilled"

abbrev pub outcome_not_fulfilled : Text
outcome_not_fulfilled = text "dispute-not-fulfilled"

-- `counts[v]`, zero for a missing key.
abbrev pub count_or_zero : Option ℕ → ℕ
count_or_zero none = 0
count_or_zero (some n) = n

-- The loop over the reveals, with the map `counts`.
unfoldable pub quorum_from : Dict ℕ → Dict Text → Option Text
unfolding lookup insert
quorum_from counts [] = none
quorum_from counts ((k, v) ∷ rest) =
    let n = count_or_zero (lookup v counts) + 1 in
    let more = quorum_from (insert v n counts) rest in if leb 3 n then some v else more

unfoldable pub quorum_of : Dict Text → Option Text
unfolding quorum_from
quorum_of reveals = quorum_from [] reveals

unfoldable pub core_outcome : Text → Text
unfolding text_beq
core_outcome v =
    if v == verdict_fulfilled
    then outcome_fulfilled
    else if v == verdict_not_fulfilled
    then outcome_not_fulfilled
    else v
