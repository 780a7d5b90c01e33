-- ===== src/Chain/Fork.antt =====
-- The choice between blocks of one height, in internal/blockchain/fork_choice.go.
use platarium_gateway_go.Common.{ℕ, ◌+◌, Bool, not, [], ◌∷◌, ltb, if◌then◌else◌, ◌==◌, nat_eq}
use platarium_gateway_go.Common.Int.{int_eq, ltb_ℤ}
use platarium_gateway_go.Common.Text.{text_lt}
use platarium_gateway_go.Common.Dict.{Dict}
use platarium_gateway_go.Chain.Types.{BlockRecord}

unfoldable pub count_yes : Dict Bool → ℕ
count_yes [] = 0
count_yes ((node, y) ∷ votes) = let n = count_yes votes in if y then n + 1 else n

unfoldable pub prefer_block : BlockRecord → BlockRecord → Bool
unfolding count_yes text_lt
prefer_block existing incoming =
    let in_l2 = count_yes incoming.l2_votes in
    let ex_l2 = count_yes existing.l2_votes in
    let in_l1 = count_yes incoming.l1_votes in
    let ex_l1 = count_yes existing.l1_votes in
    if not (incoming.l2_yes == existing.l2_yes)
    then ltb_ℤ existing.l2_yes incoming.l2_yes
    else if not (in_l2 == ex_l2)
    then ltb ex_l2 in_l2
    else if not (incoming.l1_yes == existing.l1_yes)
    then ltb_ℤ existing.l1_yes incoming.l1_yes
    else if not (in_l1 == ex_l1)
    then ltb ex_l1 in_l1
    else text_lt existing.block_hash incoming.block_hash
