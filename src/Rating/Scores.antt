-- ===== src/Rating/Scores.antt =====
-- `NodeScores` of internal/rating/registry.go: its accuracy, reputation and weight, in int64 with its
-- wrap-around.
use platarium_gateway_go.Common.{Bool, not, ◌&&◌, if◌then◌else◌, ◌==◌}
use platarium_gateway_go.Common.Int.{ℤ, pos, ltb_ℤ, leb_ℤ, add64, sub64, mul64, quo64}
use platarium_gateway_go.Common.Text.{Text, text, text_eq, text_beq}

abbrev pub score_scale : ℤ
score_scale = pos 1000000

abbrev pub weight_uptime : ℤ
weight_uptime = pos 300

abbrev pub weight_latency : ℤ
weight_latency = pos 200

abbrev pub weight_vote_accuracy : ℤ
weight_vote_accuracy = pos 300

abbrev pub weight_stake : ℤ
weight_stake = pos 200

abbrev pub node_status_active : Text
node_status_active = text "active"

abbrev pub node_status_suspended : Text
node_status_suspended = text "suspended"

pub record NodeScores : Type 0 where
  pub node_id : Text
  pub status : Text
  pub uptime_score : ℤ
  pub latency_score : ℤ
  pub missed_votes : ℤ
  pub total_votes : ℤ
  pub stake : ℤ
  pub reputation_score : ℤ
  pub load_score : ℤ
  pub current_tasks : ℤ
  pub max_capacity : ℤ

unfoldable pub vote_accuracy : NodeScores → ℤ
unfolding mul64 quo64 sub64
vote_accuracy n =
    let all_correct = sub64 n.total_votes n.missed_votes in
    let correct = if ltb_ℤ all_correct (pos 0) then pos 0 else all_correct in
    if leb_ℤ n.total_votes (pos 0)
    then score_scale
    else quo64 (mul64 correct score_scale) n.total_votes

-- The stake's part of `ComputeReputation`.
unfoldable pub stake_weight_of : ℤ → ℤ → ℤ
unfolding mul64 quo64
stake_weight_of stake max_stake =
    let w = quo64 (mul64 stake score_scale) max_stake in
    if ltb_ℤ (pos 0) max_stake && leb_ℤ (pos 0) stake
    then if ltb_ℤ w score_scale then w else score_scale
    else score_scale

-- The score that `ComputeReputation` stores.
unfoldable pub reputation_of : ℤ → NodeScores → ℤ
unfolding vote_accuracy stake_weight_of add64 mul64 quo64
reputation_of max_stake n =
    let sum =
      add64
        (add64 (add64 (mul64 n.uptime_score weight_uptime) (mul64 n.latency_score weight_latency))
          (mul64 (vote_accuracy n) weight_vote_accuracy))
        (mul64 (stake_weight_of n.stake max_stake) weight_stake) in
    quo64 sum (pos 1000)

unfoldable pub compute_reputation : ℤ → NodeScores → NodeScores
unfolding reputation_of
compute_reputation max_stake n = record n { reputation_score = reputation_of max_stake n }

unfoldable pub selection_weight : NodeScores → ℤ
unfolding sub64 mul64 quo64
selection_weight n =
    let free = sub64 score_scale n.load_score in
    let penalty = if ltb_ℤ free (pos 0) then pos 0 else free in
    quo64 (mul64 n.reputation_score penalty) score_scale

unfoldable pub is_suspended : NodeScores → Bool
unfolding text_beq
is_suspended n = n.status == node_status_suspended

unfoldable pub is_eligible_for_committee : NodeScores → Bool
unfolding text_beq
is_eligible_for_committee n = not (n.status == node_status_suspended)
