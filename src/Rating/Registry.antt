-- ===== src/Rating/Registry.antt =====
-- `Registry` of internal/rating/registry.go and internal/rating/slashing.go: the map from ids to
-- scores, and the methods that change it. A method runs under the mutex.
use platarium_gateway_go.Common.{ℕ, Bool, none, some, List, [], ◌∷◌, if◌then◌else◌, ◌==◌, ◌&&◌}
use platarium_gateway_go.Common.Int.{ℤ, pos, ltb_ℤ, leb_ℤ, sub64, mul64, quo64}
use platarium_gateway_go.Common.Text.{Text, text, text_eq, text_beq}
use platarium_gateway_go.Common.Dict.{Dict, lookup, has_key, insert, map_values}
use platarium_gateway_go.Rating.Scores.{
  NodeScores, score_scale, node_status_active, node_status_suspended, compute_reputation,
  selection_weight,
}

abbrev pub Registry : Type 0
Registry = Dict NodeScores

-- The scores of a new node, before its reputation is computed.
abbrev pub new_scores : Text → ℤ → ℤ → NodeScores
new_scores id stake capacity = record {
  node_id = id;
  status = node_status_active;
  uptime_score = score_scale;
  latency_score = score_scale;
  missed_votes = pos 0;
  total_votes = pos 0;
  stake = stake;
  reputation_score = pos 0;
  load_score = pos 0;
  current_tasks = pos 0;
  max_capacity = capacity;
}

unfoldable pub ensure_node : Text → ℤ → ℤ → Registry → Registry
unfolding has_key insert compute_reputation
ensure_node id stake max_capacity r =
    let capacity = if leb_ℤ max_capacity (pos 0) then pos 1 else max_capacity in
    if has_key id r
    then r
    else insert id (compute_reputation (pos 0) (new_scores id stake capacity)) r

-- The loop of `maxStakeLocked`.
unfoldable pub max_stake_from : ℤ → Registry → ℤ
max_stake_from best [] = best
max_stake_from best ((id, n) ∷ r) = max_stake_from (if ltb_ℤ best n.stake then n.stake else best) r

unfoldable pub max_stake_locked : Registry → ℤ
unfolding max_stake_from
max_stake_locked r = max_stake_from (pos 0) r

-- A method that changes one node, if it is registered.
unfoldable pub update : Text → (NodeScores → NodeScores) → Registry → Registry
unfolding lookup insert
update id f r = elim (lookup id r) [ none ↦ r | some n ↦ insert id (f n) r ]

-- A score within 0 and `ScoreScale`.
unfoldable pub clamp_score : ℤ → ℤ
clamp_score s = if ltb_ℤ s (pos 0) then pos 0 else if ltb_ℤ score_scale s then score_scale else s

unfoldable pub with_votes : ℤ → ℤ → NodeScores → NodeScores
with_votes missed total n =
    let m = if ltb_ℤ missed (pos 0) then pos 0 else missed in
    let t = if ltb_ℤ total m then m else total in record n { missed_votes = m; total_votes = t }

unfoldable pub set_vote_stats : Text → ℤ → ℤ → Registry → Registry
unfolding update with_votes compute_reputation max_stake_locked
set_vote_stats id missed total r =
    update id (λ n. compute_reputation (max_stake_locked r) (with_votes missed total n)) r

unfoldable pub set_uptime : Text → ℤ → Registry → Registry
unfolding update clamp_score compute_reputation max_stake_locked
set_uptime id score r =
    update id
      (λ n. compute_reputation (max_stake_locked r) (record n { uptime_score = clamp_score score }))
      r

-- `ApplyUptimePenalty`; `scaled` is the float64 product of a score and the factor, as an int64.
unfoldable pub apply_uptime_penalty : (ℤ → ℤ) → Text → Registry → Registry
unfolding update clamp_score compute_reputation max_stake_locked
apply_uptime_penalty scaled id r =
    update id
      (λ n.
        compute_reputation (max_stake_locked r)
          (record n { uptime_score = clamp_score (scaled n.uptime_score) }))
      r

unfoldable pub with_load : ℤ → ℤ → NodeScores → NodeScores
unfolding mul64 quo64 clamp_score
with_load current_tasks max_capacity n =
    let tasks = if ltb_ℤ current_tasks (pos 0) then pos 0 else current_tasks in
    let capacity = if leb_ℤ max_capacity (pos 0) then pos 1 else max_capacity in
    record n {
      current_tasks = tasks;
      max_capacity = capacity;
      load_score = clamp_score (quo64 (mul64 tasks score_scale) capacity);
    }

unfoldable pub set_load : Text → ℤ → ℤ → Registry → Registry
unfolding update with_load
set_load id current_tasks max_capacity r = update id (with_load current_tasks max_capacity) r

unfoldable pub recompute_all : Registry → Registry
unfolding map_values compute_reputation max_stake_locked
recompute_all r = map_values (compute_reputation (max_stake_locked r)) r

unfoldable pub selection_weight_for : Text → Registry → ℤ
unfolding lookup selection_weight
selection_weight_for id r = elim (lookup id r) [
  | none ↦ score_scale
  | some n ↦ let w = selection_weight n in if leb_ℤ w (pos 0) then pos 1 else w
]

unfoldable pub selection_percent_from_load : ℤ → ℕ
selection_percent_from_load load =
    if leb_ℤ load (pos 0) && leb_ℤ (pos 0) load
    then 50
    else if ltb_ℤ load (pos 20)
    then 30
    else if ltb_ℤ load (pos 30)
    then 25
    else if ltb_ℤ load (pos 60)
    then 20
    else if ltb_ℤ load (pos 85)
    then 15
    else 10

abbrev pub suspension_threshold : ℤ
suspension_threshold = pos 100000

pub data SlashingReason : Type 0 where
  slash_no_vote slash_against_majority slash_equivocation slash_invalid_tx : SlashingReason
  slash_other : ℕ → SlashingReason

unfoldable pub reputation_penalty_for : SlashingReason → ℤ
reputation_penalty_for slash_no_vote = pos 20000
reputation_penalty_for slash_against_majority = pos 30000
reputation_penalty_for slash_equivocation = pos 150000
reputation_penalty_for slash_invalid_tx = pos 100000
reputation_penalty_for (slash_other _) = pos 0

unfoldable pub stake_slash_for : SlashingReason → ℤ
stake_slash_for slash_no_vote = pos 1
stake_slash_for slash_against_majority = pos 2
stake_slash_for slash_equivocation = pos 100
stake_slash_for slash_invalid_tx = pos 50
stake_slash_for (slash_other _) = pos 0

unfoldable pub reason_name : SlashingReason → Text
reason_name slash_no_vote = text "NoVote"
reason_name slash_against_majority = text "AgainstMajority"
reason_name slash_equivocation = text "Equivocation"
reason_name slash_invalid_tx = text "InvalidTx"
reason_name (slash_other _) = text "Unknown"

-- `x -= y; if x < 0 { x = 0 }`
unfoldable pub reduced : ℤ → ℤ → ℤ
unfolding sub64
reduced x y = let d = sub64 x y in if ltb_ℤ d (pos 0) then pos 0 else d

-- What `applySlashLocked` does to the node that it finds.
unfoldable pub slashed : SlashingReason → NodeScores → NodeScores
unfolding reduced reputation_penalty_for stake_slash_for
slashed reason n =
    let score = reduced n.reputation_score (reputation_penalty_for reason) in
    record n {
      reputation_score = score;
      stake = reduced n.stake (stake_slash_for reason);
      status = if ltb_ℤ score suspension_threshold then node_status_suspended else n.status;
    }

-- `ApplySlash`; the flag is false where it returns the error "node not found".
unfoldable pub apply_slash : Text → SlashingReason → Registry → Registry × Bool
unfolding update slashed has_key
apply_slash id reason r = (update id (slashed reason) r, has_key id r)

unfoldable pub apply_slash_batch : List Text → SlashingReason → Registry → Registry
unfolding apply_slash has_key insert compute_reputation text_beq
apply_slash_batch [] reason r = r
apply_slash_batch (id ∷ ids) reason r =
    let new = compute_reputation (pos 0) (new_scores id (pos 0) (pos 1)) in
    let r' = if has_key id r then r else insert id new r in
    apply_slash_batch ids reason (if id == [] then r else (apply_slash id reason r').0)
