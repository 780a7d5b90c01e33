-- ===== src/Rating/Nodes.antt =====
-- What each method of internal/rating does to the scores of one node.
use platarium_gateway_go.Common.{
  ℕ, ◌-◌, ◌≤◌, ◌≡◌, refl, ◌∙◌, ap, inl, inr, Bool-cases, arith, if◌then◌else◌,
}
use platarium_gateway_go.Common.Int.{ℤ, pos, negsuc, ltb_ℤ, sub64_pos, ◌≤ℤ◌, leb_ℤ, mul64, quo64}
use platarium_gateway_go.Common.Text.{Text}
use platarium_gateway_go.Rating.Scores.{
  NodeScores, score_scale, reputation_of, compute_reputation, vote_accuracy, stake_weight_of,
}
use platarium_gateway_go.Rating.Registry.{
  SlashingReason, slash_no_vote, slash_against_majority, slash_equivocation, slash_invalid_tx,
  slash_other, new_scores, clamp_score, with_votes, with_load, reduced, slashed,
  reputation_penalty_for, stake_slash_for,
}
use platarium_gateway_go.Rating.Bounds.{
  Within, IsScore, IsAmount, clamp_score-IsScore, vote_accuracy-IsScore, stake_weight_of-IsScore,
  weighted-IsScore,
}

-- Fewer missed votes than votes, both in the range that the products can carry.
abbrev pub IsTally : ℤ → ℤ → Type 0
IsTally missed total =
    (m : ℕ) × (t : ℕ) × (missed ≡ pos m) × (total ≡ pos t) × (m ≤ t) × (t ≤ 9000000000000)

pub record NodeInv (n : NodeScores) : Type 0 where
  pub uptime : IsScore n.uptime_score
  pub latency : IsScore n.latency_score
  pub load : IsScore n.load_score
  pub reputation : IsScore n.reputation_score
  pub amount : IsAmount n.stake
  pub tally : IsTally n.missed_votes n.total_votes

reputation_of-IsScore :
    (max_stake : ℤ) (n : NodeScores)
    → IsScore n.uptime_score
    → IsScore n.latency_score
    → IsAmount n.stake
    → IsTally n.missed_votes n.total_votes
    → IsScore (reputation_of max_stake n)
unfolding reputation_of
reputation_of-IsScore max_stake n u l a (m, t, em, et, h, k) =
    weighted-IsScore n.uptime_score n.latency_score (vote_accuracy n)
      (stake_weight_of n.stake max_stake) u l (vote_accuracy-IsScore n m t em et h k)
      (stake_weight_of-IsScore n.stake max_stake a)

-- A node whose scores are in range, whatever its reputation was, has them in range with the computed
-- one.
pub compute_reputation-NodeInv :
    (max_stake : ℤ) (n : NodeScores)
    → IsScore n.uptime_score
    → IsScore n.latency_score
    → IsScore n.load_score
    → IsAmount n.stake
    → IsTally n.missed_votes n.total_votes
    → NodeInv (compute_reputation max_stake n)
unfolding compute_reputation
compute_reputation-NodeInv max_stake n u l o a t = record {
  uptime = u;
  latency = l;
  load = o;
  reputation = reputation_of-IsScore max_stake n u l a t;
  amount = a;
  tally = t;
}

pub new_scores-NodeInv :
    (id : Text) (stake capacity : ℤ)
    → IsAmount stake
    → NodeInv (compute_reputation (pos 0) (new_scores id stake capacity))
new_scores-NodeInv id stake capacity a =
    let full : IsScore score_scale = (1000000, refl, omega arith) in
    compute_reputation-NodeInv (pos 0) (new_scores id stake capacity) full full
      (0, refl, omega arith) a (0, 0, refl, refl, omega arith, omega arith)

raised :
    (z : ℤ) → z ≤ℤ pos 9000000000000 → Within 9000000000000 (if ltb_ℤ z (pos 0) then pos 0 else z)
raised (pos n) h = (n, ground arith, omega arith)
raised (negsuc n) h = (0, ground arith, omega arith)

raised_to :
    (m : ℕ) (z : ℤ)
    → m ≤ 9000000000000
    → z ≤ℤ pos 9000000000000
    → (t : ℕ) × ((if ltb_ℤ z (pos m) then pos m else z) ≡ pos t) × (m ≤ t) × (t ≤ 9000000000000)
raised_to m (negsuc n) h k = (m, ground arith, omega arith, h)
raised_to m (pos n) h k = elim (Bool-cases (ltb_ℤ (pos n) (pos m))) [
  | inl e ↦ (m, rw e, omega arith, h)
  | inr e ↦ (n, rw e, ground arith, omega arith)
]

pub with_votes-NodeInv :
    (max_stake missed total : ℤ) (n : NodeScores)
    → missed ≤ℤ pos 9000000000000
    → total ≤ℤ pos 9000000000000
    → NodeInv n
    → NodeInv (compute_reputation max_stake (with_votes missed total n))
unfolding with_votes
with_votes-NodeInv max_stake missed total n h k v =
    let (m, e, hm) = raised missed h in
    let (t, f, le, ht) = raised_to m total hm k in
    compute_reputation-NodeInv max_stake (with_votes missed total n) v.uptime v.latency v.load
      v.amount (m, t, e, ap (λ z. if ltb_ℤ total z then z else total) e ∙ f, le, ht)

pub with_uptime-NodeInv :
    (max_stake score : ℤ) (n : NodeScores)
    → NodeInv n
    → NodeInv (compute_reputation max_stake (record n { uptime_score = clamp_score score }))
with_uptime-NodeInv max_stake score n v =
    compute_reputation-NodeInv max_stake (record n { uptime_score = clamp_score score })
      (clamp_score-IsScore score) v.latency v.load v.amount v.tally

pub with_load-NodeInv :
    (tasks capacity : ℤ) (n : NodeScores) → NodeInv n → NodeInv (with_load tasks capacity n)
unfolding with_load
with_load-NodeInv tasks capacity n v = record {
  uptime = v.uptime;
  latency = v.latency;
  load = clamp_score-IsScore (
      quo64 (mul64 (if ltb_ℤ tasks (pos 0) then pos 0 else tasks) score_scale)
        (if leb_ℤ capacity (pos 0) then pos 1 else capacity));
  reputation = v.reputation;
  amount = v.amount;
  tally = v.tally;
}

-- On numbers that are not negative the loss stops at zero.
pub reduced_pos :
    (a b : ℕ) → a ≤ 9000000000000 → b ≤ 9000000000000 → reduced (pos a) (pos b) ≡ pos (a - b)
unfolding reduced
reduced_pos a b h k = let e = sub64_pos a b (omega arith) (omega arith) in rw e (ground arith)

penalty-Within : (reason : SlashingReason) → Within 150000 (reputation_penalty_for reason)
unfolding reputation_penalty_for
penalty-Within slash_no_vote = (20000, refl, omega arith)
penalty-Within slash_against_majority = (30000, refl, omega arith)
penalty-Within slash_equivocation = (150000, refl, omega arith)
penalty-Within slash_invalid_tx = (100000, refl, omega arith)
penalty-Within (slash_other _) = (0, refl, omega arith)

loss-Within : (reason : SlashingReason) → Within 100 (stake_slash_for reason)
unfolding stake_slash_for
loss-Within slash_no_vote = (1, refl, omega arith)
loss-Within slash_against_majority = (2, refl, omega arith)
loss-Within slash_equivocation = (100, refl, omega arith)
loss-Within slash_invalid_tx = (50, refl, omega arith)
loss-Within (slash_other _) = (0, refl, omega arith)

reduced-Within :
    (bound : ℕ) (x y : ℤ)
    → bound ≤ 9000000000000
    → Within bound x
    → Within 150000 y
    → Within bound (reduced x y)
reduced-Within bound x y small (a, e, h) (b, f, k) = (
  a - b,
  ap (λ z. reduced z y) e
      ∙ (ap (λ z. reduced (pos a) z) f ∙ reduced_pos a b (omega arith) (omega arith)),
  omega arith,
)

pub slashed-NodeInv :
    (reason : SlashingReason) (n : NodeScores) → NodeInv n → NodeInv (slashed reason n)
unfolding slashed
slashed-NodeInv reason n v = record {
  uptime = v.uptime;
  latency = v.latency;
  load = v.load;
  reputation =
      reduced-Within 1000000 n.reputation_score (reputation_penalty_for reason) (omega arith)
        v.reputation (penalty-Within reason);
  amount =
      let (b, f, k) = loss-Within reason in
      reduced-Within 9000000000000 n.stake (stake_slash_for reason) (omega arith) v.amount
        (b, f, omega arith);
  tally = v.tally;
}
