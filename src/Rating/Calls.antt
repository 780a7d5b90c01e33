-- ===== src/Rating/Calls.antt =====
-- A call on a `Registry` (internal/rating) as a value, and sequences of calls.
use platarium_gateway_go.Common.{List, [], ◌∷◌}
use platarium_gateway_go.Common.Int.{ℤ, pos, ◌≤ℤ◌}
use platarium_gateway_go.Common.Text.{Text}
use platarium_gateway_go.Rating.Registry.{
  Registry, SlashingReason, ensure_node, set_vote_stats, set_uptime, apply_uptime_penalty, set_load,
  recompute_all, apply_slash, apply_slash_batch,
}
use platarium_gateway_go.Rating.Bounds.{IsAmount}

pub data Update : Type 0 where
  ensures : Text → ℤ → ℤ → Update
  votes : Text → ℤ → ℤ → Update
  uptimes : Text → ℤ → Update
  penalizes : (ℤ → ℤ) → Text → Update
  loads : Text → ℤ → ℤ → Update
  recomputes : Update
  slashes : Text → SlashingReason → Update
  slashes_all : List Text → SlashingReason → Update

unfoldable pub apply : Update → Registry → Registry
unfolding ensure_node set_vote_stats set_uptime apply_uptime_penalty set_load recompute_all
    apply_slash apply_slash_batch
apply (ensures id stake capacity) r = ensure_node id stake capacity r
apply (votes id missed total) r = set_vote_stats id missed total r
apply (uptimes id score) r = set_uptime id score r
apply (penalizes scaled id) r = apply_uptime_penalty scaled id r
apply (loads id tasks capacity) r = set_load id tasks capacity r
apply recomputes r = recompute_all r
apply (slashes id reason) r = (apply_slash id reason r).0
apply (slashes_all ids reason) r = apply_slash_batch ids reason r

unfoldable pub apply_all : List Update → Registry → Registry
unfolding apply
apply_all [] r = r
apply_all (u ∷ us) r = apply_all us (apply u r)

-- Stakes and votes that the products of the source can carry.
abbrev pub IsModest : Update → Type 0
IsModest (ensures id stake capacity) = IsAmount stake
IsModest (votes id missed total) = (missed ≤ℤ pos 9000000000000) × (total ≤ℤ pos 9000000000000)
IsModest (uptimes _ _) = Unit
IsModest (penalizes _ _) = Unit
IsModest (loads _ _ _) = Unit
IsModest recomputes = Unit
IsModest (slashes _ _) = Unit
IsModest (slashes_all _ _) = Unit

abbrev pub AllModest : List Update → Type 0
AllModest [] = Unit
AllModest (u ∷ us) = IsModest u × AllModest us
