-- ===== src/Rating/Invariant.antt =====
-- What every sequence of calls keeps in a `Registry` (internal/rating).

use platarium_gateway_go.Common.{
  ◌≡◌, refl, subst, inl, inr, some, List, [], ◌∷◌, Bool-cases, Option-cases, arith, if◌then◌else◌,
}
use platarium_gateway_go.Common.Int.{pos, leb_ℤ}
use platarium_gateway_go.Common.Text.{Text, text_eq, text_beq}
use platarium_gateway_go.Common.Dict.{
  lookup, has_key, insert, lookup-insert_cases, map_values-found,
}
use platarium_gateway_go.Rating.Scores.{NodeScores, compute_reputation}
use platarium_gateway_go.Rating.Registry.{
  Registry, SlashingReason, new_scores, with_load, slashed, update, max_stake_locked, ensure_node,
  set_vote_stats, set_uptime, apply_uptime_penalty, set_load, recompute_all, apply_slash,
  apply_slash_batch,
}
use platarium_gateway_go.Rating.Calls.{
  Update, ensures, votes, uptimes, penalizes, loads, recomputes, slashes, slashes_all, apply,
  apply_all, IsModest, AllModest,
}
use platarium_gateway_go.Rating.Nodes.{
  NodeInv, compute_reputation-NodeInv, new_scores-NodeInv, with_votes-NodeInv, with_uptime-NodeInv,
  with_load-NodeInv, slashed-NodeInv,
}

abbrev pub RegistryInv : Registry → Type 0
RegistryInv r = (id : Text) (n : NodeScores) → lookup id r ≡ some n → NodeInv n

insert-RegistryInv :
    (id : Text) (n : NodeScores) (r : Registry)
    → NodeInv n
    → RegistryInv r
    → RegistryInv (insert id n r)
insert-RegistryInv id n r x v j m e = elim (lookup-insert_cases id j n m r e) [
  | inl (_, f) ↦ subst NodeInv f x
  | inr (_, o) ↦ v j m o
]

update-RegistryInv :
    (id : Text) (f : NodeScores → NodeScores) (r : Registry)
    → ((n : NodeScores) → NodeInv n → NodeInv (f n))
    → RegistryInv r
    → RegistryInv (update id f r)
unfolding update
update-RegistryInv id f r keep v = elim (Option-cases (lookup id r)) [
  | inl e ↦ rw (e, update) v
  | inr (n, e) ↦ rw (e, update) (insert-RegistryInv id (f n) r (keep n (v id n e)) v)
]

ensure_node-RegistryInv :
    (id : Text) (n : NodeScores) (r : Registry)
    → NodeInv n
    → RegistryInv r
    → RegistryInv (if has_key id r then r else insert id n r)
ensure_node-RegistryInv id n r x v = elim (Bool-cases (has_key id r)) [
  | inl e ↦ rw e v
  | inr e ↦ rw e (insert-RegistryInv id n r x v)
]

recompute_all-RegistryInv : (r : Registry) → RegistryInv r → RegistryInv (recompute_all r)
unfolding recompute_all
recompute_all-RegistryInv r v j m e =
    let f = compute_reputation (max_stake_locked r) in
    let (n, o, same) = map_values-found f j r m e in
    let x = v j n o in
    subst NodeInv same
      (compute_reputation-NodeInv (max_stake_locked r) n x.uptime x.latency x.load x.amount x.tally)

apply_slash_batch-RegistryInv :
    (ids : List Text) (reason : SlashingReason) (r : Registry)
    → RegistryInv r
    → RegistryInv (apply_slash_batch ids reason r)
unfolding apply_slash_batch apply_slash
apply_slash_batch-RegistryInv [] reason r v = v
apply_slash_batch-RegistryInv (id ∷ ids) reason r v = elim (Bool-cases (text_beq id [])) [
  | inl e ↦ rw e (apply_slash_batch-RegistryInv ids reason r v)
  | inr e ↦
      let new = compute_reputation (pos 0) (new_scores id (pos 0) (pos 1)) in
      let r' = if has_key id r then r else insert id new r in
      rw e (
        apply_slash_batch-RegistryInv ids reason (update id (slashed reason) r') (
          update-RegistryInv id (slashed reason) r' (slashed-NodeInv reason) (
            ensure_node-RegistryInv id new r
              (new_scores-NodeInv id (pos 0) (pos 1) (0, refl, omega arith)) v)))
]

apply-RegistryInv :
    (u : Update) (r : Registry) → IsModest u → RegistryInv r → RegistryInv (apply u r)
unfolding apply ensure_node set_vote_stats set_uptime apply_uptime_penalty set_load apply_slash
apply-RegistryInv (ensures id stake capacity) r h v =
    let room = if leb_ℤ capacity (pos 0) then pos 1 else capacity in
    ensure_node-RegistryInv id (compute_reputation (pos 0) (new_scores id stake room)) r
      (new_scores-NodeInv id stake room h) v
apply-RegistryInv (votes id missed total) r h v =
    update-RegistryInv id _ r
      (λ n x. with_votes-NodeInv (max_stake_locked r) missed total n h.0 h.1 x) v
apply-RegistryInv (uptimes id score) r h v =
    update-RegistryInv id _ r (λ n x. with_uptime-NodeInv (max_stake_locked r) score n x) v
apply-RegistryInv (penalizes scaled id) r h v =
    update-RegistryInv id _ r
      (λ n x. with_uptime-NodeInv (max_stake_locked r) (scaled n.uptime_score) n x) v
apply-RegistryInv (loads id tasks capacity) r h v =
    update-RegistryInv id (with_load tasks capacity) r (with_load-NodeInv tasks capacity) v
apply-RegistryInv recomputes r h v = recompute_all-RegistryInv r v
apply-RegistryInv (slashes id reason) r h v =
    update-RegistryInv id (slashed reason) r (slashed-NodeInv reason) v
apply-RegistryInv (slashes_all ids reason) r h v = apply_slash_batch-RegistryInv ids reason r v

-- Through every sequence of calls with stakes from 0 to 9 * 10^12 and votes up to that, every score of
-- every node, the reputation among them, stays from 0 to `ScoreScale`, its stake from 0 to 9 * 10^12,
-- and its missed votes from 0 to its votes.
pub apply_all-RegistryInv :
    (us : List Update) (r : Registry) → AllModest us → RegistryInv r → RegistryInv (apply_all us r)
unfolding apply_all
apply_all-RegistryInv [] r h v = v
apply_all-RegistryInv (u ∷ us) r h v =
    apply_all-RegistryInv us (apply u r) h.1 (apply-RegistryInv u r h.0 v)
