-- ===== src/Rating/Suspension.antt =====
-- Slashing and suspension in internal/rating/slashing.go.
use mathlib.Core.Option
use platarium_gateway_go.Common.{
  ◌≡◌, refl, sym, ◌∙◌, ap, inl, inr, some, List, [], ◌∷◌, Bool-cases, Option-cases, arith, some_inj,
  if◌then◌else◌,
}
use platarium_gateway_go.Common.Int.{ℤ, pos}
use platarium_gateway_go.Common.Text.{Text, text_eq, text_beq, text_beq_iff}
use platarium_gateway_go.Common.Dict.{
  lookup, has_key, insert, lookup-insert_self, lookup-insert_ne, lookup-map_values,
}
use platarium_gateway_go.Rating.Scores.{NodeScores, compute_reputation, node_status_suspended}
use platarium_gateway_go.Rating.Registry.{
  Registry, SlashingReason, new_scores, with_votes, with_load, slashed, update, max_stake_locked,
  ensure_node, set_vote_stats, set_uptime, apply_uptime_penalty, set_load, recompute_all,
  apply_slash, apply_slash_batch,
}
use platarium_gateway_go.Rating.Calls.{
  Update, ensures, votes, uptimes, penalizes, loads, recomputes, slashes, slashes_all, apply,
  apply_all,
}

-- The node is registered and suspended.
abbrev pub IsBarred : Text → Registry → Type 0
IsBarred id r = (n : NodeScores) × (lookup id r ≡ some n) × (n.status ≡ node_status_suspended)

-- A change of a node that does not reinstate it.
abbrev Firm : (NodeScores → NodeScores) → Type 0
Firm f = (n : NodeScores) → n.status ≡ node_status_suspended → (f n).status ≡ node_status_suspended

insert-IsBarred :
    (id j : Text) (n m : NodeScores) (r : Registry)
    → lookup j r ≡ some n
    → (n.status ≡ node_status_suspended → m.status ≡ node_status_suspended)
    → IsBarred id r
    → IsBarred id (insert j m r)
insert-IsBarred id j n m r e firm (q, o, s) = elim (Bool-cases (text_beq j id)) [
  | inl same ↦
      let p = (text_beq_iff j id).0 same in
      let x : n ≡ q = some_inj (sym e ∙ (ap (λ k. lookup k r) p ∙ o)) in
      (
        m,
        ap (λ k. lookup k (insert j m r)) (sym p) ∙ lookup-insert_self j m r,
        firm (ap (λ t. t.status) x ∙ s),
      )
  | inr other ↦
      (q, lookup-insert_ne j id m r (λ p. let y = (text_beq_iff j id).1 p in cc (y, other)) ∙ o, s)
]

update-IsBarred :
    (id j : Text) (f : NodeScores → NodeScores) (r : Registry)
    → Firm f
    → IsBarred id r
    → IsBarred id (update j f r)
unfolding update
update-IsBarred id j f r firm b = elim (Option-cases (lookup j r)) [
  | inl e ↦ rw (e, update) b
  | inr (n, e) ↦ rw (e, update) (insert-IsBarred id j n (f n) r e (firm n) b)
]

-- A node that is not registered yet is no other's.
add-IsBarred :
    (id j : Text) (m : NodeScores) (r : Registry)
    → IsBarred id r
    → IsBarred id (if has_key j r then r else insert j m r)
unfolding has_key
add-IsBarred id j m r (q, o, s) = elim (Option-cases (lookup j r)) [
  | inr (n, e) ↦ rw (e, has_key) (q, o, s)
  | inl e ↦
      rw (e, has_key)
        (q, lookup-insert_ne j id m r (λ p. let x = ap (λ k. lookup k r) p in cc (x, e, o)) ∙ o, s)
]

compute_reputation-status :
    (max_stake : ℤ) (n : NodeScores) → (compute_reputation max_stake n).status ≡ n.status
unfolding compute_reputation
compute_reputation-status max_stake n = refl

slashed-Firm : (reason : SlashingReason) → Firm (slashed reason)
unfolding slashed
slashed-Firm reason n s = ground arith

batch-IsBarred :
    (id : Text) (ids : List Text) (reason : SlashingReason) (r : Registry)
    → IsBarred id r
    → IsBarred id (apply_slash_batch ids reason r)
unfolding apply_slash_batch apply_slash
batch-IsBarred id [] reason r b = b
batch-IsBarred id (j ∷ ids) reason r b = elim (Bool-cases (text_beq j [])) [
  | inl e ↦ rw e (batch-IsBarred id ids reason r b)
  | inr e ↦
      let new = compute_reputation (pos 0) (new_scores j (pos 0) (pos 1)) in
      let r' = if has_key j r then r else insert j new r in
      rw e (
        batch-IsBarred id ids reason (update j (slashed reason) r') (
          update-IsBarred id j (slashed reason) r' (slashed-Firm reason)
            (add-IsBarred id j new r b)))
]

apply-IsBarred : (u : Update) (id : Text) (r : Registry) → IsBarred id r → IsBarred id (apply u r)
unfolding apply ensure_node set_vote_stats set_uptime apply_uptime_penalty set_load recompute_all
    apply_slash compute_reputation with_votes with_load
apply-IsBarred (ensures j stake capacity) id r b = add-IsBarred id j _ r b
apply-IsBarred (votes j missed total) id r b = update-IsBarred id j _ r (λ n s. s) b
apply-IsBarred (uptimes j score) id r b = update-IsBarred id j _ r (λ n s. s) b
apply-IsBarred (penalizes scaled j) id r b = update-IsBarred id j _ r (λ n s. s) b
apply-IsBarred (loads j tasks capacity) id r b = update-IsBarred id j _ r (λ n s. s) b
apply-IsBarred recomputes id r (n, e, s) =
    let f = compute_reputation (max_stake_locked r) in
    (f n, lookup-map_values f id r ∙ ap (Option.map f) e, s)
apply-IsBarred (slashes j reason) id r b =
    update-IsBarred id j (slashed reason) r (slashed-Firm reason) b
apply-IsBarred (slashes_all ids reason) id r b = batch-IsBarred id ids reason r b

-- No sequence of calls reinstates a node that is suspended.
pub apply_all-IsBarred :
    (us : List Update) (id : Text) (r : Registry) → IsBarred id r → IsBarred id (apply_all us r)
unfolding apply_all
apply_all-IsBarred [] id r b = b
apply_all-IsBarred (u ∷ us) id r b = apply_all-IsBarred us id (apply u r) (apply-IsBarred u id r b)
