-- ===== src/Deals/Quorum/Majority.antt =====
-- `quorumOf` (internal/deals/book.go) against a count of the votes. Go iterates over the reveals in
-- no fixed order, which the order of the list stands for.
use platarium_gateway_go.Common.{
  ℕ, suc, ◌+◌, ◌≤◌, ◌<◌, ◌≡◌, ap, ◌≢◌, ◌↔◌, inl, inr, none, some, [], ◌∷◌, arith, length,
  if◌then◌else◌, ◌==◌, Option-cases, Bool-cases,
}
use platarium_gateway_go.Common.Text.{Text, text_eq, text_beq, text_beq_iff}
use platarium_gateway_go.Common.Dict.{Dict, lookup, insert, lookup-insert}
use platarium_gateway_go.Deals.Quorum.{count_or_zero, quorum_from, quorum_of}

-- How many reveals hold the verdict `v`.
unfoldable pub votes : Text → Dict Text → ℕ
unfolding text_beq
votes v [] = 0
votes v ((k, w) ∷ d) = if w == v then suc (votes v d) else votes v d

abbrev seen : Text → Dict ℕ → ℕ
seen v counts = count_or_zero (lookup v counts)

seen-insert :
    (v w : Text) (n : ℕ) (counts : Dict ℕ)
    → seen v (insert w n counts) ≡ (if w == v then n else seen v counts)
seen-insert v w n counts = rw (lookup-insert w v n counts) (ground arith)

quorum_from_sound :
    (v : Text) (counts : Dict ℕ) (d : Dict Text)
    → quorum_from counts d ≡ some v
    → 3 ≤ seen v counts + votes v d
unfolding quorum_from votes
quorum_from_sound v counts [] e = cc
quorum_from_sound v counts ((k, w) ∷ d) e =
    let n = seen w counts + 1 in
    ground
      (arith, quorum_from_sound v (insert w n counts) d, seen-insert v w n counts, text_beq_iff w v)

quorum_from_complete :
    (v : Text) (counts : Dict ℕ) (d : Dict Text)
    → seen v counts < 3
    → 3 ≤ seen v counts + votes v d
    → quorum_from counts d ≢ none
unfolding quorum_from votes
quorum_from_complete v counts [] h m = absurd (omega arith)
quorum_from_complete v counts ((k, w) ∷ d) h m =
    let n = seen w counts + 1 in
    ground (
      arith,
      quorum_from_complete v (insert w n counts) d,
      seen-insert v w n counts,
      text_beq_iff w v,
    )

pub votes_disjoint : (v w : Text) (d : Dict Text) → v ≢ w → votes v d + votes w d ≤ length d
unfolding votes
votes_disjoint v w [] h = omega arith
votes_disjoint v w ((k, u) ∷ d) h =
    ground (arith, votes_disjoint v w d h, text_beq_iff u v, text_beq_iff u w)

-- A verdict that wins has three votes.
pub quorum_of-votes : (d : Dict Text) (v : Text) → quorum_of d ≡ some v → 3 ≤ votes v d
unfolding quorum_of lookup
quorum_of-votes d v e = omega (arith, quorum_from_sound v [] d e)

-- Among at most five reveals, in any order, the winner is the verdict with three votes.
pub quorum_of-majority :
    (d : Dict Text) (v : Text) → length d ≤ 5 → (quorum_of d ≡ some v) ↔ (3 ≤ votes v d)
unfolding quorum_of lookup
quorum_of-majority d v five = (quorum_of-votes d v, wins)
  where
    wins : 3 ≤ votes v d → quorum_of d ≡ some v
    wins h = elim (Option-cases (quorum_of d)) [
      | inl e ↦ absurd (quorum_from_complete v [] d (omega arith) (omega arith) e)
      | inr (w, e) ↦ elim (Bool-cases (text_beq w v)) [
        | inl same ↦ rw e (ap some ((text_beq_iff w v).0 same))
        | inr other ↦ absurd (
            omega (
              arith,
              quorum_of-votes d w e,
              votes_disjoint w v d (λ p. ground (arith, text_beq_iff w v)),
            ))
      ]
    ]

-- A reveal under a new key takes no vote away.
pub votes-insert :
    (v k w : Text) (d : Dict Text) → lookup k d ≡ none → votes v d ≤ votes v (insert k w d)
unfolding votes lookup insert
votes-insert v k w [] e = ground arith
votes-insert v k w ((j, u) ∷ d) e = ground (arith, votes-insert v k w d)
