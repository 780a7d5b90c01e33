-- ===== src/Rating/Tests.antt =====
-- Runs of package rating (internal/rating) on a concrete registry, and instances of its theorems.
use platarium_gateway_go.Common.{◌≡◌, refl, List, [], ◌∷◌, arith, length, true, false}
use Prim.Native.Nat.{min}
use platarium_gateway_go.Deals.Sets.{contains, Distinct}
use platarium_gateway_go.Rating.Selection.{
  Rand, select_committee, filter_eligible_candidates, may_serve,
}
use platarium_gateway_go.Rating.Committee.{select_committee-seats}
use platarium_gateway_go.Common.Int.{pos, negsuc}
use platarium_gateway_go.Common.Text.{Text, text}
use platarium_gateway_go.Common.Dict.{lookup-nil_ne}
use platarium_gateway_go.Rating.Scores.{compute_reputation}
use platarium_gateway_go.Rating.Registry.{slash_equivocation, slash_no_vote, max_stake_locked}
use platarium_gateway_go.Rating.Calls.{
  Update, ensures, votes, uptimes, loads, recomputes, slashes, slashes_all, apply_all, AllModest,
}
use platarium_gateway_go.Rating.Invariant.{RegistryInv, apply_all-RegistryInv}
use platarium_gateway_go.Rating.Suspension.{IsBarred, apply_all-IsBarred}

abbrev node : Text
node = text "n1"

abbrev updates : List Update
updates =
    ensures node (pos 500) (pos 10)
    ∷ ensures (text "n2") (pos 1000) (pos 0)
    ∷ votes node (pos 3) (pos 10)
    ∷ loads node (pos 4) (pos 10)
    ∷ uptimes (text "n2") (negsuc 4)
    ∷ recomputes
    ∷ slashes node slash_no_vote
    ∷ slashes_all (node ∷ text "n3" ∷ []) slash_equivocation
    ∷ []

updates-AllModest : AllModest updates
updates-AllModest = (
  (500, refl, omega arith),
  ((1000, refl, omega arith), ((omega arith, omega arith), (tt, (tt, (tt, (tt, (tt, tt))))))),
)

apply_all-RegistryInv_example : RegistryInv (apply_all updates [])
apply_all-RegistryInv_example =
    apply_all-RegistryInv updates [] updates-AllModest (λ id n e. absurd (lookup-nil_ne id n e))

-- Seven equivocations suspend a new node.
abbrev offences : List Update
offences =
    let repeated = node ∷ node ∷ node ∷ node ∷ node ∷ node ∷ node ∷ [] in
    slashes_all repeated slash_equivocation ∷ []

barred : IsBarred node (apply_all offences [])
unfolding apply_all compute_reputation max_stake_locked
barred = (_, refl, refl)

apply_all-IsBarred_example : IsBarred node (apply_all updates (apply_all offences []))
apply_all-IsBarred_example = apply_all-IsBarred updates node (apply_all offences []) barred

-- A source whose every draw is zero.
abbrev zeros : Rand
zeros = record { int63n = λ draw n. pos 0; intn = λ draw n. 0; intn-lt = λ draw n h. h }

abbrev candidates : List Text
candidates = text "n4" ∷ text "n2" ∷ text "n5" ∷ []

candidates-Distinct : Distinct candidates
unfolding contains
candidates-Distinct = (refl, (refl, (refl, tt)))

candidates_named : contains [] candidates ≡ false
unfolding contains
candidates_named = refl

select_committee-seats_example :
    let r = apply_all updates [] in
    let committee = select_committee zeros r candidates (pos 2) in
    (length committee ≡ min 2 (length (filter_eligible_candidates r candidates)))
    × Distinct committee
    × ((k : Text)
        → contains k committee ≡ true
        → (contains k candidates ≡ true) × (may_serve r k ≡ true))
select_committee-seats_example =
    select_committee-seats zeros (apply_all updates []) candidates 2 candidates-Distinct
      candidates_named
