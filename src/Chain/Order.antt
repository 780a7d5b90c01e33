-- ===== src/Chain/Order.antt =====
-- The helpers on transaction digests of internal/core/dag.go.
use platarium_gateway_go.Common.{
  ℕ, ◌+◌, Bool, true, false, ◌&&◌, not, List, [], ◌∷◌, ◌++◌, length, leb, if◌then◌else◌, ◌==◌,
}
use platarium_gateway_go.Common.Text.{Text, text_eq, text_beq}
use platarium_gateway_go.Deals.Sets.{contains}
use platarium_gateway_go.Deals.Panel.{sort_strings}

-- The set of a committee: each name once, none empty.
unfoldable pub name_set : List Text → List Text
unfolding text_beq contains
name_set [] = []
name_set (p ∷ ps) =
    let rest = name_set ps in if p == [] then rest else if contains p rest then rest else p ∷ rest

unfoldable pub build_dag_committee : Text → List Text → List Text
unfolding name_set sort_strings
build_dag_committee self_id peers = sort_strings (name_set (self_id ∷ peers))

unfoldable pub digest_overlap_count : List Text → List Text → ℕ
unfolding text_beq contains
digest_overlap_count [] batch = 0
digest_overlap_count (d ∷ ds) batch =
    let rest = digest_overlap_count ds batch in
    if not (d == []) && contains d batch then rest + 1 else rest

module _ {ℓ} {A : Type ℓ} (hash_of : A → Text) where
  -- An item, and whether it has been placed.
  abbrev pub Slots : Type ℓ
  Slots = List (A × Bool)

  unfoldable pub unplaced : List A → Slots
  unplaced [] = []
  unplaced (x ∷ xs) = (x, false) ∷ unplaced xs

  -- The first item with the hash `d`, unless it has been placed; it is then.
  unfoldable pub place : Text → Slots → List A × Slots
  unfolding text_beq
  place d [] = ([], [])
  place d ((x, used) ∷ slots) =
      let rest = place d slots in
      if hash_of x == d && not (d == [])
      then (if used then [] else x ∷ [], (x, true) ∷ slots)
      else (rest.0, (x, used) ∷ rest.1)

  unfoldable pub place_all : List Text → Slots → List A × Slots
  unfolding place
  place_all [] slots = ([], slots)
  place_all (d ∷ ds) slots =
      let (x, slots') = place d slots in
      let (xs, slots'') = place_all ds slots' in (x ++ xs, slots'')

  unfoldable pub left_over : Slots → List A
  left_over [] = []
  left_over ((x, used) ∷ slots) = let rest = left_over slots in if used then rest else x ∷ rest

  unfoldable pub permute_by_digests : List Text → List A → List A
  unfolding unplaced place_all left_over
  permute_by_digests [] items = items
  permute_by_digests (d ∷ ds) items =
      let placed = place_all (d ∷ ds) (unplaced items) in
      if leb (length items) 1 then items else placed.0 ++ left_over placed.1

unfoldable pub permute_strings : List Text → List Text → List Text
unfolding permute_by_digests
permute_strings digests hashes = permute_by_digests (λ h. h) digests hashes
