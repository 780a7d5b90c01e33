-- ===== src/Deals/Panel/Seating.antt =====
-- What `PickFive` (internal/deals/book.go) seats: five distinct addresses of the pool, none of them
-- excluded, whenever the pool has five.
use platarium_gateway_go.Common.{
  ℕ, zero, suc, ◌+◌, ◌≤◌, ◌<◌, ◌≡◌, refl, ◌∙◌, ◌≢◌, true, false, ◌&&◌, ◌||◌, not, some, List, [],
  ◌∷◌, arith, length, ◌==◌, Bool-cases,
}
use platarium_gateway_go.Common.Text.{Text, text_eq, text_beq_iff}
use platarium_gateway_go.Deals.Sets.{
  contains, Distinct, get_or, remove_at, length-remove_at, contains-get_or, contains-remove_at,
  remove_at-Distinct, get_or-not_in-remove_at, length-le_of_subset,
}
use platarium_gateway_go.Deals.Panel.{
  Sha256, eligible_from, drop_empty, insert_sorted, sort_strings, eligible, seat_index, seats_from,
  pick_five,
}

pub contains-insert_sorted :
    (k a : Text) (l : List Text) → contains k (insert_sorted a l) ≡ (a == k || contains k l)
unfolding contains insert_sorted
contains-insert_sorted k a [] = ground arith
contains-insert_sorted k a (x ∷ l) = ground (arith, contains-insert_sorted k a l)

pub contains-sort_strings : (k : Text) (l : List Text) → contains k (sort_strings l) ≡ contains k l
unfolding contains sort_strings
contains-sort_strings k [] = refl
contains-sort_strings k (x ∷ l) =
    ground (arith, contains-insert_sorted k x (sort_strings l), contains-sort_strings k l)

length-insert_sorted : (a : Text) (l : List Text) → length (insert_sorted a l) ≡ suc (length l)
unfolding insert_sorted
length-insert_sorted a [] = refl
length-insert_sorted a (x ∷ l) = ground (arith, length-insert_sorted a l)

insert_sorted-Distinct :
    (a : Text) (l : List Text) → contains a l ≡ false → Distinct l → Distinct (insert_sorted a l)
unfolding contains insert_sorted
insert_sorted-Distinct a [] h u = (refl, tt)
insert_sorted-Distinct a (x ∷ l) h u = ground (
  arith,
  insert_sorted-Distinct a l,
  contains-insert_sorted x a l,
  text_beq_iff a x,
  text_beq_iff x a,
)

sort_strings-Distinct : (l : List Text) → Distinct l → Distinct (sort_strings l)
unfolding sort_strings
sort_strings-Distinct [] u = tt
sort_strings-Distinct (x ∷ l) u =
    insert_sorted-Distinct x (sort_strings l) (contains-sort_strings x l ∙ u.0)
      (sort_strings-Distinct l u.1)

contains-drop_empty :
    (k : Text) (l : List Text) → contains k (drop_empty l) ≡ (contains k l && not (k == []))
unfolding contains drop_empty
contains-drop_empty k [] = refl
contains-drop_empty k (e ∷ l) =
    ground (arith, contains-drop_empty k l, text_beq_iff e [], text_beq_iff k [], text_beq_iff e k)

contains-eligible_from :
    (k : Text) (drop seen l : List Text)
    → contains k (eligible_from drop seen l)
      ≡ (contains k l && (not (k == []) && (not (contains k drop) && not (contains k seen))))
unfolding contains eligible_from
contains-eligible_from k drop seen [] = refl
contains-eligible_from k drop seen (a ∷ l) = ground (
  arith,
  contains-eligible_from k drop seen l,
  contains-eligible_from k drop (a ∷ seen) l,
  text_beq_iff a k,
  text_beq_iff a [],
  text_beq_iff k [],
)

eligible_from-Distinct : (drop seen l : List Text) → Distinct (eligible_from drop seen l)
unfolding eligible_from
eligible_from-Distinct drop seen [] = tt
eligible_from-Distinct drop seen (a ∷ l) = ground (
  arith,
  eligible_from-Distinct drop seen l,
  eligible_from-Distinct drop (a ∷ seen) l,
  contains-eligible_from a drop (a ∷ seen) l,
  text_beq_iff a a,
)

-- An address is eligible when it is in the pool, not empty and not excluded.
pub contains-eligible :
    (k : Text) (bonded exclude : List Text)
    → contains k (eligible bonded exclude)
      ≡ (contains k bonded && (not (k == []) && not (contains k exclude)))
unfolding eligible contains
contains-eligible k bonded exclude = ground (
  arith,
  contains-sort_strings k (eligible_from (drop_empty exclude) [] bonded),
  contains-eligible_from k (drop_empty exclude) [] bonded,
  contains-drop_empty k exclude,
)

pub eligible-Distinct : (bonded exclude : List Text) → Distinct (eligible bonded exclude)
unfolding eligible
eligible-Distinct bonded exclude =
    sort_strings-Distinct _ (eligible_from-Distinct (drop_empty exclude) [] bonded)

module _ (sha : Sha256) where
  seat_index-lt : (seed : Text) (seat size : ℕ) → 0 < size → seat_index sha seed seat size < size
  unfolding seat_index
  seat_index-lt seed seat size h = omega arith

  length-seats_from :
      (seed : Text) (n seat : ℕ) (l : List Text) → length (seats_from sha seed n seat l) ≡ n
  unfolding seats_from
  length-seats_from seed zero seat l = refl
  length-seats_from seed (suc n) seat l = omega (arith, length-seats_from seed n (seat + 1))

  -- Every seat is taken from the list.
  seats_from-from_list :
      (k seed : Text) (n seat : ℕ) (l : List Text)
      → n ≤ length l
      → contains k l ≡ false
      → contains k (seats_from sha seed n seat l) ≡ false
  unfolding contains seats_from
  seats_from-from_list k seed zero seat l h m = refl
  seats_from-from_list k seed (suc n) seat l h m =
      let i = seat_index sha seed seat (length l) in
      let lt : i < length l = seat_index-lt seed seat (length l) (omega arith) in
      ground (
        arith,
        contains-get_or i l [] lt,
        text_beq_iff (get_or l i []) k,
        contains-remove_at k i l m,
        length-remove_at i l lt,
        seats_from-from_list k seed n (seat + 1) (remove_at i l),
      )

  seats_from-Distinct :
      (seed : Text) (n seat : ℕ) (l : List Text)
      → n ≤ length l
      → Distinct l
      → Distinct (seats_from sha seed n seat l)
  unfolding seats_from
  seats_from-Distinct seed zero seat l h u = tt
  seats_from-Distinct seed (suc n) seat l h u =
      let i = seat_index sha seed seat (length l) in
      let lt : i < length l = seat_index-lt seed seat (length l) (omega arith) in
      let fits : n ≤ length (remove_at i l) = omega (arith, length-remove_at i l lt) in
      (
        seats_from-from_list (get_or l i []) seed n (seat + 1) (remove_at i l) fits
            (get_or-not_in-remove_at i l [] lt u),
        seats_from-Distinct seed n (seat + 1) (remove_at i l) fits (remove_at-Distinct i l u),
      )

  pick_five-inv :
      (seed : Text) (bonded exclude panel : List Text)
      → pick_five sha seed bonded exclude ≡ some panel
      → (5 ≤ length (eligible bonded exclude))
        × (seats_from sha seed 5 0 (eligible bonded exclude) ≡ panel)
  unfolding pick_five
  pick_five-inv seed bonded exclude panel e = ground arith

  -- A panel that is seated has five distinct members, each of them in the pool, not empty and not
  -- excluded.
  pub pick_five-seats :
      (seed : Text) (bonded exclude panel : List Text)
      → pick_five sha seed bonded exclude ≡ some panel
      → (length panel ≡ 5)
        × Distinct panel
        × ((k : Text)
            → contains k panel ≡ true
            → (contains k bonded ≡ true) × (k ≢ []) × (contains k exclude ≡ false))
  pick_five-seats seed bonded exclude panel e =
      let (fits, same) = pick_five-inv seed bonded exclude panel e in
      let list = eligible bonded exclude in
      rw (← same) (
        length-seats_from seed 5 0 list,
        seats_from-Distinct seed 5 0 list fits (eligible-Distinct bonded exclude),
        λ k m. ground (
          arith,
          seats_from-from_list k seed 5 0 list fits,
          contains-eligible k bonded exclude,
          text_beq_iff k [],
          Bool-cases (contains k list),
        ),
      )

  -- Five distinct addresses of the pool, none of them empty or excluded, are enough to seat a panel.
  pub pick_five-total :
      (seed : Text) (bonded exclude able : List Text)
      → Distinct able
      → 5 ≤ length able
      → ((k : Text)
          → contains k able ≡ true
          → (contains k bonded ≡ true) × (k ≢ []) × (contains k exclude ≡ false))
      → (panel : List Text) × (pick_five sha seed bonded exclude ≡ some panel)
  unfolding pick_five
  pick_five-total seed bonded exclude able u five suits =
      let many : length able ≤ length (eligible bonded exclude) =
        length-le_of_subset able (eligible bonded exclude) u
          λ k m. ground (arith, suits k m, contains-eligible k bonded exclude, text_beq_iff k []) in
      (seats_from sha seed 5 0 (eligible bonded exclude), ground arith)
