-- ===== src/Deals/Reading.antt =====
-- The methods of `Book` in internal/deals/book.go that read a case and leave the book as it is.
use platarium_gateway_go.Common.{◌&&◌, not, Option, none, some, List, [], ◌∷◌, if◌then◌else◌, ◌==◌}
use platarium_gateway_go.Common.Text.{Text, text_eq, text_beq, text_lt}
use platarium_gateway_go.Common.Dict.{Dict, lookup}
use platarium_gateway_go.Deals.Sets.{contains}
use platarium_gateway_go.Deals.Book.{Brief, Case, Book, Result, ok, err, unknown_case, no_quorum}

unfoldable pub brief_of : Text → Book → Option Brief
unfolding lookup
brief_of case_id b = elim (lookup case_id b.cases) [
  | none ↦ none
  | some c ↦ some (record (c.brief) { reveals_open = c.frozen })
]

unfoldable pub panel_of : Text → Book → Option (List Text)
unfolding lookup
panel_of case_id b = elim (lookup case_id b.cases) [ none ↦ none | some c ↦ some c.panel ]

unfoldable pub reveals_of : Text → Book → Result (Dict Text)
unfolding lookup
reveals_of case_id b = elim (lookup case_id b.cases) [
  | none ↦ err unknown_case
  | some c ↦ if not c.frozen then ok [] else ok c.reveals
]

unfoldable pub timeout_allowed : Text → Book → Result (Unit {0})
unfolding lookup text_beq
timeout_allowed case_id b = elim (lookup case_id b.cases) [
  | none ↦ err unknown_case
  | some c ↦
      if c.quorum == [] && c.frozen
      then err no_quorum
      else if c.quorum == []
      then err no_quorum
      else ok tt
]

-- sort.Slice by `CaseID`, by insertion.
insert_brief : Brief → List Brief → List Brief
unfolding text_lt
insert_brief x [] = x ∷ []
insert_brief x (y ∷ ys) = if text_lt y.case_id x.case_id then y ∷ insert_brief x ys else x ∷ y ∷ ys

briefs_from : Text → Dict Case → List Brief
unfolding insert_brief contains
briefs_from addr [] = []
briefs_from addr ((k, c) ∷ d) =
    let rest = briefs_from addr d in
    if contains addr c.panel_set then insert_brief c.brief rest else rest

unfoldable pub briefs_for : Text → Book → List Brief
unfolding briefs_from
briefs_for addr b = briefs_from addr b.cases
