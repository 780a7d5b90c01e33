-- ===== src/Deals/Tests.antt =====
-- Runs of package deals (internal/deals) on concrete books, and instances of its theorems.
use platarium_gateway_go.Common.{
  ◌≤◌, ◌≡◌, refl, ◌≢◌, ◌⊎◌, inl, true, false, none, some, List, [], ◌∷◌, ◌++◌, arith, length, take,
  ◌↔◌,
}
use platarium_gateway_go.Common.Text.{Text, text, text_beq_iff}
use platarium_gateway_go.Common.Dict.{lookup, lookup-nil_ne}
use platarium_gateway_go.Deals.Digest.{toy, toy_from}
use platarium_gateway_go.Deals.Sets.{contains, Distinct}
use platarium_gateway_go.Deals.Panel.{panel_seed, pick_five, hash_commit, parse_uint, hex}
use platarium_gateway_go.Deals.Book.{Book, Case, open_book, flush_locked, set_height, ok}
use platarium_gateway_go.Deals.Methods.{
  quorum, open_appeal, reveal_case, open_fresh, case_id_of, commit, reveal_nonce,
}
use platarium_gateway_go.Deals.Filed.{BookInv}
use platarium_gateway_go.Deals.Reopening.Index.{Synced}
use platarium_gateway_go.Deals.History.{AllFresh}
use platarium_gateway_go.Deals.Quorum.{
  verdict_fulfilled, verdict_not_fulfilled, outcome_fulfilled, outcome_not_fulfilled, core_outcome,
  quorum_of,
}
use platarium_gateway_go.Deals.Quorum.Majority.{votes, quorum_of-majority}
use platarium_gateway_go.Deals.Rulings.{quorum_sound, quorum_complete}
use platarium_gateway_go.Deals.Invariant.{run-BookInv}
use platarium_gateway_go.Deals.Growth.{Kept, run-Kept}
use platarium_gateway_go.Deals.Panel.Seating.{pick_five-seats, pick_five-total}
use platarium_gateway_go.Deals.Reopening.{open_book-flush_locked, run-Synced}
use platarium_gateway_go.Deals.Secrecy.{reveal_case_binds}
use platarium_gateway_go.Deals.Step.{Call, run}

abbrev volunteers : List Text
volunteers = text "fa" ∷ text "eb" ∷ text "dc" ∷ text "cd" ∷ text "be" ∷ text "af" ∷ []

abbrev escrow : Text
escrow = text "escrow-1"

abbrev start : Book
start = open_book (text "book") none true

-- The id that the toy digest gives the case.
abbrev id : Text
id = hex (toy.sum (text "deal-case|escrow-1|" ++ hex (toy.sum (text "ship it"))))

abbrev nonce : Text
nonce = text "n"

abbrev sealed : Text
sealed = hash_commit toy verdict_fulfilled nonce

-- Three members commit to one verdict and reveal it, the last after the deadline.
abbrev calls : List Call
calls =
    Call.opens (text " ship it ") (text "5") escrow volunteers (text "af" ∷ []) []
    ∷ Call.commits id (text "cd") sealed
    ∷ Call.commits id (text "dc") sealed
    ∷ Call.commits id (text "fa") sealed
    ∷ Call.reveals id (text "cd") verdict_fulfilled nonce
    ∷ Call.reveals id (text "dc") verdict_fulfilled nonce
    ∷ Call.heights 6
    ∷ Call.reveals id (text "fa") verdict_fulfilled nonce
    ∷ []

abbrev ruled : Book
ruled = run toy calls start

start-BookInv : BookInv toy start
unfolding open_book
start-BookInv = record {
  sound = λ i c m. absurd (lookup-nil_ne i c m);
  indexed = λ e i m. absurd (lookup-nil_ne e i m);
}

start-Synced : Synced start.cases start.by_escrow
unfolding open_book
start-Synced = record { in_step = refl; ids = tt; escrows = tt }

-- `unfolding evaluation` opens what a run computes with.
abbrev evaluation : Unit {0}
unfolding run toy toy_from open_book open_appeal open_fresh panel_seed pick_five hash_commit hex
    contains set_height commit reveal_nonce case_id_of parse_uint
evaluation = tt

calls-AllFresh : AllFresh toy calls start
unfolding evaluation AllFresh
calls-AllFresh = ((λ n. refl), (tt, (tt, (tt, (tt, (tt, (tt, (tt, tt))))))))

abbrev in_reveals : List Call
in_reveals = take 6 calls

-- The book before the last reveal.
abbrev open_reveals : Book
open_reveals = run toy (take 7 calls) start

abbrev found : (c : Case) × (lookup id ruled.cases ≡ some c)
unfolding evaluation
found = (_, refl)

abbrev before_last : (c : Case) × (lookup id open_reveals.cases ≡ some c)
unfolding evaluation
before_last = (_, refl)

ruled-BookInv : BookInv toy ruled
ruled-BookInv = run-BookInv toy calls start start-BookInv

ruled-Synced : Synced ruled.cases ruled.by_escrow
ruled-Synced = run-Synced toy calls start calls-AllFresh start-Synced

ruling : (quorum id ruled).1 ≡ some outcome_fulfilled
unfolding evaluation quorum
ruling = refl

quorum_sound_example :
    (c : Case) × (v : Text) × (lookup id (quorum id ruled).0.cases ≡ some c)
    × (c.frozen ≡ true)
    × (3 ≤ votes v c.reveals)
    × (length c.reveals ≤ 5)
    × (((v ≡ verdict_fulfilled) × (outcome_fulfilled ≡ outcome_fulfilled))
        ⊎ ((v ≡ verdict_not_fulfilled) × (outcome_fulfilled ≡ outcome_not_fulfilled)))
quorum_sound_example = quorum_sound toy id ruled outcome_fulfilled ruled-BookInv ruling

found_frozen : found.0.frozen ≡ true
unfolding evaluation
found_frozen = refl

found_votes : 3 ≤ votes verdict_fulfilled found.0.reveals
unfolding evaluation votes
found_votes = omega arith

quorum_complete_example : (quorum id ruled).1 ≡ some (core_outcome verdict_fulfilled)
quorum_complete_example =
    quorum_complete toy id ruled found.0 verdict_fulfilled ruled-BookInv found.1 (inl found_frozen)
      found_votes

run-BookInv_example : BookInv toy (run toy calls start)
run-BookInv_example = run-BookInv toy calls start start-BookInv

run-Kept_example : Kept start.cases (run toy calls start).cases
run-Kept_example = run-Kept toy calls start calls-AllFresh

run-Synced_example : Synced (run toy calls start).cases (run toy calls start).by_escrow
run-Synced_example = run-Synced toy calls start calls-AllFresh start-Synced

abbrev seated :
    (panel : List Text) × (pick_five toy (text "seed") volunteers (text "af" ∷ []) ≡ some panel)
unfolding evaluation
seated = (_, refl)

pick_five-seats_example :
    (length seated.0 ≡ 5)
    × Distinct seated.0
    × ((k : Text)
        → contains k seated.0 ≡ true
        → (contains k volunteers ≡ true) × (k ≢ []) × (contains k (text "af" ∷ []) ≡ false))
pick_five-seats_example =
    pick_five-seats toy (text "seed") volunteers (text "af" ∷ []) seated.0 seated.1

abbrev able : List Text
able = text "fa" ∷ text "eb" ∷ text "dc" ∷ text "cd" ∷ text "be" ∷ []

able-Distinct : Distinct able
unfolding contains
able-Distinct = (refl, (refl, (refl, (refl, (refl, tt)))))

able_suits :
    (k : Text)
    → contains k able ≡ true
    → (contains k volunteers ≡ true) × (k ≢ []) × (contains k (text "af" ∷ []) ≡ false)
unfolding contains
able_suits k m = ground (
  arith,
  m,
  text_beq_iff (text "fa") k,
  text_beq_iff (text "eb") k,
  text_beq_iff (text "dc") k,
  text_beq_iff (text "cd") k,
  text_beq_iff (text "be") k,
  text_beq_iff (text "af") k,
)

pick_five-total_example :
    (panel : List Text) × (pick_five toy (text "seed") volunteers (text "af" ∷ []) ≡ some panel)
pick_five-total_example =
    pick_five-total toy (text "seed") volunteers (text "af" ∷ []) able able-Distinct (omega arith)
      able_suits

five_reveals : length found.0.reveals ≤ 5
unfolding evaluation
five_reveals = omega arith

quorum_of-majority_example :
    (quorum_of found.0.reveals ≡ some verdict_fulfilled)
    ↔ (3 ≤ votes verdict_fulfilled found.0.reveals)
quorum_of-majority_example = quorum_of-majority found.0.reveals verdict_fulfilled five_reveals

has_path : ruled.path ≢ []
unfolding evaluation
has_path e = cc

is_writable : ruled.writable ≡ true
unfolding evaluation
is_writable = refl

open_book-flush_locked_example :
    let b' = open_book ruled.path (flush_locked ruled).file true in
    (b'.roster ≡ ruled.roster)
    × (b'.height ≡ ruled.height)
    × (b'.cases ≡ ruled.cases)
    × (b'.by_escrow ≡ ruled.by_escrow)
open_book-flush_locked_example =
    open_book-flush_locked toy ruled true has_path is_writable ruled-BookInv ruled-Synced

abbrev revealed :
    (d : Case) × (reveal_case toy (text "fa") verdict_fulfilled nonce before_last.0 ≡ ok d)
unfolding evaluation reveal_case
revealed = (_, refl)

reveal_case_binds_example : verdict_fulfilled ≡ verdict_fulfilled
reveal_case_binds_example =
    reveal_case_binds toy (text "fa") verdict_fulfilled verdict_fulfilled nonce nonce before_last.0
      revealed.0 revealed.0 (inl refl) (inl refl) (λ e. refl) revealed.1 revealed.1

-- A member of the panel who has not committed.
late_member : contains (text "eb") found.0.panel_set ≡ true
unfolding evaluation
late_member = refl

late_new : lookup (text "eb") found.0.commits ≡ none
unfolding evaluation
late_new = refl

sealed-ne : sealed ≢ []
unfolding evaluation
sealed-ne e = cc
