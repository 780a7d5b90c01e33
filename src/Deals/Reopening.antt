-- ===== src/Deals/Reopening.antt =====
-- A `Book` (internal/deals/book.go) that is flushed and opened again is the same book.
pub mod Index
use mathlib.Core.List.{append_assoc, append-nil}
use platarium_gateway_go.Common.{
  ◌≡◌, refl, sym, ◌∙◌, ◌≢◌, Bool, true, false, none, some, List, [], ◌∷◌, ◌++◌, arith, ap, subst,
  Option, ◌==◌, if◌then◌else◌,
}
use platarium_gateway_go.Common.Text.{Text, text_eq, text_beq, text_beq_iff}
use platarium_gateway_go.Common.Dict.{
  Dict, lookup, has_key, insert, lookup-insert_ne, lookup-nil_ne,
}
use platarium_gateway_go.Deals.Sets.{contains, Distinct}
use platarium_gateway_go.Deals.Panel.{Sha256}
use platarium_gateway_go.Deals.Book.{
  Case, PersistCase, PersistSnap, Book, persist, to_case, persist_all, flush_locked, new_book,
  load_rows, open_book, set_from,
}
use platarium_gateway_go.Deals.Case.{CaseInv}
use platarium_gateway_go.Deals.Case.Keys.{keys, contains-keys}
use platarium_gateway_go.Deals.Filed.{BookInv}
use Index.{index_of, Synced, insert_new, Apart, Apart-insert, Change-Synced}
use platarium_gateway_go.Deals.History.{AllFresh, step-Change}
use platarium_gateway_go.Deals.Step.{Call, step, run}

-- What `toCase` needs of a row to give the case back.
abbrev Rows : Dict Case → Type 0
Rows [] = Unit {0}
Rows ((id, c) ∷ d) = (c.brief.case_id ≡ id) × (c.panel_set ≡ set_from [] c.panel) × Rows d

to_case-persist : (c : Case) → c.panel_set ≡ set_from [] c.panel → to_case (persist c) ≡ c
unfolding to_case persist
to_case-persist c e = ap (λ s. record c { panel_set = s }) (sym e)

load_row :
    (id : Text) (c : Case) (rows : List PersistCase) (b : Book)
    → c.brief.case_id ≡ id
    → c.panel_set ≡ set_from [] c.panel
    → load_rows (persist c ∷ rows) b
      ≡ load_rows rows
          (record b { cases = insert id c b.cases; by_escrow = insert c.escrow_id id b.by_escrow })
unfolding load_rows
load_row id c rows b e m =
    ap
      (λ x. load_rows rows (record b {
        cases = insert x.brief.case_id x b.cases;
        by_escrow = insert x.escrow_id x.brief.case_id b.by_escrow;
      }))
      (to_case-persist c m)
    ∙ ap
        (λ i.
          load_rows rows
            (record b { cases = insert i c b.cases; by_escrow = insert c.escrow_id i b.by_escrow }))
        e

-- An insertion under a new key and then the rest is an append.
insert-append {ℓ} :
    {V : Type ℓ} (k : Text) (v : V) (acc d : Dict V)
    → lookup k acc ≡ none
    → insert k v acc ++ d ≡ acc ++ ((k, v) ∷ d)
insert-append k v acc d n = rw (insert_new k v acc n) (append_assoc acc ((k, v) ∷ []) d)

head-Apart {ℓ} :
    {V : Type ℓ} (k : Text) (v : V) (acc d : Dict V) → Apart acc ((k, v) ∷ d) → lookup k acc ≡ none
unfolding contains
head-Apart k v acc d h = h k (ground (arith, text_beq_iff k k))

load_rows-persist_all :
    (d : Dict Case) (b : Book)
    → Rows d
    → Distinct (keys d)
    → Distinct (keys (index_of d))
    → Apart b.cases d
    → Apart b.by_escrow (index_of d)
    → load_rows (persist_all d) b
      ≡ record b { cases = b.cases ++ d; by_escrow = b.by_escrow ++ index_of d }
unfolding persist_all
load_rows-persist_all [] b r u w p q =
    unfold load_rows in
    λ i. record b { cases = sym (append-nil b.cases) i; by_escrow = sym (append-nil b.by_escrow) i }
load_rows-persist_all ((id, c) ∷ d) b r u w p q =
    let e = c.escrow_id in
    load_row id c (persist_all d) b r.0 r.1
    ∙ (load_rows-persist_all d
          (record b { cases = insert id c b.cases; by_escrow = insert e id b.by_escrow }) r.2 u.1
          w.1 (Apart-insert id c b.cases d u.0 p) (Apart-insert e id b.by_escrow (index_of d) w.0 q)
        ∙ (λ i. record b {
          cases = insert-append id c b.cases d (head-Apart id c b.cases d p) i;
          by_escrow =
              insert-append e id b.by_escrow (index_of d)
                (head-Apart e id b.by_escrow (index_of d) q) i;
        }))

other_key :
    (j id : Text) (x : Case) (d : Dict Case)
    → contains id (keys d) ≡ false
    → lookup j d ≡ some x
    → text_beq id j ≡ false
unfolding has_key
other_key j id x d u m = ground (arith, text_beq_iff id j, contains-keys id d, contains-keys j d)

Rows-persist_all :
    (sha : Sha256) (d : Dict Case)
    → Distinct (keys d)
    → ((id : Text) (c : Case) → lookup id d ≡ some c → CaseInv sha c × (c.brief.case_id ≡ id))
    → Rows d
unfolding lookup
Rows-persist_all sha [] u h = tt
Rows-persist_all sha ((id, c) ∷ d) u h =
    let (v, e) = h id c (ground (arith, text_beq_iff id id)) in
    (e, v.members, Rows-persist_all sha d u.1 λ j x m. h j x (rw (other_key j id x d u.0 m) m))

nothing {ℓ} : {V : Type ℓ} (k : Text) → lookup {V = V} k [] ≡ none
unfolding lookup
nothing k = refl

abbrev snap_of : Book → PersistSnap
snap_of b = record { roster = b.roster; height = b.height; cases = persist_all b.cases }

flush_locked-file :
    (b : Book) → b.path ≢ [] → b.writable ≡ true → (flush_locked b).file ≡ some (snap_of b)
unfolding flush_locked
flush_locked-file b p v = ground (arith, text_beq_iff b.path [])

abbrev opened : Text → PersistSnap → Bool → Book
opened path snap w = record new_book {
  path = path;
  file = some snap;
  writable = w;
  roster = snap.roster;
  height = snap.height;
}

open_book-some :
    (path : Text) (snap : PersistSnap) (w : Bool)
    → path ≢ []
    → open_book path (some snap) w ≡ load_rows snap.cases (opened path snap w)
unfolding open_book
open_book-some path snap w p = ground (arith, text_beq_iff path [])

-- A book with a path and a writable file, that keeps its invariant and whose index is in step with its
-- cases, is opened from what it flushed with the same roster, height, cases and escrow index.
pub open_book-flush_locked :
    (sha : Sha256) (b : Book) (w : Bool)
    → b.path ≢ []
    → b.writable ≡ true
    → BookInv sha b
    → Synced b.cases b.by_escrow
    → let b' = open_book b.path (flush_locked b).file w in
      (b'.roster ≡ b.roster)
      × (b'.height ≡ b.height)
      × (b'.cases ≡ b.cases)
      × (b'.by_escrow ≡ b.by_escrow)
unfolding new_book
open_book-flush_locked sha b w p v inv s =
    let e : open_book b.path (flush_locked b).file w
        ≡ record (opened b.path (snap_of b) w) { cases = b.cases; by_escrow = index_of b.cases } =
      ap (λ f. open_book b.path f w) (flush_locked-file b p v)
      ∙ (open_book-some b.path (snap_of b) w p
          ∙ load_rows-persist_all b.cases (opened b.path (snap_of b) w)
              (Rows-persist_all sha b.cases s.ids inv.sound) s.ids
              (subst (λ x. Distinct (keys x)) s.in_step s.escrows) (λ k m. nothing k)
              (λ k m. nothing k)) in
    (
      ap (λ x. x.roster) e,
      ap (λ x. x.height) e,
      ap (λ x. x.cases) e,
      ap (λ x. x.by_escrow) e ∙ sym s.in_step,
    )

-- Through any calls that do not hash a new case to the id of another, the escrow index stays in step
-- with the cases.
pub run-Synced :
    (sha : Sha256) (calls : List Call) (b : Book)
    → AllFresh sha calls b
    → Synced b.cases b.by_escrow
    → Synced (run sha calls b).cases (run sha calls b).by_escrow
unfolding run AllFresh
run-Synced sha [] b f s = s
run-Synced sha (call ∷ calls) b f s =
    let b' = step sha call b in
    run-Synced sha calls b' f.1
      (Change-Synced b.cases b.by_escrow b'.cases b'.by_escrow (step-Change sha call b f.0) s)
