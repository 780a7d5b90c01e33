-- ===== src/Deals/History.antt =====
-- No call on a `Book` (internal/deals/book.go) loses a case or anything that it holds.
use platarium_gateway_go.Common.{
  ◌≡◌, refl, sym, inl, inr, none, some, List, [], ◌∷◌, ◌==◌, Bool-cases, Option-cases, subst, not,
  ◌&&◌, ◌||◌,
}
use platarium_gateway_go.Common.Text.{Text, text_eq, text_beq}
use platarium_gateway_go.Common.Dict.{Dict, lookup, insert, map_values}
use platarium_gateway_go.Deals.Panel.{Sha256, hex, pick_five, panel_seed, strings_trim}
use platarium_gateway_go.Deals.Quorum.{verdict_fulfilled, verdict_not_fulfilled}
use platarium_gateway_go.Deals.Book.{
  Case, Book, Result, ok, err, panic, flush_locked, set_roster, set_height, freeze_case,
  roster_from,
}
use platarium_gateway_go.Deals.Methods.{
  reveal_case, commit_case, close_case, fresh_case, fresh_brief, case_id_of, pool_of, reopen,
  open_fresh, open_appeal, finish, put_case, commit, reveal_found, with_prior, file_panel,
  reveal_nonce, quorum,
}
use platarium_gateway_go.Deals.Case.Growth.{
  Extends, freeze_case-Extends, close_case-Extends, commit_case-Extends, reveal_case-Extends,
}
use platarium_gateway_go.Deals.Filed.{flush_locked-fields}
use platarium_gateway_go.Deals.Step.{Call, step}

-- What a call does to the cases `xs` and to the index `ix` of a book.
pub data Change (xs : Dict Case) (ix : Dict Text) (ys : Dict Case) (iy : Dict Text) : Type 0 where
  stays : ys ≡ xs → iy ≡ ix → Change xs ix ys iy
  puts :
      (id : Text) (c d : Case)
      → lookup id xs ≡ some c
      → Extends c d
      → ys ≡ insert id d xs
      → iy ≡ ix
      → Change xs ix ys iy
  maps :
      (f : Case → Case)
      → ((c : Case) → Extends c (f c))
      → ys ≡ map_values f xs
      → iy ≡ ix
      → Change xs ix ys iy
  files :
      (id : Text) (c : Case)
      → lookup id xs ≡ none
      → lookup c.escrow_id ix ≡ none
      → ys ≡ insert id c xs
      → iy ≡ insert c.escrow_id id ix
      → Change xs ix ys iy

abbrev pub Changes : Book → Book → Type 0
Changes b b' = Change b.cases b.by_escrow b'.cases b'.by_escrow

unchanged : (b : Book) → Changes b b
unchanged b = stays refl refl

flush-Change : (b b' : Book) → Changes b b' → Changes b (flush_locked b')
flush-Change b b' h =
    let (c, e, _, _) = flush_locked-fields b' in
    subst (λ x. Change b.cases b.by_escrow x (flush_locked b').by_escrow) (sym c)
      (subst (λ x. Change b.cases b.by_escrow b'.cases x) (sym e) h)

finish-Change :
    (id : Text) (b : Book) (c : Case) (r : Result Case)
    → lookup id b.cases ≡ some c
    → ((d : Case) → r ≡ ok d → Extends c d)
    → Changes b (finish id b r).0
unfolding finish
finish-Change id b c (ok d) m h =
    flush-Change b (put_case id d b) (puts id c d m (h d refl) refl refl)
finish-Change id b c (err e) m h = unchanged b
finish-Change id b c panic m h = unchanged b

commit-Change : (id key hash : Text) (b : Book) → Changes b (commit id key hash b).0
unfolding commit
commit-Change id key hash b = elim (Option-cases (lookup id b.cases)) [
  | inl n ↦ rw (n, commit) (unchanged b)
  | inr (c, m) ↦
      rw (m, commit)
        (finish-Change id b c (commit_case key hash c) m (commit_case-Extends key hash c))
]

quorum-Change : (id : Text) (b : Book) → Changes b (quorum id b).0
unfolding quorum
quorum-Change id b = elim (Option-cases (lookup id b.cases)) [
  | inl n ↦ rw (n, quorum) (unchanged b)
  | inr (c, m) ↦
      rw (m, quorum) (puts id c (close_case b.height c) m (close_case-Extends b.height c) refl refl)
]

with_prior-Extends : (prior : Text) (c : Case) → Extends c (with_prior prior c)
with_prior-Extends prior c = record {
  same_id = refl;
  same_escrow = refl;
  same_panel = refl;
  same_set = refl;
  same_deadline = refl;
  kept_commits = λ k h e. e;
  kept_reveals = λ k v e. e;
  kept_freeze = λ e. e;
  kept_quorum = λ n. refl;
}

reopen-Change : (id prior : Text) (b : Book) → Changes b (reopen id prior b).0
unfolding reopen
reopen-Change id prior b = elim (Option-cases (lookup id b.cases)) [
  | inl n ↦ rw (n, reopen) (unchanged b)
  | inr (c, m) ↦
      rw (m, reopen) (puts id c (with_prior prior c) m (with_prior-Extends prior c) refl refl)
]

module _ (sha : Sha256) where
  reveal_found-Change :
      (id key verdict nonce : Text) (b : Book)
      → Changes b (reveal_found sha id key verdict nonce b).0
  unfolding reveal_found
  reveal_found-Change id key verdict nonce b = elim (Option-cases (lookup id b.cases)) [
    | inl n ↦ rw (n, reveal_found) (unchanged b)
    | inr (c, m) ↦
        rw (m, reveal_found)
          (finish-Change id b c (reveal_case sha key verdict nonce c) m
            (reveal_case-Extends sha key verdict nonce c))
  ]

  reveal-Change :
      (id key verdict nonce : Text) (b : Book)
      → Changes b (reveal_nonce sha id key verdict nonce b).0
  unfolding reveal_nonce
  reveal-Change id key verdict nonce b =
      elim (Bool-cases
        (not (verdict == verdict_fulfilled) && not (verdict == verdict_not_fulfilled))) [
          | inl bad ↦ rw bad (unchanged b)
          | inr good ↦ rw good (reveal_found-Change id key verdict nonce b)
        ]

  -- The id that `OpenAppeal` gives a new case.
  abbrev pub new_id : Text → Text → Text
  new_id terms escrow = case_id_of sha escrow (hex (sha.sum terms))

  file_panel-Change :
      (terms block escrow prior : Text) (panel : List Text) (b : Book)
      → lookup (new_id terms escrow) b.cases ≡ none
      → lookup escrow b.by_escrow ≡ none
      → Changes b (file_panel sha terms block escrow prior panel b).0
  unfolding file_panel
  file_panel-Change terms block escrow prior panel b free new =
      let brief = fresh_brief sha terms escrow prior in
      let c = fresh_case sha brief block escrow panel in
      let id = brief.case_id in
      let b' : Book = record b {
        cases = insert id c b.cases;
        by_escrow = insert escrow id b.by_escrow;
      } in
      elim (Bool-cases (text_beq id escrow)) [
        | inl e ↦ rw e (unchanged b)
        | inr e ↦ rw e (flush-Change b b' (files id c free new refl refl))
      ]

  open_fresh-Change :
      (terms block escrow : Text) (bonded exclude : List Text) (prior : Text) (b : Book)
      → lookup (new_id terms escrow) b.cases ≡ none
      → lookup escrow b.by_escrow ≡ none
      → Changes b (open_fresh sha terms block escrow bonded exclude prior b).0
  unfolding open_fresh
  open_fresh-Change terms block escrow bonded exclude prior b free new =
      elim (Option-cases
        (pick_five sha (panel_seed sha escrow terms 1 1) (pool_of b bonded) exclude)) [
          | inl n ↦ rw (n, open_fresh) (unchanged b)
          | inr (panel, m) ↦
              rw (m, open_fresh) (file_panel-Change terms block escrow prior panel b free new)
        ]

  -- A call does not hash a new case to the id of another one.
  abbrev pub IsFresh : Call → Book → Type 0
  IsFresh (Call.opens terms block escrow bonded exclude prior) b =
      lookup escrow b.by_escrow ≡ none → lookup (new_id (strings_trim terms) escrow) b.cases ≡ none
  IsFresh (Call.rosters keys) b = Unit
  IsFresh (Call.heights h) b = Unit
  IsFresh (Call.commits id key hash) b = Unit
  IsFresh (Call.reveals id key verdict nonce) b = Unit
  IsFresh (Call.reads_quorum id) b = Unit

  open_appeal-Change :
      (terms block escrow : Text) (bonded exclude : List Text) (prior : Text) (b : Book)
      → IsFresh (Call.opens terms block escrow bonded exclude prior) b
      → Changes b (open_appeal sha terms block escrow bonded exclude prior b).0
  unfolding open_appeal
  open_appeal-Change terms block escrow bonded exclude prior b free =
      elim (Bool-cases (strings_trim terms == [] || escrow == [])) [
        | inl bad ↦ rw bad (unchanged b)
        | inr good ↦ elim (Option-cases (lookup escrow b.by_escrow)) [
          | inl n ↦
              rw (good, n)
                (open_fresh-Change (strings_trim terms) block escrow bonded exclude prior b (free n)
                  n)
          | inr (id, m) ↦ rw (good, m) (reopen-Change id prior b)
        ]
      ]

  pub step-Change : (call : Call) (b : Book) → IsFresh call b → Changes b (step sha call b)
  unfolding step set_roster set_height
  step-Change (Call.rosters keys) b f =
      flush-Change b (record b { roster = roster_from [] keys }) (unchanged b)
  step-Change (Call.heights h) b f =
      flush-Change b (record b { height = h; cases = map_values (freeze_case h) b.cases })
        (maps (freeze_case h) (freeze_case-Extends h) refl refl)
  step-Change (Call.opens terms block escrow bonded exclude prior) b f =
      open_appeal-Change terms block escrow bonded exclude prior b f
  step-Change (Call.commits id key hash) b f = commit-Change id key hash b
  step-Change (Call.reveals id key verdict nonce) b f = reveal-Change id key verdict nonce b
  step-Change (Call.reads_quorum id) b f = quorum-Change id b

  unfoldable pub AllFresh : List Call → Book → Type 0
  AllFresh [] b = Unit
  AllFresh (c ∷ cs) b = IsFresh c b × AllFresh cs (step sha c b)
