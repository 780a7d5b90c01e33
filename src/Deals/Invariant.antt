-- ===== src/Deals/Invariant.antt =====
-- Every call on a `Book` (internal/deals/book.go) keeps its invariant.
use platarium_gateway_go.Common.{
  ℕ, ◌≡◌, refl, ◌∙◌, inl, inr, false, some, List, [], ◌∷◌, arith, ◌==◌, Bool-cases, Option-cases,
  not, ◌&&◌, ◌||◌,
}
use platarium_gateway_go.Common.Text.{Text, text_eq, text_beq, text_beq_iff}
use platarium_gateway_go.Common.Dict.{lookup, insert, map_values, lookup-nil_ne}
use platarium_gateway_go.Deals.Panel.{Sha256, pick_five, panel_seed, strings_trim}
use platarium_gateway_go.Deals.Panel.Seating.{pick_five-seats}
use platarium_gateway_go.Deals.Quorum.{verdict_fulfilled, verdict_not_fulfilled}
use platarium_gateway_go.Deals.Book.{
  Brief, Case, Book, Result, ok, err, panic, set_roster, set_height, freeze_case, roster_from,
  new_book,
}
use platarium_gateway_go.Deals.Methods.{
  reveal_case, commit_case, close_case, fresh_case, fresh_brief, pool_of, reopen, open_fresh,
  open_appeal, finish, put_case, commit, reveal_found, with_prior, file_panel, reveal_nonce, quorum,
}
use platarium_gateway_go.Deals.Case.{
  IsVerdict, CaseInv, freeze_case-CaseInv, close_case-CaseInv, commit_case-CaseInv,
  reveal_case-CaseInv,
}
use platarium_gateway_go.Deals.Case.Growth.{
  freeze_case-Extends, close_case-Extends, commit_case-Extends, reveal_case-Extends,
}
use platarium_gateway_go.Deals.Step.{Call, step, run}
use platarium_gateway_go.Deals.Filed.{BookInv, flush-BookInv, put-Filed, file-Filed, map-Filed}

module _ (sha : Sha256) where
  pub set_roster-BookInv :
      (keys : List Text) (b : Book) → BookInv sha b → BookInv sha (set_roster keys b)
  unfolding set_roster
  set_roster-BookInv keys b v = flush-BookInv sha (record b { roster = roster_from [] keys }) v

  pub set_height-BookInv : (h : ℕ) (b : Book) → BookInv sha b → BookInv sha (set_height h b)
  unfolding set_height
  set_height-BookInv h b v =
      flush-BookInv sha (record b { height = h; cases = map_values (freeze_case h) b.cases })
        (map-Filed sha (freeze_case h) b.cases b.by_escrow (freeze_case-CaseInv sha h)
          (freeze_case-Extends h) v)

  finish-BookInv :
      (id : Text) (b : Book) (r : Result Case)
      → ((d : Case) → r ≡ ok d → CaseInv sha d × (d.brief.case_id ≡ id))
      → BookInv sha b
      → BookInv sha (finish id b r).0
  unfolding finish
  finish-BookInv id b (ok d) h v =
      let (w, same) = h d refl in
      flush-BookInv sha (put_case id d b) (put-Filed sha id d b.cases b.by_escrow w same v)
  finish-BookInv id b (err e) h v = v
  finish-BookInv id b panic h v = v

  pub commit-BookInv :
      (id key hash : Text) (b : Book) → BookInv sha b → BookInv sha (commit id key hash b).0
  unfolding commit
  commit-BookInv id key hash b v = elim (Option-cases (lookup id b.cases)) [
    | inl n ↦ rw (n, commit) v
    | inr (c, m) ↦
        let (w, same) = v.sound id c m in
        rw (m, commit)
          (finish-BookInv id b (commit_case key hash c)
            (λ d e. (
              commit_case-CaseInv sha key hash c d e w,
              (commit_case-Extends key hash c d e).same_id ∙ same,
            ))
            v)
  ]

  IsVerdict-test :
      (v : Text)
      → (not (v == verdict_fulfilled) && not (v == verdict_not_fulfilled)) ≡ false
      → IsVerdict v
  IsVerdict-test v e =
      ground (arith, text_beq_iff v verdict_fulfilled, text_beq_iff v verdict_not_fulfilled)

  reveal_found-BookInv :
      (id key verdict nonce : Text) (b : Book)
      → IsVerdict verdict
      → BookInv sha b
      → BookInv sha (reveal_found sha id key verdict nonce b).0
  unfolding reveal_found
  reveal_found-BookInv id key verdict nonce b i v = elim (Option-cases (lookup id b.cases)) [
    | inl n ↦ rw (n, reveal_found) v
    | inr (c, m) ↦
        let (w, same) = v.sound id c m in
        rw (m, reveal_found)
          (finish-BookInv id b (reveal_case sha key verdict nonce c)
            (λ d e. (
              reveal_case-CaseInv sha key verdict nonce c d i e w,
              (reveal_case-Extends sha key verdict nonce c d e).same_id ∙ same,
            ))
            v)
  ]

  pub reveal-BookInv :
      (id key verdict nonce : Text) (b : Book)
      → BookInv sha b
      → BookInv sha (reveal_nonce sha id key verdict nonce b).0
  unfolding reveal_nonce
  reveal-BookInv id key verdict nonce b v =
      elim (Bool-cases
        (not (verdict == verdict_fulfilled) && not (verdict == verdict_not_fulfilled))) [
          | inl bad ↦ rw bad v
          | inr good ↦
              rw good (reveal_found-BookInv id key verdict nonce b (IsVerdict-test verdict good) v)
        ]

  pub quorum-BookInv : (id : Text) (b : Book) → BookInv sha b → BookInv sha (quorum id b).0
  unfolding quorum
  quorum-BookInv id b v = elim (Option-cases (lookup id b.cases)) [
    | inl n ↦ rw (n, quorum) v
    | inr (c, m) ↦
        let (w, same) = v.sound id c m in
        rw (m, quorum)
          (put-Filed sha id (close_case b.height c) b.cases b.by_escrow
            (close_case-CaseInv sha b.height c w) ((close_case-Extends b.height c).same_id ∙ same)
            v)
  ]

  with_prior-CaseInv : (prior : Text) (c : Case) → CaseInv sha c → CaseInv sha (with_prior prior c)
  with_prior-CaseInv prior c v = record {
    seats = v.seats;
    apart = v.apart;
    members = v.members;
    committed = v.committed;
    backed = v.backed;
    once = v.once;
    decided = v.decided;
  }

  reopen-BookInv : (id prior : Text) (b : Book) → BookInv sha b → BookInv sha (reopen id prior b).0
  unfolding reopen
  reopen-BookInv id prior b v = elim (Option-cases (lookup id b.cases)) [
    | inl n ↦ rw (n, reopen) v
    | inr (c, m) ↦
        let (w, same) = v.sound id c m in
        rw (m, reopen)
          (put-Filed sha id (with_prior prior c) b.cases b.by_escrow (with_prior-CaseInv prior c w)
            same v)
  ]

  fresh_case-CaseInv :
      (brief : Brief) (block escrow seed : Text) (bonded exclude panel : List Text)
      → pick_five sha seed bonded exclude ≡ some panel
      → CaseInv sha (fresh_case sha brief block escrow panel)
  fresh_case-CaseInv brief block escrow seed bonded exclude panel e = record {
    seats = (pick_five-seats sha seed bonded exclude panel e).0;
    apart = (pick_five-seats sha seed bonded exclude panel e).1;
    members = refl;
    committed = λ k h m. absurd (lookup-nil_ne k h m);
    backed = λ k v m. absurd (lookup-nil_ne k v m);
    once = tt;
    decided = λ n. absurd (n refl);
  }

  file_panel-BookInv :
      (terms block escrow prior : Text) (panel : List Text) (b : Book)
      → ((brief : Brief) → CaseInv sha (fresh_case sha brief block escrow panel))
      → BookInv sha b
      → BookInv sha (file_panel sha terms block escrow prior panel b).0
  unfolding file_panel
  file_panel-BookInv terms block escrow prior panel b w v =
      let brief = fresh_brief sha terms escrow prior in
      let c = fresh_case sha brief block escrow panel in
      let id = brief.case_id in
      let b' : Book = record b {
        cases = insert id c b.cases;
        by_escrow = insert escrow id b.by_escrow;
      } in
      elim (Bool-cases (text_beq id escrow)) [
        | inl e ↦ rw e v
        | inr e ↦
            rw e (
              flush-BookInv sha b'
                (file-Filed sha id escrow c b.cases b.by_escrow (w brief) refl v))
      ]

  open_fresh-BookInv :
      (terms block escrow : Text) (bonded exclude : List Text) (prior : Text) (b : Book)
      → BookInv sha b
      → BookInv sha (open_fresh sha terms block escrow bonded exclude prior b).0
  unfolding open_fresh
  open_fresh-BookInv terms block escrow bonded exclude prior b v =
      let seed = panel_seed sha escrow terms 1 1 in
      elim (Option-cases (pick_five sha seed (pool_of b bonded) exclude)) [
        | inl n ↦ rw (n, open_fresh) v
        | inr (panel, m) ↦
            rw (m, open_fresh)
              (file_panel-BookInv terms block escrow prior panel b
                (λ brief.
                  fresh_case-CaseInv brief block escrow seed (pool_of b bonded) exclude panel m)
                v)
      ]

  open_appeal-BookInv :
      (terms block escrow : Text) (bonded exclude : List Text) (prior : Text) (b : Book)
      → BookInv sha b
      → BookInv sha (open_appeal sha terms block escrow bonded exclude prior b).0
  unfolding open_appeal
  open_appeal-BookInv terms block escrow bonded exclude prior b v =
      elim (Bool-cases (strings_trim terms == [] || escrow == [])) [
        | inl bad ↦ rw bad v
        | inr good ↦ elim (Option-cases (lookup escrow b.by_escrow)) [
          | inl n ↦
              rw (good, n)
                (open_fresh-BookInv (strings_trim terms) block escrow bonded exclude prior b v)
          | inr (id, m) ↦ rw (good, m) (reopen-BookInv id prior b v)
        ]
      ]

  -- Every call keeps every case sound.
  pub step-BookInv : (call : Call) (b : Book) → BookInv sha b → BookInv sha (step sha call b)
  unfolding step
  step-BookInv (Call.rosters keys) b v = set_roster-BookInv keys b v
  step-BookInv (Call.heights h) b v = set_height-BookInv h b v
  step-BookInv (Call.opens terms block escrow bonded exclude prior) b v =
      open_appeal-BookInv terms block escrow bonded exclude prior b v
  step-BookInv (Call.commits id key hash) b v = commit-BookInv id key hash b v
  step-BookInv (Call.reveals id key verdict nonce) b v = reveal-BookInv id key verdict nonce b v
  step-BookInv (Call.reads_quorum id) b v = quorum-BookInv id b v

  -- Every sequence of calls keeps the invariant of a book: each case has five distinct seats, each
  -- reveal in it opens a commitment of a seated member, at most one per member, its verdict has three
  -- of the revealed votes, it is filed under its id, and each escrow that is indexed has its case.
  pub run-BookInv : (calls : List Call) (b : Book) → BookInv sha b → BookInv sha (run sha calls b)
  unfolding run
  run-BookInv [] b v = v
  run-BookInv (c ∷ cs) b v = run-BookInv cs (step sha c b) (step-BookInv c b v)

  pub new_book-BookInv : BookInv sha new_book
  unfolding new_book
  new_book-BookInv = record {
    sound = λ id c m. absurd (lookup-nil_ne id c m);
    indexed = λ e id m. absurd (lookup-nil_ne e id m);
  }
