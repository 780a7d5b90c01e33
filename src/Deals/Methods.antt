-- ===== src/Deals/Methods.antt =====
-- The methods of `Book` in internal/deals/book.go that open a case, take commitments and reveals,
-- and find the quorum. A method returns the new state and its result.
use platarium_gateway_go.Common.{
  true, false, ◌&&◌, ◌||◌, not, Option, none, some, List, [], ◌∷◌, ◌++◌, ltb, ℕ, if◌then◌else◌,
  ◌==◌,
}
use platarium_gateway_go.Common.Text.{Text, text, text_eq, text_beq}
use platarium_gateway_go.Common.Dict.{lookup, has_key, insert}
use platarium_gateway_go.Deals.Sets.{contains}
use platarium_gateway_go.Deals.Panel.{
  Sha256, strings_trim, parse_uint, hex, panel_seed, hash_commit, pick_five,
}
use platarium_gateway_go.Deals.Quorum.{verdict_fulfilled, verdict_not_fulfilled, core_outcome}
use platarium_gateway_go.Deals.Book.{
  Brief, Case, Book, Result, ok, err, panic, terms_required, few_volunteers, id_collision,
  unknown_case, not_on_panel, already_committed, hash_required, bad_verdict, no_match,
  already_revealed, set_from, flush_locked, settle_quorum,
}

abbrev pub put_case : Text → Case → Book → Book
put_case id c b = record b { cases = insert id c b.cases }

abbrev pub with_prior : Text → Case → Case
with_prior prior c = record c { brief = record (c.brief) { prior_result = prior } }

-- `OpenAppeal` where the escrow already has a case.
unfoldable pub reopen : Text → Text → Book → Book × Result Brief
unfolding lookup insert
reopen id prior b = elim (lookup id b.cases) [
  | none ↦ (b, panic)
  | some c ↦ let c' = with_prior prior c in (put_case id c' b, ok c'.brief)
]

-- `RevealNonce` after its checks.
unfoldable pub store_reveal : Text → Text → Case → Case
unfolding insert settle_quorum text_beq
store_reveal key verdict c =
    let c' = record c { reveals = insert key verdict c.reveals } in
    if c.frozen && c.quorum == [] then settle_quorum c' else c'

abbrev pub pool_of : Book → List Text → List Text
pool_of b bonded = elim b.roster [ [] ↦ bonded | k ∷ ks ↦ k ∷ ks ]

-- The end of `Commit` and of `RevealNonce`: store what the checks let through, and flush.
unfoldable pub finish : Text → Book → Result Case → Book × Result (Unit {0})
unfolding insert flush_locked
finish case_id b (ok c) = (flush_locked (put_case case_id c b), ok tt)
finish case_id b (err e) = (b, err e)
finish case_id b panic = (b, panic)

module _ (sha : Sha256) where
  unfoldable pub case_id_of : Text → Text → Text
  unfolding hex
  case_id_of escrow_id terms_hash =
      hex (sha.sum (text "deal-case|" ++ (escrow_id ++ (text "|" ++ terms_hash))))

  abbrev pub fresh_brief : Text → Text → Text → Brief
  fresh_brief terms escrow_id prior =
      let hash = hex (sha.sum terms) in
      record {
        case_id = case_id_of escrow_id hash;
        terms = terms;
        terms_hash = hash;
        prior_result = prior;
        reveals_open = false;
      }

  abbrev pub fresh_case : Brief → Text → Text → List Text → Case
  fresh_case brief open_block escrow_id panel = record {
    brief = brief;
    escrow_id = escrow_id;
    panel = panel;
    panel_set = set_from [] panel;
    commits = [];
    reveals = [];
    quorum = [];
    deadline = parse_uint open_block;
    frozen = false;
    instance_no = 1;
    generation = 1;
  }

  -- `OpenAppeal` once the panel is seated: store the case.
  unfoldable pub file_panel : Text → Text → Text → Text → List Text → Book → Book × Result Brief
  unfolding case_id_of set_from insert flush_locked text_beq
  file_panel terms open_block escrow_id prior panel b =
      let brief = fresh_brief terms escrow_id prior in
      let id = brief.case_id in
      if id == escrow_id then (b, err id_collision) else (
        flush_locked (record b {
          cases = insert id (fresh_case brief open_block escrow_id panel) b.cases;
          by_escrow = insert escrow_id id b.by_escrow;
        }),
        ok brief,
      )

  -- `OpenAppeal` where the escrow has no case.
  unfoldable pub open_fresh :
      Text → Text → Text → List Text → List Text → Text → Book → Book × Result Brief
  unfolding file_panel
  open_fresh terms open_block escrow_id bonded exclude prior b =
      elim (pick_five sha (panel_seed sha escrow_id terms 1 1) (pool_of b bonded) exclude) [
        | none ↦ (b, err few_volunteers)
        | some panel ↦ file_panel terms open_block escrow_id prior panel b
      ]

  unfoldable pub open_appeal :
      Text → Text → Text → List Text → List Text → Text → Book → Book × Result Brief
  unfolding reopen open_fresh lookup strings_trim text_beq
  open_appeal raw_terms open_block escrow_id bonded exclude prior b =
      let terms = strings_trim raw_terms in
      if terms == [] || escrow_id == []
      then (b, err terms_required)
      else elim (lookup escrow_id b.by_escrow) [
        | some id ↦ reopen id prior b
        | none ↦ open_fresh terms open_block escrow_id bonded exclude prior b
      ]

  -- `Open`
  pub open_case : Text → Text → Text → List Text → List Text → Book → Book × Result Brief
  unfolding open_appeal
  open_case terms open_block escrow_id bonded exclude b =
      open_appeal terms open_block escrow_id bonded exclude [] b

  -- `RevealNonce` once the case is found.
  unfoldable pub reveal_case : Text → Text → Text → Case → Result Case
  unfolding contains lookup has_key hash_commit store_reveal text_beq
  reveal_case key verdict nonce c =
      if not (contains key c.panel_set) then err not_on_panel else elim (lookup key c.commits) [
        | none ↦ err no_match
        | some want ↦
            if not (want == hash_commit sha verdict nonce)
            then err no_match
            else if has_key key c.reveals
            then err already_revealed
            else ok (store_reveal key verdict c)
      ]

  -- `RevealNonce` after the test of the verdict.
  unfoldable pub reveal_found : Text → Text → Text → Text → Book → Book × Result (Unit {0})
  unfolding reveal_case lookup finish
  reveal_found case_id key verdict nonce b = elim (lookup case_id b.cases) [
    | none ↦ (b, err unknown_case)
    | some c ↦ finish case_id b (reveal_case key verdict nonce c)
  ]

  unfoldable pub reveal_nonce : Text → Text → Text → Text → Book → Book × Result (Unit {0})
  unfolding reveal_found text_beq
  reveal_nonce case_id key verdict nonce b =
      if not (verdict == verdict_fulfilled) && not (verdict == verdict_not_fulfilled)
      then (b, err bad_verdict)
      else reveal_found case_id key verdict nonce b

  -- `Reveal`
  pub reveal : Text → Text → Text → Book → Book × Result (Unit {0})
  unfolding reveal_nonce
  reveal case_id key verdict b = reveal_nonce case_id key verdict [] b

-- `Commit` once the case is found.
unfoldable pub commit_case : Text → Text → Case → Result Case
unfolding contains has_key insert text_beq
commit_case key verdict_hash c =
    if not (contains key c.panel_set)
    then err not_on_panel
    else if has_key key c.commits
    then err already_committed
    else if verdict_hash == []
    then err hash_required
    else ok (record c { commits = insert key verdict_hash c.commits })

unfoldable pub commit : Text → Text → Text → Book → Book × Result (Unit {0})
unfolding commit_case lookup finish
commit case_id key verdict_hash b = elim (lookup case_id b.cases) [
  | none ↦ (b, err unknown_case)
  | some c ↦ finish case_id b (commit_case key verdict_hash c)
]

-- What `Quorum` does to a case that it finds.
unfoldable pub close_case : ℕ → Case → Case
unfolding settle_quorum
close_case height c =
    let c' = if not c.frozen && ltb c.deadline height then record c { frozen = true } else c in
    if c'.frozen then settle_quorum c' else c'

-- `Quorum`: the case may be frozen and settled, and is not flushed.
unfoldable pub quorum : Text → Book → Book × Option Text
unfolding close_case lookup insert core_outcome text_beq
quorum case_id b = elim (lookup case_id b.cases) [
  | none ↦ (b, none)
  | some c ↦
      let c' = close_case b.height c in
      (
        put_case case_id c' b,
        if not c'.frozen || c'.quorum == [] then none else some (core_outcome c'.quorum),
      )
]
