-- ===== src/Deals/Case/Growth.antt =====
-- How a case of internal/deals/book.go may change: what it never loses.
use platarium_gateway_go.Common.{
  ℕ, ◌≡◌, refl, sym, ◌∙◌, ◌≢◌, inl, inr, Bool, true, false, none, some, [], ltb, if◌then◌else◌,
  ◌==◌, Bool-cases, subst, not, ◌&&◌,
}
use platarium_gateway_go.Common.Text.{Text, text_eq}
use platarium_gateway_go.Common.Dict.{lookup, insert}
use platarium_gateway_go.Deals.Panel.{Sha256}
use platarium_gateway_go.Deals.Book.{Case, ok, settle_quorum, freeze_case}
use platarium_gateway_go.Deals.Methods.{reveal_case, store_reveal, commit_case, close_case}
use platarium_gateway_go.Deals.Case.{
  settle_quorum_cases, kept_by_insert, commit_case-inv, reveal_case-inv,
}

-- What a case never loses: its panel, its deadline, what was committed and revealed, the freeze, and
-- the verdict once there is one.
pub record Extends (c d : Case) : Type 0 where
  pub same_id : d.brief.case_id ≡ c.brief.case_id
  pub same_escrow : d.escrow_id ≡ c.escrow_id
  pub same_panel : d.panel ≡ c.panel
  pub same_set : d.panel_set ≡ c.panel_set
  pub same_deadline : d.deadline ≡ c.deadline
  pub kept_commits : (k h : Text) → lookup k c.commits ≡ some h → lookup k d.commits ≡ some h
  pub kept_reveals : (k v : Text) → lookup k c.reveals ≡ some v → lookup k d.reveals ≡ some v
  pub kept_freeze : c.frozen ≡ true → d.frozen ≡ true
  pub kept_quorum : c.quorum ≢ [] → d.quorum ≡ c.quorum

pub Extends-refl : (c : Case) → Extends c c
Extends-refl c = record {
  same_id = refl;
  same_escrow = refl;
  same_panel = refl;
  same_set = refl;
  same_deadline = refl;
  kept_commits = λ k h e. e;
  kept_reveals = λ k v e. e;
  kept_freeze = λ e. e;
  kept_quorum = λ n. refl;
}

pub Extends-trans : (c d e : Case) → Extends c d → Extends d e → Extends c e
Extends-trans c d e x y = record {
  same_id = y.same_id ∙ x.same_id;
  same_escrow = y.same_escrow ∙ x.same_escrow;
  same_panel = y.same_panel ∙ x.same_panel;
  same_set = y.same_set ∙ x.same_set;
  same_deadline = y.same_deadline ∙ x.same_deadline;
  kept_commits = λ k h m. y.kept_commits k h (x.kept_commits k h m);
  kept_reveals = λ k v m. y.kept_reveals k v (x.kept_reveals k v m);
  kept_freeze = λ f. y.kept_freeze (x.kept_freeze f);
  kept_quorum =
      λ n. y.kept_quorum (subst (λ q. q ≢ []) (sym (x.kept_quorum n)) n) ∙ x.kept_quorum n;
}

settle_quorum-Extends : (c : Case) → Extends c (settle_quorum c)
settle_quorum-Extends c = elim (settle_quorum_cases c) [
  | inl e ↦ subst (Extends c) (sym e) (Extends-refl c)
  | inr (q, empty, _, e) ↦ subst (Extends c) (sym e) (record {
    same_id = refl;
    same_escrow = refl;
    same_panel = refl;
    same_set = refl;
    same_deadline = refl;
    kept_commits = λ k h e. e;
    kept_reveals = λ k v e. e;
    kept_freeze = λ e. e;
    kept_quorum = λ n. absurd (n empty);
  })
]

freeze-Extends : (c : Case) → Extends c (record c { frozen = true })
freeze-Extends c = record {
  same_id = refl;
  same_escrow = refl;
  same_panel = refl;
  same_set = refl;
  same_deadline = refl;
  kept_commits = λ k h e. e;
  kept_reveals = λ k v e. e;
  kept_freeze = λ e. refl;
  kept_quorum = λ n. refl;
}

freeze_settle-Extends : (c : Case) → Extends c (settle_quorum (record c { frozen = true }))
freeze_settle-Extends c =
    Extends-trans c _ _ (freeze-Extends c) (settle_quorum-Extends (record c { frozen = true }))

pub freeze_case-Extends : (h : ℕ) (c : Case) → Extends c (freeze_case h c)
unfolding freeze_case
freeze_case-Extends h c = elim (Bool-cases (not c.frozen && ltb c.deadline h)) [
  | inl e ↦ rw e (freeze_settle-Extends c)
  | inr e ↦ rw e (Extends-refl c)
]

settle_if-Extends : (b : Bool) (c : Case) → Extends c (if b then settle_quorum c else c)
settle_if-Extends true c = settle_quorum-Extends c
settle_if-Extends false c = Extends-refl c

pub close_case-Extends : (h : ℕ) (c : Case) → Extends c (close_case h c)
unfolding close_case
close_case-Extends h c = elim (Bool-cases (not c.frozen && ltb c.deadline h)) [
  | inl e ↦ rw e (freeze_settle-Extends c)
  | inr e ↦ rw e (settle_if-Extends c.frozen c)
]

pub commit_case-Extends :
    (key hash : Text) (c d : Case) → commit_case key hash c ≡ ok d → Extends c d
commit_case-Extends key hash c d e =
    let (_, new, _, same) = commit_case-inv key hash c d e in
    subst (Extends c) (sym same) (record {
      same_id = refl;
      same_escrow = refl;
      same_panel = refl;
      same_set = refl;
      same_deadline = refl;
      kept_commits = λ k h m. kept_by_insert key k hash c.commits h new m;
      kept_reveals = λ k v m. m;
      kept_freeze = λ f. f;
      kept_quorum = λ n. refl;
    })

reveal-Extends :
    (key verdict : Text) (c : Case)
    → lookup key c.reveals ≡ none
    → Extends c (record c { reveals = insert key verdict c.reveals })
reveal-Extends key verdict c new = record {
  same_id = refl;
  same_escrow = refl;
  same_panel = refl;
  same_set = refl;
  same_deadline = refl;
  kept_commits = λ k h m. m;
  kept_reveals = λ k v m. kept_by_insert key k verdict c.reveals v new m;
  kept_freeze = λ f. f;
  kept_quorum = λ n. refl;
}

pub reveal_case-Extends :
    (sha : Sha256) (key verdict nonce : Text) (c d : Case)
    → reveal_case sha key verdict nonce c ≡ ok d
    → Extends c d
unfolding store_reveal
reveal_case-Extends sha key verdict nonce c d e =
    let (_, _, new, same) = reveal_case-inv sha key verdict nonce c d e in
    subst (Extends c) (sym same) (
      Extends-trans c _ _ (reveal-Extends key verdict c new)
        (settle_if-Extends (c.frozen && c.quorum == []) _))
