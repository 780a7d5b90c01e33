-- ===== src/Deals/Filed.antt =====
-- The invariant of a `Book` (internal/deals/book.go): every case is sound and filed under its id,
-- and every escrow that the index knows has its case.
use mathlib.Core.Option
use platarium_gateway_go.Common.{◌≡◌, sym, ◌∙◌, inl, inr, some, arith, subst, ap}
use platarium_gateway_go.Common.Text.{Text, text_eq}
use platarium_gateway_go.Common.Dict.{
  Dict, lookup, insert, map_values, lookup-insert_cases, lookup-insert_found, lookup-insert_self,
  lookup-map_values, map_values-found,
}
use platarium_gateway_go.Deals.Panel.{Sha256}
use platarium_gateway_go.Deals.Book.{Case, Book, flush_locked}
use platarium_gateway_go.Deals.Case.{CaseInv}
use platarium_gateway_go.Deals.Case.Growth.{Extends}

pub record Filed (sha : Sha256) (cases : Dict Case) (by_escrow : Dict Text) : Type 0 where
  pub sound :
      (id : Text) (c : Case) → lookup id cases ≡ some c → CaseInv sha c × (c.brief.case_id ≡ id)
  pub indexed :
      (e id : Text) → lookup e by_escrow ≡ some id → (c : Case) × (lookup id cases ≡ some c)

abbrev pub BookInv : Sha256 → Book → Type 0
BookInv sha b = Filed sha b.cases b.by_escrow

pub flush_locked-fields :
    (b : Book)
    → ((flush_locked b).cases ≡ b.cases)
      × ((flush_locked b).by_escrow ≡ b.by_escrow)
      × ((flush_locked b).roster ≡ b.roster)
      × ((flush_locked b).height ≡ b.height)
unfolding flush_locked
flush_locked-fields b = ground arith

module _ (sha : Sha256) where
  pub flush-BookInv : (b : Book) → BookInv sha b → BookInv sha (flush_locked b)
  flush-BookInv b v =
      let (c, e, _, _) = flush_locked-fields b in
      subst (λ x. Filed sha x (flush_locked b).by_escrow) (sym c)
        (subst (λ x. Filed sha b.cases x) (sym e) v)

  -- A sound case may take the place of the case with its id.
  pub put-Filed :
      (id : Text) (d : Case) (cases : Dict Case) (idx : Dict Text)
      → CaseInv sha d
      → d.brief.case_id ≡ id
      → Filed sha cases idx
      → Filed sha (insert id d cases) idx
  put-Filed id d cases idx w same v = record {
    sound = λ j c m. elim (lookup-insert_cases id j d c cases m) [
      | inl (e, f) ↦ subst (λ x. CaseInv sha x × (x.brief.case_id ≡ j)) f (w, same ∙ e)
      | inr (_, m') ↦ v.sound j c m'
    ];
    indexed = λ e j m. let (c, found) = v.indexed e j m in lookup-insert_found id j d c cases found;
  }

  pub file-Filed :
      (id escrow : Text) (d : Case) (cases : Dict Case) (idx : Dict Text)
      → CaseInv sha d
      → d.brief.case_id ≡ id
      → Filed sha cases idx
      → Filed sha (insert id d cases) (insert escrow id idx)
  file-Filed id escrow d cases idx w same v =
      let put = put-Filed id d cases idx w same v in
      record {
        sound = put.sound;
        indexed = λ e j m. elim (lookup-insert_cases escrow e id j idx m) [
          | inl (_, f) ↦
              subst (λ t. (c : Case) × (lookup t (insert id d cases) ≡ some c)) f
                (d, lookup-insert_self id d cases)
          | inr (_, m') ↦ put.indexed e j m'
        ];
      }

  pub map-Filed :
      (f : Case → Case) (cases : Dict Case) (idx : Dict Text)
      → ((c : Case) → CaseInv sha c → CaseInv sha (f c))
      → ((c : Case) → Extends c (f c))
      → Filed sha cases idx
      → Filed sha (map_values f cases) idx
  map-Filed f cases idx keep grow v = record {
    sound = λ j c m.
        let (c', found, same) = map_values-found f j cases c m in
        let (w, id) = v.sound j c' found in
        subst (λ x. CaseInv sha x × (x.brief.case_id ≡ j)) same (keep c' w, (grow c').same_id ∙ id);
    indexed = λ e j m.
        let (c, found) = v.indexed e j m in
        (f c, lookup-map_values f j cases ∙ ap (Option.map f) found);
  }
