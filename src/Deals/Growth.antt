-- ===== src/Deals/Growth.antt =====
-- No call on a `Book` (internal/deals/book.go) loses a case or anything that it holds.
use platarium_gateway_go.Common.{
  ◌≡◌, sym, ◌∙◌, inl, inr, none, some, List, [], ◌∷◌, Bool-cases, subst, ap, some_inj,
}
use mathlib.Core.Option
use platarium_gateway_go.Common.Text.{Text, text_eq, text_beq, text_beq_iff}
use platarium_gateway_go.Common.Dict.{
  Dict, lookup, insert, map_values, lookup-insert_self, lookup-insert_ne, lookup-map_values,
}
use platarium_gateway_go.Deals.Panel.{Sha256}
use platarium_gateway_go.Deals.Book.{Case, Book}
use platarium_gateway_go.Deals.Case.Growth.{Extends, Extends-refl, Extends-trans}
use platarium_gateway_go.Deals.Step.{Call, step, run}
use platarium_gateway_go.Deals.History.{Change, stays, puts, maps, files, step-Change, AllFresh}

-- Every case of `b` is a case of `b'`, with all that it held.
abbrev pub Kept : Dict Case → Dict Case → Type 0
Kept xs ys =
    (id : Text) (c : Case)
    → lookup id xs ≡ some c
    → (d : Case) × (lookup id ys ≡ some d) × Extends c d

Kept-refl : (xs : Dict Case) → Kept xs xs
Kept-refl xs id c m = (c, m, Extends-refl c)

put-Kept :
    (id : Text) (c d : Case) (xs : Dict Case)
    → lookup id xs ≡ some c
    → Extends c d
    → Kept xs (insert id d xs)
put-Kept id c d xs m x j e n = elim (Bool-cases (text_beq id j)) [
  | inl same ↦
      let p = (text_beq_iff id j).0 same in
      let q : c ≡ e = some_inj (sym m ∙ (ap (λ t. lookup t xs) p ∙ n)) in
      (
        d,
        ap (λ t. lookup t (insert id d xs)) (sym p) ∙ lookup-insert_self id d xs,
        subst (λ y. Extends y d) q x,
      )
  | inr other ↦ (
    e,
    lookup-insert_ne id j d xs (λ p. let t = (text_beq_iff id j).1 p in cc (t, other)) ∙ n,
    Extends-refl e,
  )
]

new-Kept : (id : Text) (d : Case) (xs : Dict Case) → lookup id xs ≡ none → Kept xs (insert id d xs)
new-Kept id d xs free j e n = (
  e,
  lookup-insert_ne id j d xs (λ p. let q = ap (λ t. lookup t xs) p in cc (q, free, n)) ∙ n,
  Extends-refl e,
)

map-Kept :
    (f : Case → Case) (xs : Dict Case) → ((c : Case) → Extends c (f c)) → Kept xs (map_values f xs)
map-Kept f xs grow id c m = (f c, lookup-map_values f id xs ∙ ap (Option.map f) m, grow c)

Change-Kept :
    {xs : Dict Case} {ix : Dict Text} {ys : Dict Case} {iy : Dict Text}
    → Change xs ix ys iy
    → Kept xs ys
Change-Kept {xs} (stays e _) = subst (Kept xs) (sym e) (Kept-refl xs)
Change-Kept {xs} (puts id c d m x e _) = subst (Kept xs) (sym e) (put-Kept id c d xs m x)
Change-Kept {xs} (maps f grow e _) = subst (Kept xs) (sym e) (map-Kept f xs grow)
Change-Kept {xs} (files id c free _ e _) = subst (Kept xs) (sym e) (new-Kept id c xs free)

module _ (sha : Sha256) where
  -- Through any calls that do not hash a new case to the id of another, every case stays, with its
  -- panel, its deadline, its commitments and reveals, its freeze and its verdict once there is one.
  pub run-Kept :
      (calls : List Call) (b : Book) → AllFresh sha calls b → Kept b.cases (run sha calls b).cases
  unfolding run AllFresh
  run-Kept [] b f = Kept-refl b.cases
  run-Kept (call ∷ calls) b f = λ id c m.
      let (d, n, x) = Change-Kept (step-Change sha call b f.0) id c m in
      let (e, o, y) = run-Kept calls (step sha call b) f.1 id d n in (e, o, Extends-trans c d e x y)
