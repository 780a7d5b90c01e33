-- ===== src/Contacts/Carried.antt =====
-- How the requests of internal/contacteconomy/store.go after a call come from those before it.
use mathlib.Core.Option
use platarium_gateway_go.Common.{◌≡◌, sym, ◌∙◌, inl, inr, some, ap, subst, Bool-cases, some_inj}
use platarium_gateway_go.Common.Text.{Text, text_eq, text_beq, text_beq_iff}
use platarium_gateway_go.Common.Dict.{
  Dict, lookup, insert, map_values, lookup-insert_cases, lookup-insert_self, lookup-insert_ne,
  lookup-map_values, map_values-found,
}
use platarium_gateway_go.Contacts.Types.{ContactRequest}
use platarium_gateway_go.Contacts.Life.{Later, Later-refl}

-- Every request of `ys` is one of `xs`, related to it by `R`.
abbrev pub Carried :
    (ContactRequest → ContactRequest → Type 0) → Dict ContactRequest → Dict ContactRequest → Type 0
Carried R xs ys =
    (j : Text) (r : ContactRequest)
    → lookup j ys ≡ some r
    → (q : ContactRequest) × (lookup j xs ≡ some q) × R q r

-- Every request of `xs` is one of `ys`, later.
abbrev pub Kept : Dict ContactRequest → Dict ContactRequest → Type 0
Kept xs ys =
    (j : Text) (q : ContactRequest)
    → lookup j xs ≡ some q
    → (r : ContactRequest) × (lookup j ys ≡ some r) × Later q r

module _ (R : ContactRequest → ContactRequest → Type 0) (whole : (q : ContactRequest) → R q q) where
  pub insert-Carried :
      (id : Text) (q r : ContactRequest) (xs : Dict ContactRequest)
      → lookup id xs ≡ some q
      → R q r
      → Carried R xs (insert id r xs)
  insert-Carried id q r xs m x j t n = elim (lookup-insert_cases id j r t xs n) [
    | inl (e, f) ↦ (q, ap (λ k. lookup k xs) (sym e) ∙ m, subst (R q) f x)
    | inr (_, o) ↦ (t, o, whole t)
  ]

  pub map_values-Carried :
      (f : ContactRequest → ContactRequest) (xs : Dict ContactRequest)
      → ((q : ContactRequest) → R q (f q))
      → Carried R xs (map_values f xs)
  map_values-Carried f xs step j t n =
      let (q, m, same) = map_values-found f j xs t n in (q, m, subst (R q) same (step q))

pub insert-Kept :
    (id : Text) (q r : ContactRequest) (xs : Dict ContactRequest)
    → lookup id xs ≡ some q
    → Later q r
    → Kept xs (insert id r xs)
insert-Kept id q r xs m x j t n = elim (Bool-cases (text_beq id j)) [
  | inl same ↦
      let p = (text_beq_iff id j).0 same in
      let e : q ≡ t = some_inj (sym m ∙ (ap (λ k. lookup k xs) p ∙ n)) in
      (
        r,
        ap (λ k. lookup k (insert id r xs)) (sym p) ∙ lookup-insert_self id r xs,
        subst (λ y. Later y r) e x,
      )
  | inr other ↦ (
    t,
    lookup-insert_ne id j r xs (λ p. let y = (text_beq_iff id j).1 p in cc (y, other)) ∙ n,
    Later-refl t,
  )
]

pub map_values-Kept :
    (f : ContactRequest → ContactRequest) (xs : Dict ContactRequest)
    → ((q : ContactRequest) → Later q (f q))
    → Kept xs (map_values f xs)
map_values-Kept f xs step j t n = (f t, lookup-map_values f j xs ∙ ap (Option.map f) n, step t)
