-- ===== src/Common/Dict.antt =====
-- Go's `map[string]V` as an association list. The order of the list stands for the order in which
-- the runtime iterates; theorems hold for every such order.
use mathlib.Core.Option
use mathlib.Core.Logic.{inl, inr, ◌⊎◌, ◌≢◌}
use mathlib.Core.Path.{◌≡◌, refl, sym, ap, ◌∙◌}
use mathlib.Core.Bool.{Bool, true, false, false≢true}
use mathlib.Core.List.{List, [], ◌∷◌}
use mathlib.Core.Option.{Option, none, some}
use native.Mathlib.Omega.{arith}
use platarium_gateway_go.Common.Tests.{if◌then◌else◌, ◌==◌, Bool-cases, Option-cases, some_inj}
use platarium_gateway_go.Common.Text.{Text, text_eq, text_beq, text_beq_iff, text_beq_refl}

abbrev pub Dict {ℓ} : Type ℓ → Type ℓ
Dict V = List (Text × V)

module _ {ℓ} {V : Type ℓ} where
  unfoldable pub lookup : Text → Dict V → Option V
  unfolding text_beq
  lookup k [] = none
  lookup k ((j, v) ∷ d) = if j == k then some v else lookup k d

  -- `_, ok := d[k]`
  unfoldable pub has_key : Text → Dict V → Bool
  unfolding lookup
  has_key k d = elim (lookup k d) [ none ↦ false | some _ ↦ true ]

  -- `d[k] = v`
  unfoldable pub insert : Text → V → Dict V → Dict V
  unfolding text_beq
  insert k v [] = (k, v) ∷ []
  insert k v ((j, w) ∷ d) = if j == k then (k, v) ∷ d else (j, w) ∷ insert k v d

  -- `delete(d, k)`
  unfoldable pub erase : Text → Dict V → Dict V
  unfolding text_beq
  erase k [] = []
  erase k ((j, w) ∷ d) = if j == k then erase k d else (j, w) ∷ erase k d

  -- A loop that replaces each value.
  unfoldable pub map_values : (V → V) → Dict V → Dict V
  map_values f [] = []
  map_values f ((j, w) ∷ d) = (j, f w) ∷ map_values f d

  pub lookup-insert :
      (k j : Text) (v : V) (d : Dict V)
      → lookup j (insert k v d) ≡ (if k == j then some v else lookup j d)
  unfolding lookup insert
  lookup-insert k j v [] = refl
  lookup-insert k j v ((i, w) ∷ d) =
      ground (arith, text_beq_iff k j, text_beq_iff i k, text_beq_iff i j, lookup-insert k j v d)

  pub lookup-erase :
      (k j : Text) (d : Dict V) → lookup j (erase k d) ≡ (if k == j then none else lookup j d)
  unfolding lookup erase
  lookup-erase k j [] = ground arith
  lookup-erase k j ((i, w) ∷ d) =
      ground (arith, text_beq_iff k j, text_beq_iff i k, text_beq_iff i j, lookup-erase k j d)

  pub lookup-map_values :
      (f : V → V) (k : Text) (d : Dict V) → lookup k (map_values f d) ≡ Option.map f (lookup k d)
  unfolding lookup map_values
  lookup-map_values f k [] = refl
  lookup-map_values f k ((j, w) ∷ d) = elim (Bool-cases (text_beq j k)) [
    | inl e ↦ rw e
    | inr e ↦ rw e (lookup-map_values f k d)
  ]

  pub lookup-insert_self : (k : Text) (v : V) (d : Dict V) → lookup k (insert k v d) ≡ some v
  lookup-insert_self k v d = rw (lookup-insert k k v d, text_beq_refl k)

  pub lookup-insert_ne :
      (k j : Text) (v : V) (d : Dict V) → k ≢ j → lookup j (insert k v d) ≡ lookup j d
  lookup-insert_ne k j v d n = elim (Bool-cases (text_beq k j)) [
    | inl e ↦ absurd (n ((text_beq_iff k j).0 e))
    | inr e ↦ rw (lookup-insert k j v d, e)
  ]

  -- What is found after an assignment is the new value, or was found before.
  pub lookup-insert_cases :
      (k j : Text) (v w : V) (d : Dict V)
      → lookup j (insert k v d) ≡ some w
      → ((k ≡ j) × (v ≡ w)) ⊎ ((k ≢ j) × (lookup j d ≡ some w))
  lookup-insert_cases k j v w d m = elim (Bool-cases (text_beq k j)) [
    | inl e ↦
        let p = (text_beq_iff k j).0 e in
        inl
          (p, some_inj (sym (lookup-insert_self k v d) ∙ (ap (λ t. lookup t (insert k v d)) p ∙ m)))
    | inr e ↦
        let n : k ≢ j = λ p. false≢true (sym e ∙ (text_beq_iff k j).1 p) in
        inr (n, sym (lookup-insert_ne k j v d n) ∙ m)
  ]

  -- No key is lost by an assignment.
  pub lookup-insert_found :
      (k j : Text) (v w : V) (d : Dict V)
      → lookup j d ≡ some w
      → (u : V) × (lookup j (insert k v d) ≡ some u)
  lookup-insert_found k j v w d m = elim (Bool-cases (text_beq k j)) [
    | inl e ↦ (v, rw (lookup-insert k j v d, e))
    | inr e ↦ (w, rw (lookup-insert k j v d, e) m)
  ]

  pub map_values-found :
      (f : V → V) (k : Text) (d : Dict V) (w : V)
      → lookup k (map_values f d) ≡ some w
      → (v : V) × (lookup k d ≡ some v) × (f v ≡ w)
  map_values-found f k d w m = elim (Option-cases (lookup k d)) [
    | inl n ↦ let p = sym (lookup-map_values f k d) ∙ m in let q = rw n at p in cc
    | inr (v, e) ↦ let p = sym (lookup-map_values f k d) ∙ m in (v, e, some_inj (rw e at p))
  ]

  pub lookup-nil_ne : (k : Text) (w : V) → lookup k [] ≢ some w
  unfolding lookup
  lookup-nil_ne k w e = cc
