-- ===== src/Deals/Case/Keys.antt =====
-- The keys of a map are distinct when it is filled by assignment.
use platarium_gateway_go.Common.{
  true, some, sym, ◌∙◌, inl, inr, Option-cases, ◌≡◌, refl, ◌||◌, List, [], ◌∷◌, arith, ◌==◌, length,
}
use platarium_gateway_go.Common.Text.{Text, text_eq, text_beq_iff}
use platarium_gateway_go.Common.Dict.{Dict, lookup, has_key, insert}
use platarium_gateway_go.Deals.Sets.{contains, Distinct}

module _ {ℓ} {V : Type ℓ} where
  abbrev pub keys : Dict V → List Text
  keys [] = []
  keys ((k, v) ∷ d) = k ∷ keys d

  pub contains-keys : (k : Text) (d : Dict V) → contains k (keys d) ≡ has_key k d
  unfolding contains has_key
  contains-keys k [] = refl
  contains-keys k ((j, w) ∷ d) = ground (arith, contains-keys k d)

  contains-keys-insert :
      (k j : Text) (v : V) (d : Dict V)
      → contains j (keys (insert k v d)) ≡ (k == j || contains j (keys d))
  unfolding contains insert
  contains-keys-insert k j v [] = ground arith
  contains-keys-insert k j v ((i, w) ∷ d) =
      ground
        (arith, contains-keys-insert k j v d, text_beq_iff i k, text_beq_iff i j, text_beq_iff k j)

  pub insert-Distinct :
      (k : Text) (v : V) (d : Dict V) → Distinct (keys d) → Distinct (keys (insert k v d))
  unfolding insert contains
  insert-Distinct k v [] u = (refl, tt)
  insert-Distinct k v ((i, w) ∷ d) u = ground (
    arith,
    insert-Distinct k v d u.1,
    contains-keys-insert k i v d,
    text_beq_iff i k,
    text_beq_iff k i,
  )

  pub length-keys : (d : Dict V) → length (keys d) ≡ length d
  length-keys [] = refl
  length-keys (x ∷ d) = ground (arith, length-keys d)

  pub contains-keys_found :
      (k : Text) (d : Dict V) (v : V) → lookup k d ≡ some v → contains k (keys d) ≡ true
  unfolding has_key
  contains-keys_found k d v e = contains-keys k d ∙ rw (e, has_key) refl

  pub lookup_of_key :
      (k : Text) (d : Dict V) → contains k (keys d) ≡ true → (v : V) × (lookup k d ≡ some v)
  unfolding has_key
  lookup_of_key k d h = elim (Option-cases (lookup k d)) [
    | inl n ↦ let e = sym (contains-keys k d) ∙ h in let e' = rw (n, has_key) at e in cc
    | inr (v, e) ↦ (v, e)
  ]
