-- ===== src/Deals/Sets.antt =====
-- Go's `map[string]struct{}` and the slices of addresses of package deals, with the lemmas on
-- membership, distinctness and removal at an index.
use platarium_gateway_go.Common.{
  ℕ, zero, suc, ◌+◌, ◌≤◌, ◌<◌, ◌≡◌, refl, ◌≢◌, subst, Bool, true, false, ◌||◌, List, [], ◌∷◌, arith,
  length, if◌then◌else◌, ◌==◌,
}
use platarium_gateway_go.Common.Text.{Text, text_eq, text_beq, text_beq_iff}

-- `_, ok := set[k]`
unfoldable pub contains : Text → List Text → Bool
unfolding text_beq
contains k [] = false
contains k (x ∷ xs) = x == k || contains k xs

abbrev pub Distinct : List Text → Type 0
Distinct [] = Unit {0}
Distinct (x ∷ xs) = (contains x xs ≡ false) × Distinct xs

-- `list[i]`; the callers stay in range.
unfoldable pub get_or : List Text → ℕ → Text → Text
get_or [] i d = d
get_or (x ∷ xs) zero d = x
get_or (x ∷ xs) (suc i) d = get_or xs i d

-- `append(list[:i], list[i+1:]...)`
unfoldable pub remove_at : ℕ → List Text → List Text
remove_at i [] = []
remove_at zero (x ∷ xs) = xs
remove_at (suc i) (x ∷ xs) = x ∷ remove_at i xs

pub length-remove_at :
    (i : ℕ) (xs : List Text) → i < length xs → length (remove_at i xs) + 1 ≡ length xs
unfolding remove_at
length-remove_at i [] h = elim h [ ]
length-remove_at zero (x ∷ xs) h = omega arith
length-remove_at (suc i) (x ∷ xs) h = omega (arith, length-remove_at i xs)

pub contains-get_or :
    (i : ℕ) (xs : List Text) (d : Text) → i < length xs → contains (get_or xs i d) xs ≡ true
unfolding contains get_or
contains-get_or i [] d h = elim h [ ]
contains-get_or zero (x ∷ xs) d h = ground (arith, text_beq_iff x x)
contains-get_or (suc i) (x ∷ xs) d h = ground (arith, contains-get_or i xs d)

-- What is left after a removal was there before.
pub contains-remove_at :
    (k : Text) (i : ℕ) (xs : List Text)
    → contains k xs ≡ false
    → contains k (remove_at i xs) ≡ false
unfolding contains remove_at
contains-remove_at k i [] h = refl
contains-remove_at k zero (x ∷ xs) h = ground arith
contains-remove_at k (suc i) (x ∷ xs) h = ground (arith, contains-remove_at k i xs)

pub remove_at-Distinct : (i : ℕ) (xs : List Text) → Distinct xs → Distinct (remove_at i xs)
unfolding remove_at
remove_at-Distinct i [] h = tt
remove_at-Distinct zero (x ∷ xs) h = h.1
remove_at-Distinct (suc i) (x ∷ xs) h = (contains-remove_at x i xs h.0, remove_at-Distinct i xs h.1)

-- The element taken out is not left behind.
pub get_or-not_in-remove_at :
    (i : ℕ) (xs : List Text) (d : Text)
    → i < length xs
    → Distinct xs
    → contains (get_or xs i d) (remove_at i xs) ≡ false
unfolding contains get_or remove_at
get_or-not_in-remove_at i [] d h u = refl
get_or-not_in-remove_at zero (x ∷ xs) d h u = u.0
get_or-not_in-remove_at (suc i) (x ∷ xs) d h u =
    ground (
      arith,
      get_or-not_in-remove_at i xs d,
      contains-get_or i xs d,
      text_beq_iff x (get_or xs i d),
    )

remove_first : Text → List Text → List Text
remove_first a [] = []
remove_first a (x ∷ xs) = if x == a then xs else x ∷ remove_first a xs

length-remove_first :
    (a : Text) (xs : List Text) → contains a xs ≡ true → length (remove_first a xs) + 1 ≡ length xs
unfolding contains remove_first
length-remove_first a [] h = cc
length-remove_first a (x ∷ xs) h = ground (arith, length-remove_first a xs)

contains-remove_first :
    (k a : Text) (xs : List Text)
    → contains k xs ≡ true
    → k ≢ a
    → contains k (remove_first a xs) ≡ true
unfolding contains remove_first
contains-remove_first k a [] h n = h
contains-remove_first k a (x ∷ xs) h n =
    ground (arith, contains-remove_first k a xs, text_beq_iff x k, text_beq_iff x a)

-- Distinct elements that all stand in a list are no more than the list has.
pub length-le_of_subset :
    (ws xs : List Text)
    → Distinct ws
    → ((k : Text) → contains k ws ≡ true → contains k xs ≡ true)
    → length ws ≤ length xs
unfolding contains
length-le_of_subset [] xs u h = omega arith
length-le_of_subset (w ∷ ws) xs u h =
    let here : contains w xs ≡ true = h w (ground (arith, text_beq_iff w w)) in
    omega (
      arith,
      length-remove_first w xs here,
      length-le_of_subset ws (remove_first w xs) u.1 λ k m.
          contains-remove_first k w xs (h k (ground arith)) (λ e.
            let c : contains w ws ≡ true = subst (λ t. contains t ws ≡ true) e m in cc (c, u.0)),
    )
