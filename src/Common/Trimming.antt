-- ===== src/Common/Trimming.antt =====
-- Lemmas on strings.TrimSpace and strings.HasPrefix.
use Prim.Native.Nat.{ℕ}
use mathlib.Core.Path.{◌≡◌, refl, sym, ◌∙◌, ap}
use mathlib.Core.Logic.{inl, inr}
use mathlib.Core.Bool.{Bool, true, not}
use mathlib.Core.List.{[], ◌∷◌, ◌++◌, reverse, reverse-reverse, reverse-append}
use native.Mathlib.Omega.{arith}
use platarium_gateway_go.Common.Tests.{if◌then◌else◌, nat_eq, Bool-cases}
use platarium_gateway_go.Common.Text.{Text, drop_while, trim_with, trim_space, has_prefix, is_space}

module _ (p : ℕ → Bool) where
  -- The text does not start with a byte of the kind that is cut off.
  unfoldable pub starts_well : Text → Bool
  starts_well [] = true
  starts_well (c ∷ s) = not (p c)

  drop_while-starts_well : (s : Text) → starts_well (drop_while p s) ≡ true
  unfolding drop_while starts_well
  drop_while-starts_well [] = refl
  drop_while-starts_well (c ∷ s) = elim (Bool-cases (p c)) [
    | inl e ↦ rw e (drop_while-starts_well s)
    | inr e ↦ simp (e)
  ]

  drop_while-id : (s : Text) → starts_well s ≡ true → drop_while p s ≡ s
  unfolding drop_while starts_well
  drop_while-id [] h = refl
  drop_while-id (c ∷ s) h = elim (Bool-cases (p c)) [
    | inl e ↦ grind (arith, e, h)
    | inr e ↦ rw e refl
  ]

  starts_well-append_left : (s t : Text) → starts_well (s ++ t) ≡ true → starts_well s ≡ true
  unfolding starts_well
  starts_well-append_left [] t h = refl
  starts_well-append_left (c ∷ s) t h = h

  pub starts_well-append :
      (s t : Text) → starts_well s ≡ true → starts_well t ≡ true → starts_well (s ++ t) ≡ true
  unfolding starts_well
  starts_well-append [] t h k = k
  starts_well-append (c ∷ s) t h k = h

  -- What is cut off.
  cut : Text → Text
  cut [] = []
  cut (c ∷ s) = if p c then c ∷ cut s else []

  cut-drop_while : (s : Text) → cut s ++ drop_while p s ≡ s
  unfolding drop_while cut
  cut-drop_while [] = refl
  cut-drop_while (c ∷ s) = elim (Bool-cases (p c)) [
    | inl e ↦ rw e (ap (λ t. c ∷ t) (cut-drop_while s))
    | inr e ↦ rw e refl
  ]

  pub trim_with-id :
      (s : Text) → starts_well s ≡ true → starts_well (reverse s) ≡ true → trim_with p s ≡ s
  unfolding trim_with
  trim_with-id s h k =
      ap (λ t. reverse (drop_while p (reverse t))) (drop_while-id s h)
      ∙ ap reverse (drop_while-id (reverse s) k)
      ∙ reverse-reverse s

  pub trim_with-ends : (s : Text) → starts_well (reverse (trim_with p s)) ≡ true
  unfolding trim_with
  trim_with-ends s =
      let v = reverse (drop_while p s) in
      ap starts_well (reverse-reverse (drop_while p v)) ∙ drop_while-starts_well v

  pub trim_with-starts : (s : Text) → starts_well (trim_with p s) ≡ true
  unfolding trim_with
  trim_with-starts s =
      let u = drop_while p s in
      let v = reverse u in
      let split : reverse (drop_while p v) ++ reverse (cut v) ≡ u =
        sym (reverse-append (cut v) (drop_while p v))
        ∙ ap reverse (cut-drop_while v)
        ∙ reverse-reverse u in
      starts_well-append_left (reverse (drop_while p v)) (reverse (cut v))
        (ap starts_well split ∙ drop_while-starts_well s)

-- strings.TrimSpace, done twice, is done once.
pub trim_space-trim_space : (s : Text) → trim_space (trim_space s) ≡ trim_space s
unfolding trim_space
trim_space-trim_space s =
    trim_with-id is_space (trim_with is_space s) (trim_with-starts is_space s)
      (trim_with-ends is_space s)

pub has_prefix-append : (p s : Text) → has_prefix (p ++ s) p ≡ true
unfolding has_prefix
has_prefix-append [] s = has_prefix-nil s
  where
    has_prefix-nil : (s : Text) → has_prefix s [] ≡ true
    has_prefix-nil [] = refl
    has_prefix-nil (c ∷ s) = refl
has_prefix-append (c ∷ p) s = ground (arith, has_prefix-append p s)
