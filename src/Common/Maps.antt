-- ===== src/Common/Maps.antt =====
-- Go's `map[string]V` as a function, where a missing key reads as the zero value and a loop over the
-- map treats each key alike.
use mathlib.Core.Path.{◌≡◌, refl}
use mathlib.Core.Logic.{◌≢◌, inl, inr}
use platarium_gateway_go.Common.Tests.{if◌then◌else◌, ◌==◌, Bool-cases}
use platarium_gateway_go.Common.Text.{Text, text_eq, text_beq, text_beq_iff, text_beq_refl}

abbrev pub Table {ℓ} : Type ℓ → Type ℓ
Table V = Text → V

module _ {ℓ} {V : Type ℓ} where
  -- `m[k] = v`
  abbrev pub set_at : Text → V → Table V → Table V
  set_at k v m j = if k == j then v else m j

  pub set_at_self : (k : Text) (v : V) (m : Table V) → set_at k v m k ≡ v
  set_at_self k v m = rw (text_beq_refl k) refl

  pub set_at_ne : (k j : Text) (v : V) (m : Table V) → k ≢ j → set_at k v m j ≡ m j
  set_at_ne k j v m n = elim (Bool-cases (text_beq k j)) [
    | inl e ↦ absurd (n ((text_beq_iff k j).0 e))
    | inr e ↦ rw e refl
  ]
