-- ===== src/Sockets/Address.antt =====
-- internal/websocket/address.go: the canonical form of an address, which does not change it twice.
use mathlib.Core.List.{reverse_aux, map}
use platarium_gateway_go.Common.{
  ℕ, ◌+◌, ◌≡◌, refl, sym, ◌∙◌, ap, ◌⊎◌, Bool, true, false, ◌&&◌, ◌||◌, not, [], ◌∷◌, ◌++◌, length,
  ltb, if◌then◌else◌, nat_eq, arith, Bool-cases, inl, inr,
}
use platarium_gateway_go.Common.Text.{
  Text, text, text_eq, trim_space, to_lower, lower_byte, has_prefix, is_space,
}
use platarium_gateway_go.Common.Trimming.{trim_space-trim_space, trim_with-id, starts_well}

unfoldable pub is_hex_byte : ℕ → Bool
is_hex_byte c = not ((ltb c 48 || ltb 57 c) && (ltb c 97 || ltb 102 c))

-- The loop of `isHexString`.
unfoldable pub all_hex : Text → Bool
unfolding is_hex_byte
all_hex [] = true
all_hex (c ∷ s) = is_hex_byte c && all_hex s

unfoldable pub is_hex_string : Text → Bool
unfolding all_hex
is_hex_string [] = false
is_hex_string (c ∷ s) = all_hex (c ∷ s)

-- `v[2:]` of a text that has two bytes.
unfoldable pub after_two : Text → Text
after_two [] = []
after_two (c ∷ []) = []
after_two (c ∷ d ∷ s) = s

-- What follows the trimming.
unfoldable pub canonical_form : Text → Text
unfolding has_prefix to_lower is_hex_string after_two
canonical_form v =
    let hex = to_lower (after_two v) in
    if ltb (length v) 3
    then v
    else if (has_prefix v (text "Px") || has_prefix v (text "px")) && ltb 2 (length v)
    then (if is_hex_string hex then text "Px" ++ hex else v)
    else v

unfoldable pub normalize_platarium_address : Text → Text
unfolding trim_space canonical_form
normalize_platarium_address addr = canonical_form (trim_space addr)

hex-lower : (c : ℕ) → is_hex_byte c ≡ true → lower_byte c ≡ c
unfolding is_hex_byte lower_byte
hex-lower c h = ground arith

hex-space : (c : ℕ) → is_hex_byte c ≡ true → not (is_space c) ≡ true
unfolding is_hex_byte is_space
hex-space c h = ground arith

all_hex-cons :
    (c : ℕ) (s : Text) → all_hex (c ∷ s) ≡ true → (is_hex_byte c ≡ true) × (all_hex s ≡ true)
unfolding all_hex
all_hex-cons c s h = elim (Bool-cases (is_hex_byte c)) [
  | inl e ↦ (e, rw e at h)
  | inr e ↦ let f : false ≡ true = rw e at h in cc
]

to_lower-all_hex : (s : Text) → all_hex s ≡ true → to_lower s ≡ s
unfolding to_lower
to_lower-all_hex [] h = refl
to_lower-all_hex (c ∷ s) h =
    let (x, y) = all_hex-cons c s h in
    ap (λ d. d ∷ map lower_byte s) (hex-lower c x) ∙ ap (◌∷◌ c) (to_lower-all_hex s y)

reverse_aux-starts_well :
    (s r : Text)
    → all_hex s ≡ true
    → starts_well is_space r ≡ true
    → starts_well is_space (reverse_aux s r) ≡ true
unfolding starts_well
reverse_aux-starts_well [] r h k = k
reverse_aux-starts_well (c ∷ s) r h k =
    let (x, y) = all_hex-cons c s h in reverse_aux-starts_well s (c ∷ r) y (hex-space c x)

is_hex_string-all_hex : (s : Text) → is_hex_string s ≡ true → all_hex s ≡ true
unfolding is_hex_string
is_hex_string-all_hex [] h = cc
is_hex_string-all_hex (c ∷ s) h = h

-- A text is left as it is, or becomes the prefix before lower-case digits.
canonical_form-cases :
    (v : Text)
    → (canonical_form v ≡ v)
      ⊎ ((h : Text) × (all_hex h ≡ true) × (canonical_form v ≡ text "Px" ++ h))
unfolding canonical_form
canonical_form-cases v = elim (Bool-cases (ltb (length v) 3)) [
  | inl e ↦ inl (rw e refl)
  | inr e ↦
      elim (Bool-cases
        ((has_prefix v (text "Px") || has_prefix v (text "px")) && ltb 2 (length v))) [
          | inr f ↦ inl (rw (e, f) refl)
          | inl f ↦ elim (Bool-cases (is_hex_string (to_lower (after_two v)))) [
            | inr g ↦ inl (rw (e, f, g) refl)
            | inl g ↦ inr (
              to_lower (after_two v),
              is_hex_string-all_hex (to_lower (after_two v)) g,
              rw (e, f, g) refl,
            )
          ]
        ]
]

canonical_form-hex :
    (h : Text) → all_hex h ≡ true → canonical_form (text "Px" ++ h) ≡ text "Px" ++ h
unfolding canonical_form after_two has_prefix
canonical_form-hex h x = elim (Bool-cases (ltb (length h + 2) 3)) [
  | inl e ↦ ground (arith, e)
  | inr e ↦ elim (Bool-cases (is_hex_string h)) [
    | inl f ↦ simp (to_lower-all_hex h x, f) (ground arith)
    | inr f ↦ simp (to_lower-all_hex h x, f) (ground arith)
  ]
]

trim_space-hex : (h : Text) → all_hex h ≡ true → trim_space (text "Px" ++ h) ≡ text "Px" ++ h
unfolding trim_space starts_well is_space
trim_space-hex h x =
    trim_with-id is_space (text "Px" ++ h) refl (reverse_aux-starts_well h (120 ∷ 80 ∷ []) x refl)

-- The canonical form of an address is its own canonical form.
pub normalize-normalize :
    (addr : Text)
    → normalize_platarium_address (normalize_platarium_address addr)
      ≡ normalize_platarium_address addr
unfolding normalize_platarium_address
normalize-normalize addr = elim (canonical_form-cases (trim_space addr)) [
  | inl e ↦
      ap (λ t. canonical_form (trim_space t)) e ∙ ap canonical_form (trim_space-trim_space addr)
  | inr (h, x, e) ↦
      ap (λ t. canonical_form (trim_space t)) e
      ∙ ap canonical_form (trim_space-hex h x)
      ∙ canonical_form-hex h x
      ∙ sym e
]
