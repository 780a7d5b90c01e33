-- ===== src/Contacts/Prices.antt =====
-- Prices, and the contacts of an unordered pair, in internal/contacteconomy/store.go.
use platarium_gateway_go.Common.{
  ℕ, ◌≤◌, ◌≡◌, sym, ◌∙◌, inl, inr, some, [], ◌++◌, Bool-cases, ap, arith, if◌then◌else◌,
}
use platarium_gateway_go.Common.Int.{ℤ}
use platarium_gateway_go.Common.Text.{
  Text, text, text_eq, text_beq, text_lt, text_lt-asym, text_lt-total, to_lower, equal_fold,
  equal_fold_iff,
}
use platarium_gateway_go.Common.Dict.{lookup, has_key, insert, lookup-insert_self}
use platarium_gateway_go.Contacts.Types.{Config, PricingAnnounce, Store, ok}
use platarium_gateway_go.Contacts.Store.{
  normalize, pair_key, clamp_fee, clamped, put_pricing, set_pricing, get_pricing,
  has_protocol_contact, can_send_free_dm,
}
use platarium_gateway_go.Contacts.Admission.{ok-ne-err, persisted-ok}
use platarium_gateway_go.Contacts.History.{persisted-data_of}

pair_key-flip_of :
    (x y : Text)
    → (if text_lt y x then y ++ (text "|" ++ x) else x ++ (text "|" ++ y))
      ≡ (if text_lt x y then x ++ (text "|" ++ y) else y ++ (text "|" ++ x))
pair_key-flip_of x y = elim (Bool-cases (text_lt y x)) [
  | inl e ↦ rw (e, text_lt-asym y x e)
  | inr e ↦ elim (Bool-cases (text_lt x y)) [
    | inl f ↦ rw (e, f)
    | inr f ↦ rw (text_lt-total x y f e)
  ]
]

pair_key-flip : (a b : Text) → pair_key a b ≡ pair_key b a
unfolding pair_key
pair_key-flip a b = pair_key-flip_of (to_lower (normalize a)) (to_lower (normalize b))

equal_fold-flip : (x y : Text) → equal_fold x y ≡ equal_fold y x
equal_fold-flip x y = elim (Bool-cases (equal_fold x y)) [
  | inl e ↦ e ∙ sym ((equal_fold_iff y x).1 (sym ((equal_fold_iff x y).0 e)))
  | inr e ↦ elim (Bool-cases (equal_fold y x)) [
    | inl f ↦ let g = (equal_fold_iff x y).1 (sym ((equal_fold_iff y x).0 f)) in cc
    | inr f ↦ e ∙ sym f
  ]
]

-- Whether two addresses may exchange free messages, and whether they are contacts, does not depend
-- on their order.
free_dm-symmetric :
    (a b : Text) (s : Store)
    → (has_protocol_contact a b s ≡ has_protocol_contact b a s)
      × (can_send_free_dm a b s ≡ can_send_free_dm b a s)
unfolding can_send_free_dm has_protocol_contact
free_dm-symmetric a b s = (
  ap (λ k. has_key k s.data_of.contacts) (pair_key-flip a b),
  rw (equal_fold-flip (normalize a) (normalize b), pair_key-flip a b),
)

clamp_fee-bounds :
    (cfg : Config) (fee : ℕ)
    → cfg.min_fee_uplp ≤ cfg.max_fee_uplp
    → (cfg.min_fee_uplp ≤ clamp_fee cfg fee) × (clamp_fee cfg fee ≤ cfg.max_fee_uplp)
unfolding clamp_fee
clamp_fee-bounds cfg fee h = ground arith

set_pricing-ok :
    (now : ℤ) (p q : PricingAnnounce) (s : Store)
    → (set_pricing now p s).1 ≡ ok q
    → (q ≡ clamped s.cfg now (normalize p.address) p)
      × ((set_pricing now p s).0.data_of.pricing
          ≡ insert (to_lower (normalize p.address)) q s.data_of.pricing)
unfolding set_pricing
set_pricing-ok now p q s = elim (Bool-cases (text_beq (normalize p.address) [])) [
  | inl e ↦ rw e (λ h. absurd (ok-ne-err _ _ (sym h)))
  | inr e ↦
      let addr = normalize p.address in
      let c = clamped s.cfg now addr p in
      let t = put_pricing (to_lower addr) c s in
      rw e (λ h.
        let same = persisted-ok c q t h in
        (
          sym same,
          ap (λ d. d.pricing) (persisted-data_of c t)
              ∙ ap (λ x. insert (to_lower addr) x s.data_of.pricing) same,
        ))
]

get_pricing-found :
    (address : Text) (q : PricingAnnounce) (s : Store)
    → lookup (to_lower (normalize address)) s.data_of.pricing ≡ some q
    → get_pricing address s ≡ q
unfolding get_pricing
get_pricing-found address q s m = rw (m, get_pricing)

-- The schedule that `SetPricing` returns is the one that `GetPricing` then finds for the address in
-- any letter case, and its fees are within the bounds of the configuration.
pub set_pricing-get_pricing :
    (now : ℤ) (p q : PricingAnnounce) (s : Store) (address : Text)
    → s.cfg.min_fee_uplp ≤ s.cfg.max_fee_uplp
    → (set_pricing now p s).1 ≡ ok q
    → to_lower (normalize address) ≡ to_lower (normalize p.address)
    → (get_pricing address (set_pricing now p s).0 ≡ q)
      × (s.cfg.min_fee_uplp ≤ q.unknown_fee_uplp)
      × (q.unknown_fee_uplp ≤ s.cfg.max_fee_uplp)
      × (s.cfg.min_fee_uplp ≤ q.verified_fee_uplp)
      × (q.verified_fee_uplp ≤ s.cfg.max_fee_uplp)
unfolding clamped
set_pricing-get_pricing now p q s address h e same =
    let (c, d) = set_pricing-ok now p q s e in
    let key = to_lower (normalize p.address) in
    let a = clamp_fee-bounds s.cfg p.unknown_fee_uplp h in
    let b = clamp_fee-bounds s.cfg p.verified_fee_uplp h in
    let u : q.unknown_fee_uplp ≡ clamp_fee s.cfg p.unknown_fee_uplp =
      ap (λ x. x.unknown_fee_uplp) c in
    let v : q.verified_fee_uplp ≡ clamp_fee s.cfg p.verified_fee_uplp =
      ap (λ x. x.verified_fee_uplp) c in
    (
      get_pricing-found address q (set_pricing now p s).0 (
          ap (λ k. lookup k (set_pricing now p s).0.data_of.pricing) same
          ∙ (ap (λ t. lookup key t) d ∙ lookup-insert_self key q s.data_of.pricing)),
      omega (arith, a.0, u),
      omega (arith, a.1, u),
      omega (arith, b.0, v),
      omega (arith, b.1, v),
    )
