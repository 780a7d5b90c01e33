-- ===== src/Faucet/Claims.antt =====
-- What a claim of the faucet (internal/faucet/cooldown.go) leaves, granted or refused.
use platarium_gateway_go.Common.{
  ℕ, ◌+◌, ◌-◌, ◌*◌, ◌/◌, ◌<◌, ◌≤◌, ◌≡◌, refl, sym, ◌∙◌, ◌≢◌, inl, inr, Bool, true, false, Option,
  none, some, [], ltb, if◌then◌else◌, Bool-cases, arith,
}
use platarium_gateway_go.Common.Int.{ℤ, pos}
use platarium_gateway_go.Common.Text.{Text, text_eq, text_beq, text_beq_iff}
use platarium_gateway_go.Common.Dict.{Dict, lookup, insert, lookup-insert, lookup-erase}
use platarium_gateway_go.Faucet.Cooldown.{
  CooldownStore, Claim, waits, address_required, persist_failed, second, normalize_address,
  next_claim, put_claim, restored, take_claim, try_claim,
}

pub restored-lookup :
    (key k : Text) (o : Option ℤ) (now : ℕ) (s : CooldownStore)
    → lookup key s.claims ≡ o
    → lookup k (restored key o (put_claim key now s)).claims ≡ lookup k s.claims
restored-lookup key k none now s e =
    lookup-erase key k (insert key (pos (now / second)) s.claims)
    ∙ ground (arith, lookup-insert key k (pos (now / second)) s.claims, text_beq_iff key k, e)
restored-lookup key k (some v) now s e =
    lookup-insert key k v (insert key (pos (now / second)) s.claims)
    ∙ ground (arith, lookup-insert key k (pos (now / second)) s.claims, text_beq_iff key k, e)

waits_inj : {a b : ℕ} → waits a ≡ waits b → a ≡ b
waits_inj e = cc

required-ne : address_required ≢ waits 0
required-ne e = cc

false-ne : false ≢ true
false-ne e = cc

take_claim-granted :
    (key : Text) (now : ℕ) (s : CooldownStore)
    → (take_claim key now s).1 ≡ waits 0
    → ((take_claim key now s).0.cooldown ≡ s.cooldown)
      × ((take_claim key now s).0.claims ≡ insert key (pos (now / second)) s.claims)
unfolding take_claim
take_claim-granted key now s = elim (Bool-cases s.writable) [
  | inl e ↦ simp (e) (λ h. (refl, refl))
  | inr e ↦ simp (e) (λ h. absurd (cc h))
]

pub try_claim-granted :
    (address : Text) (now : ℕ) (s : CooldownStore)
    → (try_claim address now s).1 ≡ waits 0
    → (normalize_address address ≢ [])
      × ((try_claim address now s).0.cooldown ≡ s.cooldown)
      × ((try_claim address now s).0.claims
          ≡ insert (normalize_address address) (pos (now / second)) s.claims)
unfolding try_claim
try_claim-granted address now s =
    let key = normalize_address address in
    let next = next_claim (lookup key s.claims) s.cooldown in
    elim (Bool-cases (text_beq key [])) [
      | inl e ↦ rw e (λ h. absurd (required-ne h))
      | inr e ↦ elim (Bool-cases (ltb now next)) [
        | inl f ↦ rw (e, f) (λ h. absurd (omega (arith, waits_inj h, (ltb-lt now next f))))
        | inr f ↦
            rw (e, f)
              (λ h.
                let (a, b) = take_claim-granted key now s h in
                (λ p. let q = (text_beq_iff key []).1 p in absurd (false-ne (sym e ∙ q)), a, b))
      ]
    ]
  where
    ltb-lt : (a b : ℕ) → ltb a b ≡ true → a < b
    ltb-lt a b h = ground arith

pub try_claim-refused :
    (address : Text) (later next : ℕ) (s : CooldownStore)
    → normalize_address address ≢ []
    → next_claim (lookup (normalize_address address) s.claims) s.cooldown ≡ next
    → later < next
    → try_claim address later s ≡ (s, waits (next - later))
unfolding try_claim
try_claim-refused address later next s n e early =
    elim (Bool-cases (text_beq (normalize_address address) [])) [
      | inl f ↦ absurd (n ((text_beq_iff (normalize_address address) []).0 f))
      | inr f ↦ let g : ltb later next ≡ true = ground arith in rw (f, e, g)
    ]

pub next_claim-some :
    (now cooldown : ℕ)
    → second ≤ now
    → next_claim (some (pos (now / second))) cooldown ≡ now / second * second + cooldown
unfolding next_claim
next_claim-some now cooldown h = let g : ltb 0 (now / second) ≡ true = ground arith in rw g

either-kept :
    (k : Text) (d : Dict ℤ) (b : Bool) (t u : CooldownStore × Claim)
    → t.1 ≡ waits 0
    → lookup k u.0.claims ≡ lookup k d
    → (if b then t else u).1 ≢ waits 0
    → lookup k (if b then t else u).0.claims ≡ lookup k d
either-kept k d true t u e f h = absurd (h e)
either-kept k d false t u e f h = f

take_claim-kept :
    (key k : Text) (now : ℕ) (s : CooldownStore)
    → (take_claim key now s).1 ≢ waits 0
    → lookup k (take_claim key now s).0.claims ≡ lookup k s.claims
unfolding take_claim
take_claim-kept key k now s =
    let t = put_claim key now s in
    either-kept k s.claims s.writable (record t { file = some t.claims }, waits 0)
      (restored key (lookup key s.claims) t, persist_failed) refl
      (restored-lookup key k (lookup key s.claims) now s refl)

-- A claim that is not granted, for whatever reason, leaves every address's claim as it was.
pub try_claim-kept :
    (address k : Text) (now : ℕ) (s : CooldownStore)
    → (try_claim address now s).1 ≢ waits 0
    → lookup k (try_claim address now s).0.claims ≡ lookup k s.claims
unfolding try_claim
try_claim-kept address k now s =
    let key = normalize_address address in
    let next = next_claim (lookup key s.claims) s.cooldown in
    elim (Bool-cases (text_beq key [])) [
      | inl e ↦ rw e (λ h. refl)
      | inr e ↦ elim (Bool-cases (ltb now next)) [
        | inl f ↦ rw (e, f) (λ h. refl)
        | inr f ↦ rw (e, f) (take_claim-kept key k now s)
      ]
    ]

pub persist_failed-ne : persist_failed ≢ waits 0
persist_failed-ne e = cc
