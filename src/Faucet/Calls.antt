-- ===== src/Faucet/Calls.antt =====
-- The calls on a `CooldownStore` (internal/faucet/cooldown.go) as values, and what a sequence of them leaves
-- of a claim.
use platarium_gateway_go.Common.{
  ℕ, ◌+◌, ◌-◌, ◌*◌, ◌/◌, ◌<◌, ◌≤◌, ◌≡◌, ◌≢◌, refl, sym, ◌∙◌, ap, subst, ◌⊎◌, inl, inr, Bool, true,
  false, Option, none, some, List, [], ◌∷◌, All, ltb, if◌then◌else◌, Bool-cases, arith,
}
use platarium_gateway_go.Common.Int.{ℤ, pos}
use platarium_gateway_go.Common.Text.{Text, text_eq, text_beq, text_beq_iff}
use platarium_gateway_go.Common.Dict.{lookup, lookup-insert, lookup-erase, lookup-insert_self}
use platarium_gateway_go.Faucet.Cooldown.{
  CooldownStore, Claim, waits, persist_failed, second, normalize_address, next_claim, put_claim,
  restored, take_claim, try_claim, release_claim, record_claim,
}
use platarium_gateway_go.Faucet.Claims.{
  restored-lookup, try_claim-granted, try_claim-refused, next_claim-some,
}

pub data FaucetCall : Type 0 where
  tries : Text → ℕ → FaucetCall
  releases : Text → FaucetCall
  records : Text → ℕ → FaucetCall

abbrev pub called : FaucetCall → CooldownStore → CooldownStore
called (tries address now) s = (try_claim address now s).0
called (releases address) s = (release_claim address s).0
called (records address now) s = (record_claim address now s).0

abbrev pub all_called : List FaucetCall → CooldownStore → CooldownStore
all_called [] s = s
all_called (c ∷ cs) s = all_called cs (called c s)

-- The call is for another address than `key`, or a TryClaim for it before the time `until`.
abbrev pub IsSooner : Text → ℕ → FaucetCall → Type 0
IsSooner key until (tries address now) = (normalize_address address ≢ key) ⊎ (now < until)
IsSooner key until (releases address) = normalize_address address ≢ key
IsSooner key until (records address now) = normalize_address address ≢ key

-- A claim of the address stands in the store, with the cooldown.
record Stands (key : Text) (at : ℤ) (cooldown : ℕ) (s : CooldownStore) : Type 0 where
  stored : lookup key s.claims ≡ some at
  length : s.cooldown ≡ cooldown

other-beq : (j k : Text) → j ≢ k → text_beq j k ≡ false
other-beq j k n = ground (arith, text_beq_iff j k)

put_claim-other :
    (j k : Text) (now : ℕ) (s : CooldownStore)
    → j ≢ k
    → lookup k (put_claim j now s).claims ≡ lookup k s.claims
put_claim-other j k now s n =
    lookup-insert j k (pos (now / second)) s.claims ∙ rw (other-beq j k n) refl

restored-cooldown :
    (j : Text) (o : Option ℤ) (s : CooldownStore) → (restored j o s).cooldown ≡ s.cooldown
restored-cooldown j none s = refl
restored-cooldown j (some at) s = refl

module _ (key : Text) (at : ℤ) (cooldown : ℕ) where
  either-Stands :
      (b : Bool) (t u : CooldownStore × Claim)
      → Stands key at cooldown t.0
      → Stands key at cooldown u.0
      → Stands key at cooldown (if b then t else u).0
  either-Stands true t u v w = v
  either-Stands false t u v w = w

  take_claim-Stands :
      (j : Text) (now : ℕ) (s : CooldownStore)
      → j ≢ key
      → Stands key at cooldown s
      → Stands key at cooldown (take_claim j now s).0
  unfolding take_claim
  take_claim-Stands j now s n v =
      let t = put_claim j now s in
      either-Stands s.writable (record t { file = some t.claims }, waits 0)
        (restored j (lookup j s.claims) t, persist_failed)
        (record { stored = put_claim-other j key now s n ∙ v.stored; length = v.length })
        (record {
          stored = restored-lookup j key (lookup j s.claims) now s refl ∙ v.stored;
          length = restored-cooldown j (lookup j s.claims) t ∙ v.length;
        })

  try_claim-Stands :
      (address : Text) (now : ℕ) (s : CooldownStore)
      → normalize_address address ≢ key
      → Stands key at cooldown s
      → Stands key at cooldown (try_claim address now s).0
  unfolding try_claim
  try_claim-Stands address now s n v =
      let j = normalize_address address in
      elim (Bool-cases (text_beq j [])) [
        | inl e ↦ rw e v
        | inr e ↦ elim (Bool-cases (ltb now (next_claim (lookup j s.claims) s.cooldown))) [
          | inl f ↦ rw (e, f) v
          | inr f ↦ rw (e, f) (take_claim-Stands j now s n v)
        ]
      ]

  release_claim-Stands :
      (address : Text) (s : CooldownStore)
      → normalize_address address ≢ key
      → Stands key at cooldown s
      → Stands key at cooldown (release_claim address s).0
  unfolding release_claim
  release_claim-Stands address s n v =
      let j = normalize_address address in
      let kept = lookup-erase j key s.claims ∙ (rw (other-beq j key n) refl ∙ v.stored) in
      elim (Bool-cases (text_beq j [])) [
        | inl e ↦ rw e v
        | inr e ↦ elim (Bool-cases s.writable) [
          | inl f ↦ rw (e, f) (record { stored = kept; length = v.length })
          | inr f ↦ rw (e, f) (record { stored = kept; length = v.length })
        ]
      ]

  record_claim-Stands :
      (address : Text) (now : ℕ) (s : CooldownStore)
      → normalize_address address ≢ key
      → Stands key at cooldown s
      → Stands key at cooldown (record_claim address now s).0
  unfolding record_claim
  record_claim-Stands address now s n v =
      let j = normalize_address address in
      let kept = put_claim-other j key now s n ∙ v.stored in
      elim (Bool-cases (text_beq j [])) [
        | inl e ↦ rw e v
        | inr e ↦ elim (Bool-cases s.writable) [
          | inl f ↦ rw (e, f) (record { stored = kept; length = v.length })
          | inr f ↦ rw (e, f) (record { stored = kept; length = v.length })
        ]
      ]

module _ (key : Text) (claimed cooldown : ℕ) (named : key ≢ []) (old : second ≤ claimed) where
  abbrev until : ℕ
  until = claimed / second * second + cooldown

  abbrev Claimed : CooldownStore → Type 0
  Claimed s = Stands key (pos (claimed / second)) cooldown s

  -- A claim for the address is refused before its time.
  early-refused :
      (address : Text) (now : ℕ) (s : CooldownStore)
      → normalize_address address ≡ key
      → now < until
      → Claimed s
      → try_claim address now s ≡ (s, waits (until - now))
  early-refused address now s e early v =
      try_claim-refused address now until s (λ n. named (sym e ∙ n))
        (ap (λ k. next_claim (lookup k s.claims) s.cooldown) e
          ∙ (ap (λ o. next_claim o s.cooldown) v.stored
              ∙ (ap (next_claim (some (pos (claimed / second)))) v.length
                  ∙ next_claim-some claimed cooldown old)))
        early

  called-Claimed :
      (c : FaucetCall) (s : CooldownStore) → IsSooner key until c → Claimed s → Claimed (called c s)
  called-Claimed (tries address now) s (inl n) v = try_claim-Stands key _ cooldown address now s n v
  called-Claimed (tries address now) s (inr early) v =
      elim (Bool-cases (text_beq (normalize_address address) key)) [
        | inl e ↦
            let same = (text_beq_iff (normalize_address address) key).0 e in
            subst Claimed (sym (ap (λ r. r.0) (early-refused address now s same early v))) v
        | inr e ↦
            try_claim-Stands key _ cooldown address now s (apart (normalize_address address) key e)
              v
      ]
    where
      apart : (j k : Text) → text_beq j k ≡ false → j ≢ k
      apart j k e f = ground (arith, text_beq_iff j k)
  called-Claimed (releases address) s n v = release_claim-Stands key _ cooldown address s n v
  called-Claimed (records address now) s n v = record_claim-Stands key _ cooldown address now s n v

  all_called-Claimed :
      (cs : List FaucetCall) (s : CooldownStore)
      → All (IsSooner key until) cs
      → Claimed s
      → Claimed (all_called cs s)
  all_called-Claimed [] s h v = v
  all_called-Claimed (c ∷ cs) s h v =
      all_called-Claimed cs (called c s) h.1 (called-Claimed c s h.0 v)

-- After a claim that is granted, a second after 1970 or later, and then any calls of TryClaim for the
-- address before the cooldown is over, counted from the whole second of the claim, and any calls of
-- TryClaim, ReleaseClaim and RecordClaim for other addresses, a claim for the address before the cooldown
-- is over is refused with the time that is left, and leaves the store as it is.
pub try_claim-cooldown :
    (address again : Text) (now later : ℕ) (cs : List FaucetCall) (s : CooldownStore)
    → (try_claim address now s).1 ≡ waits 0
    → normalize_address again ≡ normalize_address address
    → second ≤ now
    → All (IsSooner (normalize_address address) (now / second * second + s.cooldown)) cs
    → later < now / second * second + s.cooldown
    → let s' = all_called cs (try_claim address now s).0 in
      try_claim again later s' ≡ (s', waits (now / second * second + s.cooldown - later))
try_claim-cooldown address again now later cs s h same old between early =
    let key = normalize_address address in
    let (n, c, d) = try_claim-granted address now s h in
    let first : Stands key (pos (now / second)) s.cooldown (try_claim address now s).0 = record {
      stored = ap (lookup key) d ∙ lookup-insert_self key (pos (now / second)) s.claims;
      length = c;
    } in
    early-refused key now s.cooldown n old again later (all_called cs (try_claim address now s).0)
      same early
      (all_called-Claimed key now s.cooldown n old cs (try_claim address now s).0 between first)
