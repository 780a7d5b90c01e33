-- ===== src/Limits/Window.antt =====
-- In one window of `Limiter` (internal/ratelimit/limiter.go) exactly the limit of calls passes.
use Prim.Native.Nat.{min}
use platarium_gateway_go.Common.{
  ℕ, ◌+◌, ◌-◌, ◌≤◌, ◌<◌, ◌≡◌, ◌≢◌, refl, sym, ◌∙◌, ap, Bool, true, false, Option, none, some, List,
  [], ◌∷◌, ◌⊎◌, inl, inr, ltb, leb, if◌then◌else◌, ◌==◌, arith, Bool-cases, subst,
}
use platarium_gateway_go.Common.Text.{Text, text_eq, text_beq, text_beq_iff, text_beq-ne}
use platarium_gateway_go.Common.Dict.{lookup, insert, lookup-insert_self, lookup-insert_ne}
use platarium_gateway_go.Limits.Limiter.{Bucket, Limiter, open_window, count_call, allow_at, allow}

-- Calls of `Allow`, each with its key and its time.
abbrev pub Calls : Type 0
Calls = List (Text × ℕ)

-- How many of the calls with the key `k` pass, in a run of all of them.
unfoldable pub passed : Text → Calls → Limiter → ℕ
unfolding allow text_beq
passed k [] l = 0
passed k ((j, now) ∷ calls) l =
    let (l', ok) = allow j now l in
    let rest = passed k calls l' in if j == k then (if ok then rest + 1 else rest) else rest

-- How many calls have the key `k`.
unfoldable pub calls_of : Text → Calls → ℕ
unfolding text_beq
calls_of k [] = 0
calls_of k ((j, now) ∷ calls) = let rest = calls_of k calls in if j == k then rest + 1 else rest

-- No call of the key `k` is later than `end`.
abbrev pub Until : Text → ℕ → Calls → Type 0
Until k end [] = Unit {0}
Until k end ((j, now) ∷ calls) = (j ≡ k → now ≤ end) × Until k end calls

open_window-other :
    (k j : Text) (now : ℕ) (l : Limiter)
    → j ≢ k
    → lookup k (open_window j now l).0.buckets ≡ lookup k l.buckets
unfolding open_window
open_window-other k j now l n = lookup-insert_ne j k _ l.buckets n

count_call-other :
    (k j : Text) (b : Bucket) (l : Limiter)
    → j ≢ k
    → lookup k (count_call j b l).0.buckets ≡ lookup k l.buckets
unfolding count_call
count_call-other k j b l n = elim (Bool-cases (leb l.limit b.count)) [
  | inl e ↦ simp (e)
  | inr e ↦ simp (e) (lookup-insert_ne j k _ l.buckets n)
]

allow_at-other :
    (o : Option Bucket) (k j : Text) (now : ℕ) (l : Limiter)
    → j ≢ k
    → lookup k (allow_at o j now l).0.buckets ≡ lookup k l.buckets
unfolding allow_at
allow_at-other none k j now l n = open_window-other k j now l n
allow_at-other (some b) k j now l n = elim (Bool-cases (ltb b.reset_at now)) [
  | inl e ↦ simp (e) (open_window-other k j now l n)
  | inr e ↦ simp (e) (count_call-other k j b l n)
]

allow_at-limit :
    (o : Option Bucket) (j : Text) (now : ℕ) (l : Limiter) → (allow_at o j now l).0.limit ≡ l.limit
unfolding allow_at open_window count_call
allow_at-limit none j now l = refl
allow_at-limit (some b) j now l = elim (Bool-cases (ltb b.reset_at now)) [
  | inl e ↦ simp (e)
  | inr e ↦ elim (Bool-cases (leb l.limit b.count)) [ inl f ↦ simp (e, f) | inr f ↦ simp (e, f) ]
]

-- What the rest of the calls add, after one call that answers `r`.
abbrev after_call : Bool → Limiter × Bool → Text → Calls → ℕ
after_call mine r k calls =
    if mine
    then (if r.1 then passed k calls r.0 + 1 else passed k calls r.0)
    else passed k calls r.0

passed-after :
    (k j : Text) (now : ℕ) (calls : Calls) (l : Limiter)
    → passed k ((j, now) ∷ calls) l ≡ after_call (text_beq j k) (allow j now l) k calls
unfolding passed
passed-after k j now calls l = refl

in_window :
    (k : Text) (now : ℕ) (b : Bucket) (l : Limiter)
    → lookup k l.buckets ≡ some b
    → now ≤ b.reset_at
    → allow k now l ≡ count_call k b l
unfolding allow allow_at
in_window k now b l e h =
    ap (λ o. allow_at o k now l) e
    ∙ ap (λ t. if t then open_window k now l else count_call k b l) (late h)
  where
    late : {x y : ℕ} → x ≤ y → ltb y x ≡ false
    late h = ground (arith, h)

-- One call in the window of `b`, where the calls after it are known.
passed-counted :
    (k : Text) (b : Bucket) (calls : Calls) (l : Limiter)
    → ((l' : Limiter) (b' : Bucket)
        → lookup k l'.buckets ≡ some b'
        → b'.reset_at ≡ b.reset_at
        → passed k calls l' ≡ min (calls_of k calls) (l'.limit - b'.count))
    → lookup k l.buckets ≡ some b
    → after_call true (count_call k b l) k calls ≡ min (calls_of k calls + 1) (l.limit - b.count)
unfolding count_call
passed-counted k b calls l rest e = elim (Bool-cases (leb l.limit b.count)) [
  | inl full ↦
      ap (λ t. after_call true (if t then (l, false) else counted) k calls) full
      ∙ (rest l b e refl ∙ ground (arith, full))
  | inr free ↦
      ap (λ t. after_call true (if t then (l, false) else counted) k calls) free
      ∙ (ap (λ n. n + 1)
            (rest counted.0 (record b { count = b.count + 1 })
              (lookup-insert_self k (record b { count = b.count + 1 }) l.buckets) refl)
          ∙ ground (arith, free))
]
  where
    counted : Limiter × Bool
    counted = (record l { buckets = insert k (record b { count = b.count + 1 }) l.buckets }, true)

passed-window :
    (k : Text) (calls : Calls) (l : Limiter) (b : Bucket)
    → lookup k l.buckets ≡ some b
    → Until k b.reset_at calls
    → passed k calls l ≡ min (calls_of k calls) (l.limit - b.count)
unfolding calls_of passed
passed-window k [] l b e u = omega arith
passed-window k ((j, now) ∷ calls) l b e u = elim (Bool-cases (text_beq j k)) [
  | inr ne ↦
      let r = allow j now l in
      ap (λ t. after_call t r k calls) ne
      ∙ (passed-window k calls r.0 b
            (allow_at-other (lookup j l.buckets) k j now l (text_beq-ne j k ne) ∙ e) u.1
          ∙ (ap (λ n. min (calls_of k calls) (n - b.count))
                (allow_at-limit (lookup j l.buckets) j now l)
              ∙ ap
                  (λ t.
                    min (if t then calls_of k calls + 1 else calls_of k calls) (l.limit - b.count))
                  (sym ne)))
  | inl same ↦
      let p = (text_beq_iff j k).0 same in
      ap (λ t. after_call t (allow j now l) k calls) same
      ∙ (ap (λ i. after_call true (allow i now l) k calls) p
          ∙ (ap (λ r. after_call true r k calls) (in_window k now b l e (u.0 p))
              ∙ (passed-counted k b calls l
                    (λ l' b' f r.
                      passed-window k calls l' b' f (subst (λ t. Until k t calls) (sym r) u.1))
                    e
                  ∙ ap
                      (λ t.
                        min (if t then calls_of k calls + 1 else calls_of k calls)
                          (l.limit - b.count))
                      (sym same))))
]

-- No window of the key `k` is open at the time `now`.
abbrev pub Closed : Text → ℕ → Limiter → Type 0
Closed k now l =
    (lookup k l.buckets ≡ none)
    ⊎ ((b : Bucket) × (lookup k l.buckets ≡ some b) × (b.reset_at < now))

opens : (k : Text) (now : ℕ) (l : Limiter) → Closed k now l → allow k now l ≡ open_window k now l
unfolding allow allow_at
opens k now l (inl e) = ap (λ o. allow_at o k now l) e
opens k now l (inr (b, e, h)) =
    ap (λ o. allow_at o k now l) e
    ∙ ap (λ t. if t then open_window k now l else count_call k b l) (late h)
  where
    late : {x y : ℕ} → x < y → ltb x y ≡ true
    late h = ground (arith, h)

-- A call for a key with no open window passes, and opens one. Of the calls that follow, among any calls
-- for other keys, and with the key's none after the end of the window, exactly as many pass for the key
-- as there are, up to the limit less the first call.
pub allow-window :
    (k : Text) (now : ℕ) (l : Limiter) (calls : Calls)
    → Closed k now l
    → Until k (now + l.window) calls
    → let r = allow k now l in
      (r.1 ≡ true) × (passed k calls r.0 ≡ min (calls_of k calls) (l.limit - 1))
unfolding open_window
allow-window k now l calls c u =
    let e = opens k now l c in
    let b : Bucket = record { count = 1; reset_at = now + l.window } in
    (
      ap (λ r. r.1) e,
      ap (λ r. passed k calls r.0) e
          ∙ passed-window k calls (open_window k now l).0 b (lookup-insert_self k b l.buckets) u,
    )
