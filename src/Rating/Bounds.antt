-- ===== src/Rating/Bounds.antt =====
-- The scores of internal/rating/registry.go stay between 0 and `ScoreScale`, without overflow.
use native.Mathlib.Nat.{div-lt_iff_lt-mul}
use platarium_gateway_go.Common.{
  ℕ, ◌+◌, ◌-◌, ◌*◌, ◌/◌, ◌≤◌, ◌<◌, ◌≡◌, sym, ap, subst, inl, inr, ◌&&◌, Bool-cases, arith,
  if◌then◌else◌,
}
use platarium_gateway_go.Common.Int.{
  ℤ, pos, negsuc, ltb_ℤ, leb_ℤ, sub_ℕ, add64, sub64, mul64, quo64, add64_pos, sub64_pos, mul64_pos,
  quo64_pos,
}
use platarium_gateway_go.Rating.Scores.{NodeScores, score_scale, vote_accuracy, stake_weight_of}
use platarium_gateway_go.Rating.Registry.{clamp_score}

-- A number of int64 from 0 to `bound`.
abbrev pub Within : ℕ → ℤ → Type 0
Within bound z = (s : ℕ) × (z ≡ pos s) × (s ≤ bound)

abbrev pub IsScore : ℤ → Type 0
IsScore = Within 1000000

-- Votes, stakes and tasks that the products of the source can carry.
abbrev pub IsAmount : ℤ → Type 0
IsAmount = Within 9000000000000

ratio-le : (a t : ℕ) → 0 < t → a ≤ t → a * 1000000 / t ≤ 1000000
ratio-le a t h k =
    let x : a * 1000000 < 1000001 * t = omega arith in
    let y = (div-lt_iff_lt-mul {k = t} {x = a * 1000000} {y = 1000001} h).1 x in omega arith

pub clamp_score-IsScore : (z : ℤ) → IsScore (clamp_score z)
unfolding clamp_score
clamp_score-IsScore (negsuc n) = (0, ground arith, omega arith)
clamp_score-IsScore (pos n) = elim (Bool-cases (ltb_ℤ score_scale (pos n))) [
  | inl e ↦ (1000000, ground arith, omega arith)
  | inr e ↦ (n, ground arith, ground arith)
]

ratio-IsScore :
    (a t : ℕ)
    → 0 < t
    → a ≤ t
    → t ≤ 9000000000000
    → IsScore (quo64 (mul64 (pos a) score_scale) (pos t))
unfolding quo64
ratio-IsScore a t h k l = (
  a * 1000000 / t,
  ap (λ z. quo64 z (pos t)) (mul64_pos a 1000000 (omega arith)),
  ratio-le a t h k,
)

-- The accuracy as a function of the correct votes.
accuracy : ℤ → ℤ → ℤ
accuracy correct total =
    let c = if ltb_ℤ correct (pos 0) then pos 0 else correct in
    if leb_ℤ total (pos 0) then score_scale else quo64 (mul64 c score_scale) total

accuracy-IsScore : (c t : ℕ) → c ≤ t → t ≤ 9000000000000 → IsScore (accuracy (pos c) (pos t))
unfolding accuracy
accuracy-IsScore c t h k = elim (Bool-cases (leb_ℤ (pos t) (pos 0))) [
  | inl e ↦ (1000000, rw e, omega arith)
  | inr e ↦
      let pick : (if ltb_ℤ (pos c) (pos 0) then pos 0 else pos c) ≡ pos c = ground arith in
      let (x, eq, le) = ratio-IsScore c t (ground arith) h k in (x, rw (e, pick) eq, le)
]

pub vote_accuracy-IsScore :
    (n : NodeScores) (m t : ℕ)
    → n.missed_votes ≡ pos m
    → n.total_votes ≡ pos t
    → m ≤ t
    → t ≤ 9000000000000
    → IsScore (vote_accuracy n)
unfolding vote_accuracy accuracy
vote_accuracy-IsScore n m t em et h k =
    let less : sub_ℕ t m ≡ pos (t - m) = ground arith in
    let same : sub64 n.total_votes n.missed_votes ≡ pos (t - m) =
      cc (em, et, less, sub64_pos t m (omega arith) (omega arith)) in
    subst (λ z. IsScore (accuracy (sub64 n.total_votes n.missed_votes) z)) (sym et)
      (subst (λ z. IsScore (accuracy z (pos t))) (sym same)
        (accuracy-IsScore (t - m) t (omega arith) k))

pub stake_weight_of-IsScore :
    (stake max_stake : ℤ) → IsAmount stake → IsScore (stake_weight_of stake max_stake)
unfolding stake_weight_of
stake_weight_of-IsScore stake (negsuc k) (s, e, h) = (1000000, ground arith, omega arith)
stake_weight_of-IsScore stake (pos k) (s, e, h) =
    subst (λ z. IsScore (stake_weight_of z (pos k))) (sym e) (go s k h)
  where
    go : (s k : ℕ) → s ≤ 9000000000000 → IsScore (stake_weight_of (pos s) (pos k))
    go s k h =
        let same : quo64 (mul64 (pos s) score_scale) (pos k) ≡ pos (s * 1000000 / k) =
          cc (mul64_pos s 1000000 (omega arith), quo64_pos (s * 1000000) k) in
        elim (Bool-cases (ltb_ℤ (pos 0) (pos k) && leb_ℤ (pos 0) (pos s))) [
          | inr e ↦ (1000000, rw e, omega arith)
          | inl e ↦ elim (Bool-cases (ltb_ℤ (pos (s * 1000000 / k)) score_scale)) [
            | inl f ↦ (s * 1000000 / k, rw (e, same, f), ground arith)
            | inr f ↦ (1000000, rw (e, same, f), omega arith)
          ]
        ]

pub weighted-IsScore :
    (a b c d : ℤ)
    → IsScore a
    → IsScore b
    → IsScore c
    → IsScore d
    → IsScore (
        quo64
          (add64
            (add64 (add64 (mul64 a (pos 300)) (mul64 b (pos 200))) (mul64 c (pos 300)))
            (mul64 d (pos 200)))
          (pos 1000))
weighted-IsScore a b c d (u, eu, hu) (l, el, hl) (v, ev, hv) (w, ew, hw) = (
  (u * 300 + l * 200 + v * 300 + w * 200) / 1000,
  cc (
    eu,
    el,
    ev,
    ew,
    mul64_pos u 300 (omega arith),
    mul64_pos l 200 (omega arith),
    mul64_pos v 300 (omega arith),
    mul64_pos w 200 (omega arith),
    add64_pos (u * 300) (l * 200) (omega arith),
    add64_pos (u * 300 + l * 200) (v * 300) (omega arith),
    add64_pos (u * 300 + l * 200 + v * 300) (w * 200) (omega arith),
    quo64_pos (u * 300 + l * 200 + v * 300 + w * 200) 1000,
  ),
  omega arith,
)
