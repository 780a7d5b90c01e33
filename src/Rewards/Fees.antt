-- ===== src/Rewards/Fees.antt =====
-- The four parts of `SplitBlockFees` (internal/rewards/rewards.go) add up to the fees.
use native.Mathlib.Nat.{div-mul-le_self, mul-le-mul_left, le_of_mul-le-mul_right}
use platarium_gateway_go.Common.{
  ℕ, ◌+◌, ◌-◌, ◌*◌, ◌/◌, ◌^◌, ◌≤◌, ◌<◌, ◌≡◌, refl, ◌∙◌, ap, false, if◌then◌else◌, arith, zero, suc,
}
use platarium_gateway_go.Common.Int.{
  pos, leb_ℤ, add64, sub64, add64_pos, sub64_pos, mul64_pos, quo64_pos,
}
use platarium_gateway_go.Rewards.Split.{
  Config, whole_of, part_of, parts, no_split, with_rest, split_block_fees,
}

-- The rounded parts of a total, of fractions of a whole, are together no more than the total.
parts_le :
    (total a b c d whole : ℕ)
    → 0 < whole
    → a + b + c + d ≤ whole
    → total * a / whole + total * b / whole + total * c / whole + total * d / whole ≤ total
parts_le total a b c d whole h k =
    let m : total * (a + b + c + d) ≤ total * whole = mul-le-mul_left total k in
    le_of_mul-le-mul_right {k = whole}
      (omega (
        arith,
        m,
        div-mul-le_self (total * a) whole,
        div-mul-le_self (total * b) whole,
        div-mul-le_self (total * c) whole,
        div-mul-le_self (total * d) whole,
      ))
      h

-- The whole that the parts are fractions of.
abbrev whole_ℕ : ℕ → ℕ
whole_ℕ zero = 100
whole_ℕ (suc n) = suc n

whole_ℕ-positive : (n : ℕ) → 0 < whole_ℕ n
whole_ℕ-positive zero = omega arith
whole_ℕ-positive (suc n) = omega arith

whole_ℕ-covers : (n : ℕ) → n ≤ whole_ℕ n
whole_ℕ-covers zero = omega arith
whole_ℕ-covers (suc n) = omega arith

whole_of-pos :
    (a b c d : ℕ)
    → a + b + c + d < 2 ^ 63
    → whole_of (record { burn_pct = pos a; treasury_pct = pos b; l1_pct = pos c; l2_pct = pos d })
      ≡ pos (whole_ℕ (a + b + c + d))
unfolding whole_of
whole_of-pos a b c d h =
    rw
      (
        add64_pos a b (omega (arith, h)),
        add64_pos (a + b) c (omega (arith, h)),
        add64_pos (a + b + c) d h,
      )
      (chosen (a + b + c + d))
  where
    chosen : (n : ℕ) → (if leb_ℤ (pos n) (pos 0) then pos 100 else pos n) ≡ pos (whole_ℕ n)
    chosen zero = refl
    chosen (suc n) = ground arith

part_of-pos :
    (total pct whole : ℕ)
    → total * pct < 2 ^ 63
    → part_of (pos total) (pos pct) (pos whole) ≡ pos (total * pct / whole)
unfolding part_of
part_of-pos total pct whole h = rw (mul64_pos total pct h) (quo64_pos (total * pct) whole)

with_rest-pos :
    (total b t l m : ℕ)
    → total < 2 ^ 63
    → b + t + l + m ≤ total
    → with_rest
        (pos total)
        (record { burn = pos b; treasury = pos t; l1_pool = pos l; l2_pool = pos m })
      ≡ record {
        burn = pos b;
        treasury = pos (total - b - l - m);
        l1_pool = pos l;
        l2_pool = pos m;
      }
unfolding with_rest
with_rest-pos total b t l m h k =
    ap (λ r. record { burn = pos b; treasury = r; l1_pool = pos l; l2_pool = pos m }) rest
  where
    sub : (x y : ℕ) → x < 2 ^ 63 → y ≤ x → sub64 (pos x) (pos y) ≡ pos (x - y)
    sub x y p q = sub64_pos x y p (omega (arith, p, q)) ∙ ground arith

    rest :
        add64 (pos t) (sub64 (sub64 (sub64 (sub64 (pos total) (pos b)) (pos t)) (pos l)) (pos m))
        ≡ pos (total - b - l - m)
    rest =
        rw
          (
            sub total b h (omega (arith, k)),
            sub (total - b) t (omega (arith, h)) (omega (arith, k)),
            sub (total - b - t) l (omega (arith, h)) (omega (arith, k)),
            sub (total - b - t - l) m (omega (arith, h)) (omega (arith, k)),
          )
          (add64_pos t (total - b - t - l - m) (omega (arith, h, k)) ∙ ap pos (omega (arith, k)))

-- Of fees from 1, and percentages from 0, whose sum stays below 2^63, as does its product with the fees, the burn and the pools are
-- the parts rounded down, and the treasury takes the rest: the four add up to the fees, and the
-- treasury has at least its own part rounded down.
pub split_block_fees-conserves :
    (a b c d total : ℕ)
    → 0 < total
    → total < 2 ^ 63
    → a + b + c + d < 2 ^ 63
    → total * (a + b + c + d) < 2 ^ 63
    → let cfg : Config = record {
      burn_pct = pos a;
      treasury_pct = pos b;
      l1_pct = pos c;
      l2_pct = pos d;
    } in
      let whole = whole_ℕ (a + b + c + d) in
      (rest : ℕ) × (split_block_fees cfg (pos total) ≡ record {
        burn = pos (total * a / whole);
        treasury = pos rest;
        l1_pool = pos (total * c / whole);
        l2_pool = pos (total * d / whole);
      })
      × (total * a / whole + rest + total * c / whole + total * d / whole ≡ total)
      × (total * b / whole ≤ rest)
unfolding split_block_fees parts
split_block_fees-conserves a b c d total z h k p =
    let whole = whole_ℕ (a + b + c + d) in
    let fits : total * a / whole + total * b / whole + total * c / whole + total * d / whole
        ≤ total =
      parts_le total a b c d whole (whole_ℕ-positive (a + b + c + d))
        (whole_ℕ-covers (a + b + c + d)) in
    (
      total - total * a / whole - total * c / whole - total * d / whole,
      opened
          ∙ with_rest-pos total (total * a / whole) (total * b / whole) (total * c / whole)
              (total * d / whole) h fits,
      omega (arith, fits),
      omega (arith, fits),
    )
  where
    cfg : Config
    cfg = record { burn_pct = pos a; treasury_pct = pos b; l1_pct = pos c; l2_pct = pos d }

    product : (x : ℕ) → x ≤ a + b + c + d → total * x < 2 ^ 63
    product x l = omega (arith, p, mul-le-mul_left total l)

    positive : leb_ℤ (pos total) (pos 0) ≡ false
    positive = ground (arith, z)

    rounded : parts (pos total) cfg (pos (whole_ℕ (a + b + c + d))) ≡ record {
      burn = pos (total * a / whole_ℕ (a + b + c + d));
      treasury = pos (total * b / whole_ℕ (a + b + c + d));
      l1_pool = pos (total * c / whole_ℕ (a + b + c + d));
      l2_pool = pos (total * d / whole_ℕ (a + b + c + d));
    }
    rounded = λ i. record {
      burn = part_of-pos total a (whole_ℕ (a + b + c + d)) (product a (omega arith)) i;
      treasury = part_of-pos total b (whole_ℕ (a + b + c + d)) (product b (omega arith)) i;
      l1_pool = part_of-pos total c (whole_ℕ (a + b + c + d)) (product c (omega arith)) i;
      l2_pool = part_of-pos total d (whole_ℕ (a + b + c + d)) (product d (omega arith)) i;
    }

    opened :
        split_block_fees cfg (pos total)
        ≡ with_rest (pos total) (record {
          burn = pos (total * a / whole_ℕ (a + b + c + d));
          treasury = pos (total * b / whole_ℕ (a + b + c + d));
          l1_pool = pos (total * c / whole_ℕ (a + b + c + d));
          l2_pool = pos (total * d / whole_ℕ (a + b + c + d));
        })
    opened =
        ap
          (λ t.
            if t then no_split else with_rest (pos total) (parts (pos total) cfg (whole_of cfg)))
          positive
        ∙ (ap (λ w. with_rest (pos total) (parts (pos total) cfg w)) (whole_of-pos a b c d k)
            ∙ ap (with_rest (pos total)) rounded)
