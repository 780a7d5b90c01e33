-- ===== src/Rewards/Split.antt =====
-- The split of a block's fees, and `Distributor`, in internal/rewards/rewards.go, in int64 with its
-- wrap-around.
use platarium_gateway_go.Common.{if◌then◌else◌}
use platarium_gateway_go.Common.Int.{ℤ, pos, ltb_ℤ, leb_ℤ, add64, sub64, mul64, quo64}
use platarium_gateway_go.Common.Text.{Text}
use platarium_gateway_go.Common.Parse.{parse_int64}

pub record Config : Type 0 where
  pub burn_pct : ℤ
  pub treasury_pct : ℤ
  pub l1_pct : ℤ
  pub l2_pct : ℤ

pub record SplitResult : Type 0 where
  pub burn : ℤ
  pub treasury : ℤ
  pub l1_pool : ℤ
  pub l2_pool : ℤ

abbrev pub no_split : SplitResult
no_split = record { burn = pos 0; treasury = pos 0; l1_pool = pos 0; l2_pool = pos 0 }

-- Where the percentages add up to nothing, each is taken out of 100.
unfoldable pub whole_of : Config → ℤ
unfolding add64
whole_of c =
    let sum = add64 (add64 (add64 c.burn_pct c.treasury_pct) c.l1_pct) c.l2_pct in
    if leb_ℤ sum (pos 0) then pos 100 else sum

unfoldable pub part_of : ℤ → ℤ → ℤ → ℤ
unfolding mul64 quo64
part_of total pct whole = quo64 (mul64 total pct) whole

-- The treasury takes what the divisions leave.
unfoldable pub with_rest : ℤ → SplitResult → SplitResult
unfolding add64 sub64
with_rest total r =
    let rest = sub64 (sub64 (sub64 (sub64 total r.burn) r.treasury) r.l1_pool) r.l2_pool in
    record r { treasury = add64 r.treasury rest }

unfoldable pub parts : ℤ → Config → ℤ → SplitResult
unfolding part_of
parts total c whole = record {
  burn = part_of total c.burn_pct whole;
  treasury = part_of total c.treasury_pct whole;
  l1_pool = part_of total c.l1_pct whole;
  l2_pool = part_of total c.l2_pct whole;
}

unfoldable pub split_block_fees : Config → ℤ → SplitResult
unfolding whole_of parts with_rest
split_block_fees c total =
    if leb_ℤ total (pos 0) then no_split else with_rest total (parts total c (whole_of c))

pub record Distributor : Type 0 where
  pub config : Config
  pub total_burned : ℤ
  pub total_treasury : ℤ

abbrev pub default_config : Config
default_config = record {
  burn_pct = pos 10;
  treasury_pct = pos 18;
  l1_pct = pos 36;
  l2_pct = pos 36;
}

abbrev pub new_distributor : Config → Distributor
new_distributor c = record { config = c; total_burned = pos 0; total_treasury = pos 0 }

abbrev pub set_config : Config → Distributor → Distributor
set_config c d = record d { config = c }

abbrev pub not_negative : ℤ → ℤ
not_negative n = if ltb_ℤ n (pos 0) then pos 0 else n

unfoldable pub set_totals : ℤ → ℤ → Distributor → Distributor
set_totals burned treasury d = record d {
  total_burned = not_negative burned;
  total_treasury = not_negative treasury;
}

unfoldable pub add_burn_treasury : ℤ → ℤ → Distributor → Distributor
unfolding add64
add_burn_treasury burn treasury d = record d {
  total_burned = add64 d.total_burned burn;
  total_treasury = add64 d.total_treasury treasury;
}

-- The pools of the L1 and the L2 voters.
unfoldable pub apply_block : ℤ → Distributor → Distributor × (ℤ × ℤ)
unfolding split_block_fees add64
apply_block total d =
    let r = split_block_fees d.config total in
    (
      record d {
        total_burned = add64 d.total_burned r.burn;
        total_treasury = add64 d.total_treasury r.treasury;
      },
      (r.l1_pool, r.l2_pool),
    )

unfoldable pub parse_fee : Text → ℤ
unfolding parse_int64
parse_fee fee = not_negative (parse_int64 fee)
