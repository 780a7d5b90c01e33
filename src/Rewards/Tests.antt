-- ===== src/Rewards/Tests.antt =====
-- An instance of the theorem on the fee split (internal/rewards/rewards.go).
use platarium_gateway_go.Common.{ℕ, ◌+◌, ◌*◌, ◌/◌, ◌≤◌, ◌≡◌, arith}
use platarium_gateway_go.Common.Int.{pos}
use platarium_gateway_go.Rewards.Split.{split_block_fees, default_config}
use platarium_gateway_go.Rewards.Fees.{split_block_fees-conserves}

split_block_fees-conserves_example :
    (rest : ℕ) × (split_block_fees default_config (pos 1003) ≡ record {
      burn = pos (1003 * 10 / 100);
      treasury = pos rest;
      l1_pool = pos (1003 * 36 / 100);
      l2_pool = pos (1003 * 36 / 100);
    })
    × (1003 * 10 / 100 + rest + 1003 * 36 / 100 + 1003 * 36 / 100 ≡ 1003)
    × (1003 * 18 / 100 ≤ rest)
split_block_fees-conserves_example =
    split_block_fees-conserves 10 18 36 36 1003 (omega arith) (omega arith) (omega arith)
      (omega arith)
