-- ===== src/Contacts/Split.antt =====
-- `SplitBps` of internal/contacteconomy/settle.go, in uint64 with its wrap-around.
use platarium_gateway_go.Common.{ℕ, ◌+◌, ◌-◌, ◌*◌, ◌/◌, ◌%◌, ◌^◌, ltb, if◌then◌else◌, ◌==◌}
use platarium_gateway_go.Common.Text.{Text, text_eq, text_beq}
use platarium_gateway_go.Contacts.Types.{outcome_accepted, outcome_timeout, outcome_rejected}

-- The shares of a hundred: recipient, node, treasury, refund.
pub record Shares : Type 0 where
  pub recipient : ℕ
  pub node : ℕ
  pub treasury : ℕ
  pub refund : ℕ

unfoldable pub shares_of : Text → Shares
unfolding text_beq
shares_of outcome =
    if outcome == outcome_accepted
    then record { recipient = 70; node = 20; treasury = 10; refund = 0 }
    else if outcome == outcome_timeout
    then record { recipient = 0; node = 10; treasury = 0; refund = 90 }
    else if outcome == outcome_rejected
    then record { recipient = 0; node = 10; treasury = 10; refund = 80 }
    else record { recipient = 0; node = 10; treasury = 0; refund = 90 }

unfoldable pub share : ℕ → ℕ → ℕ
share amount part = ((amount * part) % 2 ^ 64) / 100

-- The part of `SplitBps` after its switch.
unfoldable pub split_by : ℕ → Shares → Shares
unfolding share
split_by amount b =
    let r = share amount b.recipient in
    let n = share amount b.node in
    let t = share amount b.treasury in
    let f = share amount b.refund in
    let allocated = (r + n + t + f) % 2 ^ 64 in
    let t' =
      if ltb allocated amount then (t + ((2 ^ 64 + amount - allocated) % 2 ^ 64)) % 2 ^ 64 else t in
    record { recipient = r; node = n; treasury = t'; refund = f }

unfoldable pub split_bps : ℕ → Text → Shares
unfolding split_by shares_of
split_bps amount outcome = split_by amount (shares_of outcome)
