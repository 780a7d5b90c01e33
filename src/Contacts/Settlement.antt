-- ===== src/Contacts/Settlement.antt =====
-- What `SplitBps` (internal/contacteconomy/settle.go) does with an amount.
use platarium_gateway_go.Common.{ℕ, ◌+◌, ◌*◌, ◌^◌, ◌<◌, ◌≤◌, ◌≡◌, ◌⊎◌, inl, inr, arith, Bool-cases}
use platarium_gateway_go.Common.Text.{Text, text_eq, text_beq}
use platarium_gateway_go.Contacts.Types.{outcome_accepted, outcome_timeout, outcome_rejected}
use platarium_gateway_go.Contacts.Split.{Shares, shares_of, share, split_by, split_bps}

abbrev pub total : Shares → ℕ
total s = s.recipient + s.node + s.treasury + s.refund

-- A share never exceeds its part of a hundred, even where the product wraps.
share-le : (amount part : ℕ) → share amount part * 100 ≤ amount * part
unfolding share
share-le amount part = omega arith

split_by-conserves :
    (amount : ℕ) (b : Shares)
    → amount < 2 ^ 64
    → share amount b.recipient
        + share amount b.node
        + share amount b.treasury
        + share amount b.refund
      ≤ amount
    → total (split_by amount b) ≡ amount
unfolding split_by
split_by-conserves amount b small le = ground arith

shares_of-cases :
    (o : Text)
    → (shares_of o ≡ record { recipient = 70; node = 20; treasury = 10; refund = 0 })
      ⊎ (shares_of o ≡ record { recipient = 0; node = 10; treasury = 0; refund = 90 })
      ⊎ (shares_of o ≡ record { recipient = 0; node = 10; treasury = 10; refund = 80 })
unfolding shares_of
shares_of-cases o = elim (Bool-cases (text_beq o outcome_accepted)) [
  | inl e ↦ inl (rw e)
  | inr e ↦ elim (Bool-cases (text_beq o outcome_timeout)) [
    | inl f ↦ inr (inl (rw (e, f)))
    | inr f ↦ elim (Bool-cases (text_beq o outcome_rejected)) [
      | inl g ↦ inr (inr (rw (e, f, g)))
      | inr g ↦ inr (inl (rw (e, f, g)))
    ]
  ]
]

shares_of-le :
    (amount : ℕ) (o : Text)
    → let b = shares_of o in
      share amount b.recipient
        + share amount b.node
        + share amount b.treasury
        + share amount b.refund
      ≤ amount
shares_of-le amount o = elim (shares_of-cases o) [
  | inl e ↦
      rw e (
        omega
          (arith, share-le amount 70, share-le amount 20, share-le amount 10, share-le amount 0))
  | inr (inl e) ↦ rw e (omega (arith, share-le amount 10, share-le amount 0, share-le amount 90))
  | inr (inr e) ↦ rw e (omega (arith, share-le amount 10, share-le amount 0, share-le amount 80))
]

-- The four parts of every amount of a uint64 add up to the amount, for every outcome, also where the
-- products wrap.
pub split_bps-conserves :
    (amount : ℕ) (outcome : Text) → amount < 2 ^ 64 → total (split_bps amount outcome) ≡ amount
unfolding split_bps
split_bps-conserves amount outcome small =
    split_by-conserves amount (shares_of outcome) small (shares_of-le amount outcome)
