-- ===== src/Chain/Atomic.antt =====
-- `L2ConfirmBlock` of internal/blockchain/blockchain.go changes the state of the Core ledger only where
-- it confirms the block, and keeps the snapshot to go back.
use mathlib.Core.List.{Perm}
use platarium_gateway_go.Common.{◌≡◌, Bool, true, false, none, some, List, ◌⊎◌}
use platarium_gateway_go.Chain.Types.{Transaction, BlockRecord}
use platarium_gateway_go.Chain.Ledger.{Env, Core, Node}
use platarium_gateway_go.Chain.Apply.{apply_ordered}
use platarium_gateway_go.Chain.Blocks.{Confirmed, confirmed, failed, ConfirmError}

-- What other calls do leaves the Core state and its snapshot as they are.
abbrev pub Spares : {K : Type 0} → (Node K → Node K) → Type 0
Spares {K} between = (m : Node K) → ((between m).core ≡ m.core) × ((between m).backup ≡ m.backup)

module _ {K : Type 0} (env : Env K) (works : env.restore_works ≡ true) where
  -- Core has applied the transactions, in some order, to the state `k`, of which there is a snapshot; or
  -- no ledger is attached, there is no snapshot, and the state is `k`.
  abbrev pub Held : List Transaction → K → Node K → Type 0
  Held txs k n =
      ((core : Core K) × (order : List Transaction) × (env.ledger ≡ some core)
        × Perm order txs
        × (apply_ordered env core order k ≡ (n.core, true))
        × (n.backup ≡ some k))
      ⊎ ((env.ledger ≡ none) × (n.backup ≡ none) × (n.core ≡ k))

  -- Core has applied a block, or its state is what it was.
  abbrev Applied : List Transaction → K → Node K × Bool → Type 0
  Applied txs k r = ((r.1 ≡ true) × Held txs k r.0) ⊎ ((r.1 ≡ false) × (r.0.core ≡ k))

  -- The block is confirmed and `Held`, or there is an error, the state is `k` and no snapshot is left.
  abbrev pub Settled : List Transaction → K → Node K × Confirmed → Type 0
  Settled txs k r =
      (((moved : List Transaction) × (block : BlockRecord) × (r.1 ≡ confirmed moved block))
        × Held txs k r.0)
      ⊎ (((e : ConfirmError) × (r.1 ≡ failed e)) × (r.0.core ≡ k) × (r.0.backup ≡ none))
