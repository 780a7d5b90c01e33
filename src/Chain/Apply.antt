-- ===== src/Chain/Apply.antt =====
-- `applyConfirmedTransactions` of internal/blockchain/blockchain.go.
use platarium_gateway_go.Common.{
  Bool, true, false, Option, none, some, List, [], ◌∷◌, if◌then◌else◌,
}
use platarium_gateway_go.Common.Text.{text_eq, text_beq}
use platarium_gateway_go.Chain.Types.{Transaction, Blockchain}
use platarium_gateway_go.Chain.Ledger.{
  CoreTx, Core, Env, Node, from_faucet, to_core_json, parse_amount, maybe_dag_reorder,
}

-- The batch of the execution-first path; none where a transaction does not fit it.
unfoldable pub kernel_batch : List Transaction → Option (List CoreTx)
unfolding text_beq to_core_json
kernel_batch [] = some []
kernel_batch (tx ∷ txs) = if from_faucet tx then none else both (to_core_json tx) (kernel_batch txs)
  where
    both : Option CoreTx → Option (List CoreTx) → Option (List CoreTx)
    both none rest = none
    both (some t) none = none
    both (some t) (some ts) = some (t ∷ ts)

module _ {K : Type 0} (env : Env K) where
  -- `rollback`: the state file from its snapshot `saved`, as far as the copy works.
  abbrev pub recovered : K → K → K
  recovered saved k = if env.restore_works then saved else env.torn k

  -- One transaction on the path without a batch; the flag is false where the ledger refuses it.
  unfoldable pub apply_one : Core K → Transaction → K → K × Bool
  unfolding text_beq to_core_json parse_amount
  apply_one core tx k =
      if from_faucet tx
      then core.credit tx.receiver (parse_amount tx) tx.fee_uplp k
      else elim (to_core_json tx) [ none ↦ (k, false) | some t ↦ core.apply_tx t k ]

  unfoldable pub apply_each : Core K → List Transaction → K → K × Bool
  unfolding apply_one
  apply_each core [] k = (k, true)
  apply_each core (tx ∷ txs) k =
      let r = apply_one core tx k in
      let rest = apply_each core txs r.0 in if r.1 then rest else (r.0, false)

  abbrev pub apply_batch : Core K → Option (List CoreTx) → List Transaction → K → K × Bool
  apply_batch core (some (t ∷ ts)) txs k = core.kernel_apply_batch (t ∷ ts) k
  apply_batch core (some []) txs k = apply_each core txs k
  apply_batch core none txs k = apply_each core txs k

  unfoldable pub apply_ordered : Core K → List Transaction → K → K × Bool
  unfolding kernel_batch apply_each
  apply_ordered core txs k =
      if env.kernel_exec then apply_batch core (kernel_batch txs) txs k else apply_each core txs k

  abbrev pub clear_commit : Bool → Blockchain → Blockchain
  clear_commit used bc =
      if used then record bc { dag_commit_anchor = []; dag_commit_digests = [] } else bc

  -- What follows the ledger's answer: where it refuses, the state file is recovered from `saved`, and
  -- the snapshot removed.
  unfoldable pub after_apply : K → Blockchain → K × Bool → Node K × Bool
  after_apply saved bc (k, true) = (record { chain = bc; core = k; backup = some saved }, true)
  after_apply saved bc (k, false) =
      (record { chain = bc; core = recovered saved k; backup = none }, false)

  -- The state file has been snapshotted. The flag is true where no error is returned.
  unfoldable pub apply_snapshotted :
      Core K → Option (List Transaction) × Bool → Node K → Node K × Bool
  unfolding apply_ordered after_apply
  apply_snapshotted core (none, used) n = after_apply n.core n.chain (n.core, false)
  apply_snapshotted core (some txs, used) n =
      after_apply n.core (clear_commit used n.chain) (apply_ordered core txs n.core)

  unfoldable pub apply_with : Option (Core K) → List Transaction → Node K → Node K × Bool
  unfolding apply_snapshotted maybe_dag_reorder
  apply_with none txs n = (record n { backup = none }, n.chain.explorer_only_confirm)
  apply_with (some core) txs n =
      if env.snapshot_works
      then apply_snapshotted core (maybe_dag_reorder env core n.chain txs) n
      else (record n { backup = none }, false)

  unfoldable pub apply_confirmed_transactions : List Transaction → Node K → Node K × Bool
  unfolding apply_with
  apply_confirmed_transactions txs n = apply_with env.ledger txs n
