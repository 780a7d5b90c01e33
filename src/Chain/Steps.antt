-- ===== src/Chain/Steps.antt =====
-- The calls that move transactions between the mempool, the pending block and the chain
-- (internal/blockchain/blockchain.go and mempool_snapshot.go), as a step relation.
use mathlib.Core.List.{Mem}
use platarium_gateway_go.Common.{ℕ, ◌≡◌, true, false, Option, List}
use platarium_gateway_go.Common.Int.{ℤ}
use platarium_gateway_go.Common.Text.{Text}
use platarium_gateway_go.Common.Dict.{Dict}
use platarium_gateway_go.Chain.Types.{Transaction, Blockchain, new_blockchain}
use platarium_gateway_go.Chain.Mempool.{add_to_mempool, remove_from_mempool, same_slot}
use platarium_gateway_go.Chain.Pending.{
  l1_collect_block_limit, l1_collect_selected, abandon_pending_block, sync_pending_block,
  set_pending_block, present, hashes_of,
}
use platarium_gateway_go.Chain.Ledger.{Env, Node}
use platarium_gateway_go.Chain.Blocks.{l2_confirm_applied, same_hashes}
use platarium_gateway_go.Chain.Prune.{prune_mempool}
use platarium_gateway_go.Chain.Pool.{Waiting}

-- A pending block that is taken as a peer sends it: its transactions have hashes and are not confirmed, no
-- two of them have one hash or one sender and nonce, and one that has the sender and nonce of a
-- transaction in the mempool is that transaction.
pub record FromPeer (txs : List (Option Transaction)) (bc : Blockchain) : Type 0 where
  pub waiting : Waiting bc.confirmed_hashes (present txs)
  pub agrees :
      (t m : Transaction)
      → Mem t (present txs)
      → Mem m bc.mempool
      → same_slot t m ≡ true
      → t.hash ≡ m.hash

-- Each call may find another environment, so that the write of the chain file may fail at any of them. The
-- blockchain starts empty, with any path of its chain file.
module _ (K : Type 0) where
  pub data Step : Blockchain → Blockchain → Type 0 where
    submit : (tx : Transaction) {bc : Blockchain} → Step bc (add_to_mempool tx bc).0
    forget : (hashes : List Text) {bc : Blockchain} → Step bc (remove_from_mempool hashes bc)
    prune :
        (now : ℤ) (nonces : Dict ℕ) (rocks_confirmed : List Text) {bc : Blockchain}
        → Step bc (prune_mempool now nonces rocks_confirmed bc).0
    collect : (limit : ℤ) {bc : Blockchain} → Step bc (l1_collect_block_limit limit bc).0
    collect_selected :
        (txs : List (Option Transaction)) {bc : Blockchain} → Step bc (l1_collect_selected txs bc).0
    abandon : (drop : List Text) {bc : Blockchain} → Step bc (abandon_pending_block drop bc).0
    follow :
        (txs : List (Option Transaction)) {bc : Blockchain}
        → FromPeer txs bc
        → Step bc (sync_pending_block txs bc)
    replace :
        (txs : List (Option Transaction)) {bc : Blockchain}
        → FromPeer txs bc
        → Step bc (set_pending_block txs bc)
    confirm :
        (env : Env K) (n : Node K)
        → Step n.chain (l2_confirm_applied env n.chain.pending_block n).0.chain
    give_up :
        (env : Env K) (pending : List Transaction) (n : Node K)
        → same_hashes (hashes_of n.chain.pending_block) (hashes_of pending) ≡ false
        → Step n.chain (l2_confirm_applied env pending n).0.chain

  pub data Reachable : Blockchain → Type 0 where
    start : (path : Text) → Reachable (record new_blockchain { chain_file = path })
    next : {bc bc' : Blockchain} → Reachable bc → Step bc bc' → Reachable bc'
