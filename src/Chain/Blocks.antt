-- ===== src/Chain/Blocks.antt =====
-- The methods of `Blockchain` that add a block to the chain, or take the last one back
-- (internal/blockchain/blockchain.go).
use platarium_gateway_go.Common.{
  Bool, true, false, ◌&&◌, ◌||◌, not, Option, none, some, List, [], ◌∷◌, map, keep_if,
  if◌then◌else◌, ◌==◌,
}
use platarium_gateway_go.Common.Int.{ℤ, pos, int_eq, ltb_ℤ, leb_ℤ, add64}
use platarium_gateway_go.Common.Text.{Text, text_eq, text_beq}
use platarium_gateway_go.Deals.Sets.{contains}
use platarium_gateway_go.Chain.Types.{Transaction, BlockRecord, Blockchain}
use platarium_gateway_go.Chain.Mempool.{hash_in}
use platarium_gateway_go.Chain.Pending.{hashes_of, present}
use platarium_gateway_go.Chain.Ledger.{Env, Node, fee_of, parse_fee}
use platarium_gateway_go.Chain.Apply.{apply_confirmed_transactions, recovered}
use platarium_gateway_go.Chain.Persist.{persist_chain}
use platarium_gateway_go.Chain.Fork.{prefer_block}
use platarium_gateway_go.Chain.Confirm.{
  empty_block, index_confirmed, book_tx, add_fee, mark_confirmed, confirm_each, stamp_block,
  push_block, next_counter, Requeue, to_pending, to_mempool, undo_explorer_confirm,
}

pub data ConfirmError : Type 0 where
  apply_failed pending_changed persist_after_apply peer_preferred local_kept : ConfirmError

-- What a confirmation returns: its error, or the transactions that it moved, and the block.
pub data Confirmed : Type 0 where
  failed : ConfirmError → Confirmed
  confirmed : List Transaction → BlockRecord → Confirmed

abbrev pub same_hashes : List Text → List Text → Bool
same_hashes [] [] = true
same_hashes [] (k ∷ ks) = false
same_hashes (h ∷ hs) [] = false
same_hashes (h ∷ hs) (k ∷ ks) = h == k && same_hashes hs ks

abbrev pub numbered : ℤ → List Transaction → List Transaction
numbered n txs = map {A = Transaction} (λ tx. record tx { block_number = n }) txs

-- The explorer part of `L2ConfirmBlock` and of `ConfirmExplorerWithoutCore`, up to persistChain.
unfoldable pub confirm_block : ℤ → List Transaction → Blockchain → BlockRecord × Blockchain
unfolding confirm_each add64
confirm_block now txs bc = confirm_each txs (empty_block bc.block_counter) (next_counter bc)

-- The loop of `ConfirmMempoolToChain`: it takes no fee from `FeeUplp`, and marks no hash.
unfoldable pub confirm_legacy :
    List Transaction → BlockRecord → Blockchain → BlockRecord × Blockchain
unfolding parse_fee book_tx index_confirmed
confirm_legacy [] block bc = (block, bc)
confirm_legacy (tx ∷ txs) block bc =
    confirm_legacy txs (book_tx (parse_fee tx.fee) tx block)
      (index_confirmed block.block_number tx (add_fee (parse_fee tx.fee) bc))

-- What `AddConfirmedBlock` returns.
pub data Added : Type 0 where
  already_known added : Added
  add_failed : ConfirmError → Added

-- What it finds at the height of the peer's block: no block, the same, or another.
pub data Height : Type 0 where
  unused known preferred kept : Height

abbrev pub same_block : BlockRecord → BlockRecord → Bool
same_block b block =
    (not (b.block_hash == []) && (not (block.block_hash == []) && b.block_hash == block.block_hash))
    || (b.block_hash == block.block_hash && block.block_hash == [])

unfoldable pub height_of : BlockRecord → List BlockRecord → Height
unfolding text_beq prefer_block
height_of block [] = unused
height_of block (b ∷ bs) =
    let rest = height_of block bs in
    if not (b.block_number == block.block_number)
    then rest
    else if same_block b block
    then known
    else if prefer_block b block
    then preferred
    else kept

unfoldable pub raise_counter : ℤ → Blockchain → Blockchain
unfolding add64
raise_counter n bc =
    if leb_ℤ (pos 0) n && ltb_ℤ bc.block_counter (add64 n (pos 1))
    then record bc { block_counter = add64 n (pos 1) }
    else bc

-- The loop of `AddConfirmedBlock`.
unfoldable pub confirm_peer : ℤ → List Transaction → Blockchain → Blockchain
unfolding fee_of index_confirmed
confirm_peer number [] bc = bc
confirm_peer number (tx ∷ txs) bc =
    confirm_peer number txs
      (add_fee (fee_of tx) (mark_confirmed tx.hash (index_confirmed number tx bc)))

unfoldable pub mark_all : List Text → Blockchain → Blockchain
unfolding text_beq
mark_all [] bc = bc
mark_all (h ∷ hs) bc = mark_all hs (if h == [] then bc else mark_confirmed h bc)

-- The node with the snapshot at the path that a call holds; a call without a path has none.
abbrev pub at_path : {K : Type 0} → Option K → Node K → Node K
at_path none n = record n { backup = none }
at_path (some saved) n = n

module _ {K : Type 0} (env : Env K) where
  -- `copyFile(backupPath, statePath)` where there are both, and the removal of the snapshot.
  unfoldable pub restored_from : Option K → Node K → Node K
  restored_from none n = n
  restored_from (some saved) n = record n { core = recovered env saved n.core; backup = none }

  unfoldable pub restore_core : Node K → Node K
  unfolding restored_from
  restore_core n = restored_from n.backup n

  -- What follows the call of persistChain: its error takes the block back.
  unfoldable pub after_persist :
      BlockRecord → List Transaction → Requeue → Node K → Blockchain × Bool → Node K × Confirmed
  unfolding restore_core undo_explorer_confirm
  after_persist block moved requeue n (bc, true) = (record n { chain = bc }, confirmed moved block)
  after_persist block moved requeue n (bc, false) = (
    restore_core (record n { chain = undo_explorer_confirm block moved requeue bc }),
    failed persist_after_apply,
  )

  unfoldable pub persist_block :
      BlockRecord → List Transaction → Requeue → Node K → Node K × Confirmed
  unfolding persist_chain after_persist
  persist_block block moved requeue n =
      after_persist block moved requeue n (persist_chain env.write_works (push_block block n.chain))

  -- `L2ConfirmBlock` once Core has applied `pending`, the copy taken before.
  unfoldable pub l2_confirm_applied : List Transaction → Node K → Node K × Confirmed
  unfolding text_beq restore_core confirm_block stamp_block persist_block
  l2_confirm_applied pending n =
      let cleared = record n.chain { pending_block = [] } in
      let (block, bc) = confirm_block env.now pending n.chain in
      let stamped = stamp_block env.now bc.last_tx block in
      let m = record n { chain = record bc { pending_block = [] } } in
      if same_hashes (hashes_of n.chain.pending_block) (hashes_of pending)
      then persist_block stamped (numbered n.chain.block_counter pending) to_pending m
      else (restore_core (record n { chain = cleared }), failed pending_changed)

  -- `L2ConfirmBlock`. Between its two parts the lock is free: `between` is what other calls do, to the
  -- Core state and the snapshot too.
  unfoldable pub l2_confirm_block : (Node K → Node K) → Node K → Node K × Confirmed
  unfolding apply_confirmed_transactions l2_confirm_applied
  l2_confirm_block between n =
      let r = apply_confirmed_transactions env n.chain.pending_block n in
      let done = l2_confirm_applied n.chain.pending_block (at_path r.0.backup (between r.0)) in
      if r.1 then done else (record r.0 { backup = none }, failed apply_failed)

  -- The argument `n` holds the snapshot at the `backupPath` that is passed.
  unfoldable pub confirm_explorer_without_core :
      List (Option Transaction) → Requeue → Node K → Node K × Confirmed
  unfolding present confirm_block stamp_block persist_block
  confirm_explorer_without_core txs requeue n =
      let (block, bc) = confirm_block env.now (present txs) n.chain in
      persist_block (stamp_block env.now none block) (numbered n.chain.block_counter (present txs))
        requeue (record n { chain = bc })

  -- The flag is true where no error is returned.
  unfoldable pub undo_last_confirmed_block : BlockRecord → List Transaction → Node K → Node K × Bool
  unfolding restore_core undo_explorer_confirm persist_chain
  undo_last_confirmed_block block moved n =
      let m =
        restore_core (record n { chain = undo_explorer_confirm block moved to_pending n.chain }) in
      let r = persist_chain env.write_works m.chain in
      let torn : Bool = elim n.backup [ none ↦ false | some saved ↦ not env.restore_works ] in
      if torn then (m, false) else (record m { chain = r.0 }, r.1)

  -- `ConfirmMempoolToChain` once Core has applied the copy of the mempool taken before.
  unfoldable pub mempool_applied : Node K → Node K × Confirmed
  unfolding confirm_legacy stamp_block persist_block add64
  mempool_applied n =
      let number = n.chain.block_counter in
      let (block, bc) =
        confirm_legacy n.chain.mempool (empty_block number) (next_counter n.chain) in
      persist_block (stamp_block env.now bc.last_tx block) (numbered number n.chain.mempool)
        to_mempool (record n { chain = record bc { mempool = [] } })

  unfoldable pub confirm_mempool_to_chain : (Node K → Node K) → Node K → Node K × Confirmed
  unfolding apply_confirmed_transactions mempool_applied
  confirm_mempool_to_chain between n =
      let r = apply_confirmed_transactions env n.chain.mempool n in
      let done = mempool_applied (at_path r.0.backup (between r.0)) in
      if r.1 then done else (record r.0 { backup = none }, failed apply_failed)

  unfoldable pub peer_settled :
      BlockRecord → List Transaction → Node K → Blockchain × Bool → Node K × Added
  unfolding restore_core undo_explorer_confirm
  peer_settled block txs n (bc, true) = (record n { chain = bc }, added)
  peer_settled block txs n (bc, false) = (
    restore_core (record n { chain = undo_explorer_confirm block txs to_mempool bc }),
    add_failed persist_after_apply,
  )

  -- The explorer part of `AddConfirmedBlock`, up to the failure that a test injects.
  unfoldable pub peer_pushed : BlockRecord → List Transaction → Blockchain → Blockchain
  unfolding keep_if contains confirm_peer mark_all raise_counter
  peer_pushed block txs bc =
      let booked =
        mark_all block.tx_hashes
          (confirm_peer block.block_number txs (raise_counter block.block_number bc)) in
      let others : Transaction → Bool = λ tx. not (hash_in (hashes_of txs) tx) in
      push_block block (record booked {
        mempool = keep_if others booked.mempool;
        pending_block = keep_if others booked.pending_block;
      })

  -- `AddConfirmedBlock` once Core has applied the transactions.
  unfoldable pub peer_applied : BlockRecord → List Transaction → Node K → Node K × Added
  unfolding peer_pushed peer_settled persist_chain
  peer_applied block txs n =
      let pushed = peer_pushed block txs n.chain in
      peer_settled block txs n (
        if n.chain.explorer_write_fails
        then (pushed, false)
        else persist_chain env.write_works pushed)

  -- From what is found at the block's height, and what Core makes of its transactions.
  unfoldable pub peer_confirm :
      Height → BlockRecord → List Transaction → (Node K → Node K) → Node K → Node K × Added
  unfolding apply_confirmed_transactions peer_applied
  peer_confirm known block txs between n = (n, already_known)
  peer_confirm preferred block txs between n = (n, add_failed peer_preferred)
  peer_confirm kept block txs between n = (n, add_failed local_kept)
  peer_confirm unused block txs between n =
      let r = apply_confirmed_transactions env txs n in
      let done = peer_applied block txs (at_path r.0.backup (between r.0)) in
      if r.1 then done else (record r.0 { backup = none }, add_failed apply_failed)

  unfoldable pub add_confirmed_block :
      BlockRecord → List (Option Transaction) → (Node K → Node K) → Node K → Node K × Added
  unfolding height_of peer_confirm present
  add_confirmed_block block txs between n =
      peer_confirm (height_of block n.chain.block_history) block (present txs) between n
