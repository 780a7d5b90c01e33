-- ===== src/Chain/Confirm.antt =====
-- Confirmation and its undoing, in internal/blockchain/blockchain.go. A confirmation writes the block
-- number of a transaction in the copy that it stores; the copies in other lists keep theirs.
use platarium_gateway_go.Common.{
  ◌||◌, not, Option, none, some, List, [], ◌∷◌, ◌++◌, keep_if, if◌then◌else◌, ◌==◌,
}
use platarium_gateway_go.Common.Int.{ℤ, pos, int_eq, ltb_ℤ, add64, sub64}
use platarium_gateway_go.Common.Text.{Text, text_eq, text_beq}
use platarium_gateway_go.Common.Dict.{Dict, lookup, insert, erase}
use platarium_gateway_go.Chain.Types.{Transaction, BlockRecord, Blockchain, without_hash}
use platarium_gateway_go.Chain.Mempool.{index_address}
use platarium_gateway_go.Chain.Ledger.{fee_of}

abbrev pub empty_block : ℤ → BlockRecord
empty_block number = record {
  block_number = number;
  timestamp = pos 0;
  tx_hashes = [];
  tx_count = pos 0;
  total_fees = pos 0;
  block_hash = [];
  merkle_root = [];
  state_root = [];
  previous_hash = [];
  producer_node_id = [];
  l1_yes = pos 0;
  l1_no = pos 0;
  l2_yes = pos 0;
  l2_no = pos 0;
  duration_ms = pos 0;
  l1_beneficiary_node_id = [];
  l2_confirmer_node_id = [];
  l1_votes = [];
  l2_votes = [];
}

-- The transaction enters the index, under its new block number.
unfoldable pub index_confirmed : ℤ → Transaction → Blockchain → Blockchain
unfolding insert index_address
index_confirmed number tx bc =
    let t = record tx { block_number = number } in
    record bc {
      transactions = insert tx.hash t bc.transactions;
      last_tx = some t;
      address_txs = index_address tx.receiver t (index_address tx.sender t bc.address_txs);
    }

-- The block's record of one transaction.
unfoldable pub book_tx : ℤ → Transaction → BlockRecord → BlockRecord
unfolding add64
book_tx fee tx block = record block {
  total_fees = add64 block.total_fees fee;
  tx_hashes = block.tx_hashes ++ (tx.hash ∷ []);
  tx_count = add64 block.tx_count (pos 1);
  timestamp =
      if block.timestamp == pos 0 || ltb_ℤ (pos 0) tx.timestamp
      then tx.timestamp
      else block.timestamp;
}

abbrev pub add_fee : ℤ → Blockchain → Blockchain
add_fee fee bc = record bc { total_fees_collected = add64 bc.total_fees_collected fee }

abbrev pub mark_confirmed : Text → Blockchain → Blockchain
mark_confirmed h bc = record bc { confirmed_hashes = h ∷ bc.confirmed_hashes }

-- The loop of `L2ConfirmBlock`.
unfoldable pub confirm_each : List Transaction → BlockRecord → Blockchain → BlockRecord × Blockchain
unfolding fee_of book_tx index_confirmed
confirm_each [] block bc = (block, bc)
confirm_each (tx ∷ txs) block bc =
    confirm_each txs (book_tx (fee_of tx) tx block)
      (mark_confirmed tx.hash (index_confirmed block.block_number tx (add_fee (fee_of tx) bc)))

-- A block without a time gets that of the last transaction, or else the clock's.
unfoldable pub stamp_block : ℤ → Option Transaction → BlockRecord → BlockRecord
stamp_block now last block =
    let time : ℤ = elim last [ none ↦ now | some tx ↦ tx.timestamp ] in
    if block.timestamp == pos 0 then record block { timestamp = time } else block

-- `append(bc.blockHistory, block)`
abbrev pub push_block : BlockRecord → Blockchain → Blockchain
push_block block bc = record bc { block_history = bc.block_history ++ (block ∷ []) }

abbrev pub next_counter : Blockchain → Blockchain
next_counter bc = record bc { block_counter = add64 bc.block_counter (pos 1) }

unfoldable pub remove_tx_from_address_index : List Transaction → Text → List Transaction
unfolding text_beq keep_if
remove_tx_from_address_index txs [] = txs
remove_tx_from_address_index txs (c ∷ h) = keep_if (λ tx. not (tx.hash == c ∷ h)) txs

unfoldable pub unindex_address : Text → Text → Dict (List Transaction) → Dict (List Transaction)
unfolding lookup insert remove_tx_from_address_index
unindex_address [] h index = index
unindex_address (c ∷ a) h index =
    let old : List Transaction = elim (lookup (c ∷ a) index) [ none ↦ [] | some txs ↦ txs ] in
    insert (c ∷ a) (remove_tx_from_address_index old h) index

pub data Requeue : Type 0 where
  to_pending to_mempool : Requeue

abbrev pub requeued : Requeue → Transaction → Blockchain → Blockchain
requeued to_pending tx bc = record bc { pending_block = bc.pending_block ++ (tx ∷ []) }
requeued to_mempool tx bc = record bc { mempool = bc.mempool ++ (tx ∷ []) }

unfoldable pub forget_last : Text → Option Transaction → Option Transaction
unfolding text_beq
forget_last h none = none
forget_last h (some tx) = if tx.hash == h then none else some tx

unfoldable pub undo_tx : Transaction → Blockchain → Blockchain
unfolding erase without_hash forget_last unindex_address
undo_tx tx bc = record bc {
  transactions = erase tx.hash bc.transactions;
  confirmed_hashes = without_hash tx.hash bc.confirmed_hashes;
  last_tx = forget_last tx.hash bc.last_tx;
  address_txs =
      unindex_address tx.receiver tx.hash (unindex_address tx.sender tx.hash bc.address_txs);
}

unfoldable pub undo_each : Requeue → List Transaction → Blockchain → Blockchain
unfolding undo_tx
undo_each requeue [] bc = bc
undo_each requeue (tx ∷ txs) bc =
    undo_each requeue txs (requeued requeue (record tx { block_number = pos 0 }) (undo_tx tx bc))

-- The history without its last block, where that has the number `n`.
unfoldable pub drop_tip : ℤ → List BlockRecord → Option (List BlockRecord)
drop_tip n [] = none
drop_tip n (b ∷ []) = if b.block_number == n then some [] else none
drop_tip n (b ∷ c ∷ bs) = elim (drop_tip n (c ∷ bs)) [ none ↦ none | some rest ↦ some (b ∷ rest) ]

unfoldable pub without_tip : ℤ → Option (List BlockRecord) → Blockchain → Blockchain
unfolding add64
without_tip n none bc = bc
without_tip n (some rest) bc = record bc {
  block_history = rest;
  block_counter = if bc.block_counter == add64 n (pos 1) then n else bc.block_counter;
}

unfoldable pub undo_tip : ℤ → Blockchain → Blockchain
unfolding drop_tip without_tip
undo_tip n bc = without_tip n (drop_tip n bc.block_history) bc

unfoldable pub undo_fees : ℤ → Blockchain → Blockchain
unfolding sub64
undo_fees fees bc =
    let left = sub64 bc.total_fees_collected fees in
    record bc { total_fees_collected = if ltb_ℤ left (pos 0) then pos 0 else left }

unfoldable pub undo_explorer_confirm :
    BlockRecord → List Transaction → Requeue → Blockchain → Blockchain
unfolding undo_tip undo_fees undo_each
undo_explorer_confirm block moved requeue bc =
    undo_each requeue moved (undo_fees block.total_fees (undo_tip block.block_number bc))
