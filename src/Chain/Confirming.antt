-- ===== src/Chain/Confirming.antt =====
-- What the confirmation of a list of transactions, and its undoing, change and leave
-- (internal/blockchain/blockchain.go).
use mathlib.Core.List.{append_assoc, append-nil}
use platarium_gateway_go.Common.{
  ◌≡◌, refl, sym, ◌∙◌, ap, Bool, true, ◌&&◌, ◌||◌, not, some, List, [], ◌∷◌, ◌++◌, keep_if, arith,
}
use platarium_gateway_go.Common.Int.{ℤ, pos, int_eq, int_beq_iff}
use platarium_gateway_go.Common.Text.{Text, text_eq, text_beq, text_beq_iff}
use platarium_gateway_go.Deals.Sets.{contains}
use platarium_gateway_go.Chain.Types.{Transaction, BlockRecord, Blockchain, without_hash}
use platarium_gateway_go.Chain.Pending.{hashes_of}
use platarium_gateway_go.Chain.Ledger.{fee_of}
use platarium_gateway_go.Chain.Blocks.{numbered}
use platarium_gateway_go.Chain.Confirm.{
  confirm_each, book_tx, index_confirmed, mark_confirmed, add_fee, undo_each, undo_tx, requeued,
  Requeue, to_pending, to_mempool, drop_tip,
}

-- The parts of the state that the index of transactions does not touch.
pub record SameChain (bc bc' : Blockchain) : Type 0 where
  pub mempool : bc'.mempool ≡ bc.mempool
  pub pending_block : bc'.pending_block ≡ bc.pending_block
  pub block_history : bc'.block_history ≡ bc.block_history
  pub block_counter : bc'.block_counter ≡ bc.block_counter
  pub chain_file : bc'.chain_file ≡ bc.chain_file
  pub durable_head : bc'.durable_head ≡ bc.durable_head
  pub file : bc'.file ≡ bc.file

pub confirm_each-SameChain :
    (txs : List Transaction) (block : BlockRecord) (bc : Blockchain)
    → SameChain bc (confirm_each txs block bc).1
unfolding confirm_each index_confirmed
confirm_each-SameChain [] block bc = record {
  mempool = refl;
  pending_block = refl;
  block_history = refl;
  block_counter = refl;
  chain_file = refl;
  durable_head = refl;
  file = refl;
}
confirm_each-SameChain (tx ∷ txs) block bc =
    let s =
      confirm_each-SameChain txs (book_tx (fee_of tx) tx block)
        (mark_confirmed tx.hash (index_confirmed block.block_number tx (add_fee (fee_of tx) bc))) in
    record {
      mempool = s.mempool;
      pending_block = s.pending_block;
      block_history = s.block_history;
      block_counter = s.block_counter;
      chain_file = s.chain_file;
      durable_head = s.durable_head;
      file = s.file;
    }

pub confirm_each-tx_hashes :
    (txs : List Transaction) (block : BlockRecord) (bc : Blockchain)
    → (confirm_each txs block bc).0.tx_hashes ≡ block.tx_hashes ++ hashes_of txs
unfolding confirm_each book_tx
confirm_each-tx_hashes [] block bc = sym (append-nil block.tx_hashes)
confirm_each-tx_hashes (tx ∷ txs) block bc =
    confirm_each-tx_hashes txs _ _ ∙ append_assoc block.tx_hashes (tx.hash ∷ []) (hashes_of txs)

pub confirm_each-block_number :
    (txs : List Transaction) (block : BlockRecord) (bc : Blockchain)
    → (confirm_each txs block bc).0.block_number ≡ block.block_number
unfolding confirm_each book_tx
confirm_each-block_number [] block bc = refl
confirm_each-block_number (tx ∷ txs) block bc = confirm_each-block_number txs _ _

pub confirm_each-confirmed :
    (h : Text) (txs : List Transaction) (block : BlockRecord) (bc : Blockchain)
    → contains h (confirm_each txs block bc).1.confirmed_hashes
      ≡ (contains h (hashes_of txs) || contains h bc.confirmed_hashes)
unfolding confirm_each index_confirmed contains
confirm_each-confirmed h [] block bc = refl
confirm_each-confirmed h (tx ∷ txs) block bc =
    let s =
      confirm_each-confirmed h txs (book_tx (fee_of tx) tx block)
        (mark_confirmed tx.hash (index_confirmed block.block_number tx (add_fee (fee_of tx) bc))) in
    s ∙ swapped (contains h (hashes_of txs)) (text_beq tx.hash h) (contains h bc.confirmed_hashes)
  where
    swapped : (a b c : Bool) → (a || (b || c)) ≡ ((b || a) || c)
    swapped a b c = ground arith

pub drop_tip-append :
    (n : ℤ) (block : BlockRecord) (bs : List BlockRecord)
    → block.block_number ≡ n
    → drop_tip n (bs ++ (block ∷ [])) ≡ some bs
unfolding drop_tip
drop_tip-append n block [] e = rw (drop_tip, (int_beq_iff block.block_number n).1 e)
drop_tip-append n block (b ∷ []) e = rw (drop_tip, (int_beq_iff block.block_number n).1 e)
drop_tip-append n block (b ∷ c ∷ bs) e = rw (drop_tip, drop_tip-append n block (c ∷ bs) e)

contains-without_hash :
    (h k : Text) (hs : List Text)
    → contains h (without_hash k hs) ≡ (contains h hs && not (text_beq k h))
unfolding contains without_hash keep_if
contains-without_hash h k [] = refl
contains-without_hash h k (x ∷ hs) =
    ground
      (arith, contains-without_hash h k hs, text_beq_iff x k, text_beq_iff x h, text_beq_iff k h)

-- Undoing puts the transactions, without their block number, where they are to wait.
pub undo_each-pending :
    (txs : List Transaction) (bc : Blockchain)
    → (undo_each to_pending txs bc).pending_block ≡ bc.pending_block ++ numbered (pos 0) txs
unfolding undo_each undo_tx
undo_each-pending [] bc = sym (append-nil bc.pending_block)
undo_each-pending (tx ∷ txs) bc =
    undo_each-pending txs _
    ∙ append_assoc bc.pending_block (record tx { block_number = pos 0 } ∷ []) (numbered (pos 0) txs)

pub undo_each-mempool :
    (txs : List Transaction) (bc : Blockchain) → (undo_each to_pending txs bc).mempool ≡ bc.mempool
unfolding undo_each undo_tx
undo_each-mempool [] bc = refl
undo_each-mempool (tx ∷ txs) bc = undo_each-mempool txs _

pub undo_each-block_history :
    (q : Requeue) (txs : List Transaction) (bc : Blockchain)
    → (undo_each q txs bc).block_history ≡ bc.block_history
unfolding undo_each undo_tx
undo_each-block_history q [] bc = refl
undo_each-block_history to_pending (tx ∷ txs) bc = undo_each-block_history to_pending txs _
undo_each-block_history to_mempool (tx ∷ txs) bc = undo_each-block_history to_mempool txs _

pub undo_each-block_counter :
    (q : Requeue) (txs : List Transaction) (bc : Blockchain)
    → (undo_each q txs bc).block_counter ≡ bc.block_counter
unfolding undo_each undo_tx
undo_each-block_counter q [] bc = refl
undo_each-block_counter to_pending (tx ∷ txs) bc = undo_each-block_counter to_pending txs _
undo_each-block_counter to_mempool (tx ∷ txs) bc = undo_each-block_counter to_mempool txs _

pub undo_each-confirmed :
    (h : Text) (q : Requeue) (txs : List Transaction) (bc : Blockchain)
    → contains h (undo_each q txs bc).confirmed_hashes
      ≡ (contains h bc.confirmed_hashes && not (contains h (hashes_of txs)))
unfolding undo_each undo_tx contains
undo_each-confirmed h q [] bc = kept (contains h bc.confirmed_hashes)
  where
    kept : (b : Bool) → b ≡ (b && true)
    kept b = ground arith
undo_each-confirmed h q (tx ∷ txs) bc =
    undo_each-confirmed h q txs (requeued q (record tx { block_number = pos 0 }) (undo_tx tx bc))
    ∙ step q
  where
    joined : (a b c : Bool) → ((a && not b) && not c) ≡ (a && not (b || c))
    joined a b c = ground arith

    left :
        (d : Bool)
        → (contains h (without_hash tx.hash bc.confirmed_hashes) && not d)
          ≡ (contains h bc.confirmed_hashes && not (text_beq tx.hash h || d))
    left d =
        rw (contains-without_hash h tx.hash bc.confirmed_hashes)
          (joined (contains h bc.confirmed_hashes) (text_beq tx.hash h) d)

    step :
        (q : Requeue)
        → (contains h
              (requeued q (record tx { block_number = pos 0 }) (undo_tx tx bc)).confirmed_hashes
            && not (contains h (hashes_of txs)))
          ≡ (contains h bc.confirmed_hashes
              && not (text_beq tx.hash h || contains h (hashes_of txs)))
    step to_pending = left (contains h (hashes_of txs))
    step to_mempool = left (contains h (hashes_of txs))

pub hashes_of-numbered :
    (n : ℤ) (txs : List Transaction) → hashes_of (numbered n txs) ≡ hashes_of txs
hashes_of-numbered n [] = refl
hashes_of-numbered n (tx ∷ txs) = ap (◌∷◌ tx.hash) (hashes_of-numbered n txs)

pub numbered-numbered :
    (m n : ℤ) (txs : List Transaction) → numbered m (numbered n txs) ≡ numbered m txs
numbered-numbered m n [] = refl
numbered-numbered m n (tx ∷ txs) =
    ap (◌∷◌ (record tx { block_number = m })) (numbered-numbered m n txs)
