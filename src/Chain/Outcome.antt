-- ===== src/Chain/Outcome.antt =====
-- The two outcomes of `L2ConfirmBlock` (internal/blockchain/blockchain.go) once Core has applied the
-- pending block: it becomes the last block of the history, or it is pending again.
use platarium_gateway_go.Common.{
  ◌≡◌, refl, sym, ◌∙◌, ap, subst, Bool, true, false, ◌&&◌, ◌||◌, not, Option, List, [], ◌∷◌, ◌++◌,
  arith, Bool-cases, inl, inr, ◌⊎◌,
}
use platarium_gateway_go.Common.Int.{ℤ, pos, int_eq, int_beq, add64}
use platarium_gateway_go.Common.Text.{Text, text_eq, text_beq_refl}
use platarium_gateway_go.Deals.Sets.{contains}
use platarium_gateway_go.Chain.Types.{Transaction, BlockRecord, Blockchain, ChainFileData}
use platarium_gateway_go.Chain.Pending.{hashes_of}
use platarium_gateway_go.Chain.Ledger.{Env, Node}
use platarium_gateway_go.Chain.Confirm.{
  empty_block, next_counter, push_block, stamp_block, undo_tip, undo_fees, undo_explorer_confirm,
  to_pending,
}
use platarium_gateway_go.Chain.Blocks.{
  numbered, same_hashes, confirm_block, persist_block, l2_confirm_applied, Confirmed, confirmed,
  failed, persist_after_apply,
}
use platarium_gateway_go.Chain.Writing.{saved_as}
use platarium_gateway_go.Chain.Confirming.{
  SameChain, confirm_each-SameChain, confirm_each-tx_hashes, confirm_each-block_number,
  confirm_each-confirmed, undo_each-pending, undo_each-mempool, undo_each-block_history,
  undo_each-block_counter, undo_each-confirmed, hashes_of-numbered, numbered-numbered,
}
use platarium_gateway_go.Chain.Persisted.{Unwritten}
use platarium_gateway_go.Chain.Saving.{
  Saved, undo_tip-push, persist_block-cases, restore_core-chain,
}

-- The pending block has become the block `block`.
pub record Extended (bc bc' : Blockchain) (block : BlockRecord) : Type 0 where
  pub mempool : bc'.mempool ≡ bc.mempool
  pub pending_block : bc'.pending_block ≡ []
  pub block_history : bc'.block_history ≡ bc.block_history ++ (block ∷ [])
  pub block_number : block.block_number ≡ bc.block_counter
  pub chain_file : bc'.chain_file ≡ bc.chain_file
  pub tx_hashes : block.tx_hashes ≡ hashes_of bc.pending_block
  pub marked :
      (h : Text)
      → contains h bc'.confirmed_hashes
        ≡ (contains h (hashes_of bc.pending_block) || contains h bc.confirmed_hashes)

-- The blockchain is as it was, but that the pending transactions have no block number, and that none
-- of them is confirmed.
pub record Undone (bc bc' : Blockchain) : Type 0 where
  pub mempool : bc'.mempool ≡ bc.mempool
  pub pending_block : bc'.pending_block ≡ numbered (pos 0) bc.pending_block
  pub block_history : bc'.block_history ≡ bc.block_history
  pub block_counter : bc'.block_counter ≡ bc.block_counter
  pub unmarked :
      (h : Text)
      → contains h bc'.confirmed_hashes
        ≡ (contains h bc.confirmed_hashes && not (contains h (hashes_of bc.pending_block)))

same_hashes_refl : (hs : List Text) → same_hashes hs hs ≡ true
same_hashes_refl [] = refl
same_hashes_refl (h ∷ hs) = rw (text_beq_refl h) (same_hashes_refl hs)

module _ {K : Type 0} (env : Env K) where
  abbrev pub block_of : Node K → BlockRecord
  block_of n =
      let (block, bc) = confirm_block env.now n.chain.pending_block n.chain in
      stamp_block env.now bc.last_tx block

  stamp_block-tx_hashes :
      (last : Option Transaction) (block : BlockRecord)
      → (stamp_block env.now last block).tx_hashes ≡ block.tx_hashes
  unfolding stamp_block
  stamp_block-tx_hashes last block = elim (Bool-cases (int_beq block.timestamp (pos 0))) [
    | inl e ↦ simp (e)
    | inr e ↦ simp (e)
  ]

  stamp_block-block_number :
      (last : Option Transaction) (block : BlockRecord)
      → (stamp_block env.now last block).block_number ≡ block.block_number
  unfolding stamp_block
  stamp_block-block_number last block = elim (Bool-cases (int_beq block.timestamp (pos 0))) [
    | inl e ↦ simp (e)
    | inr e ↦ simp (e)
  ]

  -- The node as `L2ConfirmBlock` hands it to `persist_block`.
  abbrev pub indexed_node : Node K → Node K
  indexed_node n =
      let (block, bc) = confirm_block env.now n.chain.pending_block n.chain in
      record n { chain = record bc { pending_block = [] } }

  -- The blockchain as it is handed to `persistChain`.
  abbrev pub pushed_of : Node K → Blockchain
  pushed_of n = push_block (block_of n) (indexed_node n).chain

  abbrev pub moved_of : Node K → List Transaction
  moved_of n = numbered n.chain.block_counter n.chain.pending_block

  l2_confirm_applied-persist :
      (n : Node K)
      → l2_confirm_applied env n.chain.pending_block n
        ≡ persist_block env (block_of n) (moved_of n) to_pending (indexed_node n)
  unfolding l2_confirm_applied
  l2_confirm_applied-persist n =
      rw (l2_confirm_applied, same_hashes_refl (hashes_of n.chain.pending_block)) refl

  block_of-number : (n : Node K) → (block_of n).block_number ≡ n.chain.block_counter
  unfolding confirm_block
  block_of-number n =
      stamp_block-block_number _ _
      ∙ confirm_each-block_number n.chain.pending_block (empty_block n.chain.block_counter)
          (next_counter n.chain)

  block_of-hashes : (n : Node K) → (block_of n).tx_hashes ≡ hashes_of n.chain.pending_block
  unfolding confirm_block
  block_of-hashes n =
      stamp_block-tx_hashes _ _
      ∙ confirm_each-tx_hashes n.chain.pending_block (empty_block n.chain.block_counter)
          (next_counter n.chain)

  -- What the confirmation of the pending block changes before the block is pushed.
  indexed_of :
      (n : Node K)
      → SameChain (next_counter n.chain) (confirm_block env.now n.chain.pending_block n.chain).1
  unfolding confirm_block
  indexed_of n =
      confirm_each-SameChain n.chain.pending_block (empty_block n.chain.block_counter)
        (next_counter n.chain)

  marked_of :
      (n : Node K) (h : Text)
      → contains h (indexed_node n).chain.confirmed_hashes
        ≡ (contains h (hashes_of n.chain.pending_block) || contains h n.chain.confirmed_hashes)
  unfolding confirm_block
  marked_of n h =
      confirm_each-confirmed h n.chain.pending_block (empty_block n.chain.block_counter)
        (next_counter n.chain)

  block_of-Extended :
      (file : Option ChainFileData) (head : ℤ) (n : Node K)
      → Extended n.chain
          (saved_as file head (push_block (block_of n) (indexed_node n).chain))
          (block_of n)
  block_of-Extended file head n =
      let s = indexed_of n in
      record {
        mempool = s.mempool;
        pending_block = refl;
        block_history = ap (λ t. t ++ (block_of n ∷ [])) s.block_history;
        block_number = block_of-number n;
        chain_file = s.chain_file;
        tx_hashes = block_of-hashes n;
        marked = marked_of n;
      }

  moved_of-Undone :
      (n : Node K)
      → Undone n.chain (
          undo_explorer_confirm
            (block_of n)
            (moved_of n)
            to_pending
            (push_block (block_of n) (indexed_node n).chain))
  unfolding undo_explorer_confirm undo_fees
  moved_of-Undone n =
      let s = indexed_of n in
      let number = (block_of n).block_number in
      let tip =
        undo_tip-push number (block_of n) (indexed_node n).chain refl
          (s.block_counter ∙ ap (λ t. add64 t (pos 1)) (sym (block_of-number n))) in
      let back : Blockchain =
        undo_fees (block_of n).total_fees
          (undo_tip number (push_block (block_of n) (indexed_node n).chain)) in
      record {
        mempool = undo_each-mempool (moved_of n) back ∙ (ap (λ t. t.mempool) tip ∙ s.mempool);
        pending_block =
            undo_each-pending (moved_of n) back
            ∙ (ap (λ t. t.pending_block ++ numbered (pos 0) (moved_of n)) tip
                ∙ numbered-numbered (pos 0) n.chain.block_counter n.chain.pending_block);
        block_history =
            undo_each-block_history to_pending (moved_of n) back
            ∙ (ap (λ t. t.block_history) tip ∙ s.block_history);
        block_counter =
            undo_each-block_counter to_pending (moved_of n) back
            ∙ (ap (λ t. t.block_counter) tip ∙ block_of-number n);
        unmarked = λ h.
            undo_each-confirmed h to_pending (moved_of n) back
            ∙ (ap (λ t. contains h t.confirmed_hashes && not (contains h (hashes_of (moved_of n))))
                  tip
                ∙ removed h n);
      }
    where
      absorbed : (a b : Bool) → ((a || b) && not a) ≡ (b && not a)
      absorbed a b = ground arith

      removed :
          (h : Text) (n : Node K)
          → (contains h (indexed_node n).chain.confirmed_hashes
              && not (contains h (hashes_of (moved_of n))))
            ≡ (contains h n.chain.confirmed_hashes
                && not (contains h (hashes_of n.chain.pending_block)))
      removed h n =
          rw (marked_of n h, hashes_of-numbered n.chain.block_counter n.chain.pending_block)
            (absorbed (contains h (hashes_of n.chain.pending_block))
              (contains h n.chain.confirmed_hashes))

  -- What `L2ConfirmBlock` returns and leaves once the pending block is applied.
  abbrev pub Confirmation : Node K → Node K × Confirmed → Type 0
  Confirmation n r =
      ((r.1 ≡ confirmed (moved_of n) (block_of n))
        × Extended n.chain r.0.chain (block_of n)
        × Saved (pushed_of n) r.0.chain)
      ⊎ ((r.1 ≡ failed persist_after_apply)
          × Undone n.chain r.0.chain
          × Unwritten env.write_works (pushed_of n) false)

  -- Once Core has applied the pending block and it has not changed, either `L2ConfirmBlock` returns the
  -- block and the transactions moved, the block is the last of the history at the height of the counter,
  -- with its hashes marked as confirmed, and the chain file holds the whole chain with it, unless no path
  -- of the file is set; or the head of the file would go back, or the file cannot be written, and then
  -- the error is returned, and mempool, history and counter are as before, the transactions pending
  -- again, without a block number, and not marked.
  pub l2_confirm_applied-cases :
      (n : Node K) → Confirmation n (l2_confirm_applied env n.chain.pending_block n)
  l2_confirm_applied-cases n =
      subst (Confirmation n) (sym (l2_confirm_applied-persist n))
        (elim (persist_block-cases env (block_of n) (moved_of n) to_pending (indexed_node n)) [
          | inl (file, head, e, s) ↦ inl (
            ap (λ t. t.1) e,
            subst (λ c. Extended n.chain c (block_of n)) (sym (ap (λ t. t.0.chain) e))
                (block_of-Extended file head n),
            subst (Saved (pushed_of n)) (sym (ap (λ t. t.0.chain) e)) s,
          )
          | inr (e, u) ↦ inr (
            ap (λ t. t.1) e,
            subst (Undone n.chain) (sym (ap (λ t. t.0.chain) e ∙ restore_core-chain env _))
                (moved_of-Undone n),
            u,
          )
        ])
