-- ===== src/Chain/Saving.antt =====
-- What is left when persistChain fails in `L2ConfirmBlock` or `AddConfirmedBlock`
-- (internal/blockchain/blockchain.go): the block that was pushed is taken back.
use platarium_gateway_go.Common.{
  ◌≡◌, refl, sym, ◌∙◌, ap, subst, Bool, true, false, [], Option, none, some, List, if◌then◌else◌,
  inl, inr, ◌⊎◌,
}
use platarium_gateway_go.Common.Int.{ℤ, pos, int_eq, int_beq_iff, add64}
use platarium_gateway_go.Common.Text.{text_eq}
use platarium_gateway_go.Chain.Types.{Transaction, BlockRecord, Blockchain, ChainFileData}
use platarium_gateway_go.Chain.Ledger.{Env, Node}
use platarium_gateway_go.Chain.Confirm.{
  push_block, undo_tip, without_tip, undo_explorer_confirm, Requeue,
}
use platarium_gateway_go.Chain.Blocks.{
  persist_block, after_persist, restored_from, restore_core, confirmed, failed, persist_after_apply,
}
use platarium_gateway_go.Chain.Writing.{saved_as, persist_chain-cases}
use platarium_gateway_go.Chain.Persist.{persist_chain}
use platarium_gateway_go.Chain.Persisted.{
  Written, Unwritten, no_path, shrinks, unwritable, persist_chain-head,
}
use platarium_gateway_go.Chain.Confirming.{drop_tip-append}

pub undo_tip-push :
    (n : ℤ) (block : BlockRecord) (bc : Blockchain)
    → block.block_number ≡ n
    → bc.block_counter ≡ add64 n (pos 1)
    → undo_tip n (push_block block bc) ≡ record bc { block_counter = n }
unfolding undo_tip without_tip
undo_tip-push n block bc e c =
    ap (λ o. without_tip n o (push_block block bc)) (drop_tip-append n block bc.block_history e)
    ∙ ap (λ b. record bc { block_counter = if b then n else bc.block_counter })
        ((int_beq_iff bc.block_counter (add64 n (pos 1))).1 c)

-- What `persistChain` leaves where it returns no error: the written file, unless no path is set.
abbrev pub Saved : Blockchain → Blockchain → Type 0
Saved bc bc' = (bc.chain_file ≡ []) ⊎ Written bc bc'

no_path-only :
    {works b : Bool} {bc : Blockchain} → Unwritten works bc b → b ≡ true → bc.chain_file ≡ []
no_path-only (no_path e) h = e
no_path-only (shrinks p q) h = cc (h)
no_path-only (unwritable e) h = cc (h)

-- `persistChain` changes the file and the durable head only, or changes nothing and has a reason.
persist_chain-reason :
    (works : Bool) (bc : Blockchain)
    → ((file : Option ChainFileData) × (head : ℤ) × (persist_chain works bc
          ≡ (saved_as file head bc, true))
        × Saved bc (saved_as file head bc))
      ⊎ ((persist_chain works bc ≡ (bc, false)) × Unwritten works bc false)
persist_chain-reason works bc = elim (persist_chain-cases works bc) [
  | inl (file, head, e) ↦ inl (
    file,
    head,
    e,
    (elim (persist_chain-head works bc) [
      | inl (t, w) ↦ inr (subst (Written bc) (ap (λ r. r.0) e) w)
      | inr (s, u) ↦ inl (no_path-only u (ap (λ r. r.1) e))
    ]),
  )
  | inr e ↦ inr (
    e,
    (elim (persist_chain-head works bc) [
      | inl (t, w) ↦ absurd (false-ne (sym (ap (λ r. r.1) e) ∙ t))
      | inr (s, u) ↦ subst (Unwritten works bc) (ap (λ r. r.1) e) u
    ]),
  )
]
  where
    false-ne : false ≡ true → ⊥
    false-ne e = cc (e)

module _ {K : Type 0} (env : Env K) where
  -- What `persist_block` makes of a block at the height of the counter that precedes it.
  pub persist_block-cases :
      (block : BlockRecord) (moved : List Transaction) (requeue : Requeue) (n : Node K)
      → ((file : Option ChainFileData) × (head : ℤ) × (persist_block env block moved requeue n ≡ (
        record n { chain = saved_as file head (push_block block n.chain) },
        confirmed moved block,
      ))
          × Saved (push_block block n.chain) (saved_as file head (push_block block n.chain)))
        ⊎ ((persist_block env block moved requeue n ≡ (
          restore_core env (record n {
            chain = undo_explorer_confirm block moved requeue (push_block block n.chain);
          }),
          failed persist_after_apply,
        ))
            × Unwritten env.write_works (push_block block n.chain) false)
  unfolding persist_block after_persist
  persist_block-cases block moved requeue n =
      elim (persist_chain-reason env.write_works (push_block block n.chain)) [
        | inl (file, head, e, s) ↦
            inl (file, head, ap (after_persist env block moved requeue n) e, s)
        | inr (e, u) ↦ inr (ap (after_persist env block moved requeue n) e, u)
      ]

  restored_from-chain :
      (saved : Option K) (n : Node K) → (restored_from env saved n).chain ≡ n.chain
  unfolding restored_from
  restored_from-chain none n = refl
  restored_from-chain (some saved) n = refl

  pub restore_core-chain : (n : Node K) → (restore_core env n).chain ≡ n.chain
  unfolding restore_core
  restore_core-chain n = restored_from-chain n.backup n
