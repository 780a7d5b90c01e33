-- ===== src/Chain/Heights.antt =====
-- `AddConfirmedBlock` of internal/blockchain/blockchain.go never puts a second block at a height.
use platarium_gateway_go.Common.{
  ◌≡◌, refl, ◌∙◌, ap, subst, Bool, true, false, ◌&&◌, Option, none, some, List, [], ◌∷◌, ◌++◌, All,
  if◌then◌else◌, Bool-cases, inl, inr, ◌⊎◌, some_inj,
}
use platarium_gateway_go.Common.Int.{ℤ, pos, int_eq, int_beq, add64, ltb_ℤ, leb_ℤ}
use platarium_gateway_go.Common.Text.{Text, text_eq, text_beq}
use platarium_gateway_go.Chain.Types.{Transaction, BlockRecord, Blockchain}
use platarium_gateway_go.Chain.Pending.{present}
use platarium_gateway_go.Chain.Ledger.{Env, Core, Node, maybe_dag_reorder}
use platarium_gateway_go.Chain.Apply.{
  after_apply, apply_snapshotted, apply_with, apply_ordered, apply_confirmed_transactions,
  clear_commit,
}
use platarium_gateway_go.Chain.Persist.{persist_chain}
use platarium_gateway_go.Chain.Fork.{prefer_block}
use platarium_gateway_go.Chain.Confirm.{
  index_confirmed, mark_confirmed, undo_tip, without_tip, undo_fees, drop_tip,
  undo_explorer_confirm, to_mempool,
}
use platarium_gateway_go.Chain.Confirming.{drop_tip-append, undo_each-block_history}
use platarium_gateway_go.Chain.Saving.{restore_core-chain}
use platarium_gateway_go.Chain.Writing.{persist_chain-cases}
use platarium_gateway_go.Chain.Blocks.{
  at_path, height_of, same_block, Height, unused, known, preferred, kept, Added, added,
  already_known, add_failed, ConfirmError, apply_failed, raise_counter, confirm_peer, mark_all,
  peer_pushed, peer_settled, peer_applied, peer_confirm, add_confirmed_block,
}

-- No block has the number of `block`.
abbrev pub Unused : BlockRecord → List BlockRecord → Type 0
Unused block bs = All (λ b. int_beq b.block_number block.block_number ≡ false) bs

height_of-Unused :
    (block : BlockRecord) (bs : List BlockRecord) → height_of block bs ≡ unused → Unused block bs
unfolding height_of
height_of-Unused block [] e = tt
height_of-Unused block (b ∷ bs) e = elim (Bool-cases (int_beq b.block_number block.block_number)) [
  | inr f ↦ (f, height_of-Unused block bs (rw f at e))
  | inl f ↦ elim (Bool-cases (same_block b block)) [
    | inl g ↦ let q = rw (f, g) at e in cc (q)
    | inr g ↦ elim (Bool-cases (prefer_block b block)) [
      | inl h ↦ let q = rw (f, g, h) at e in cc (q)
      | inr h ↦ let q = rw (f, g, h) at e in cc (q)
    ]
  ]
]

raise_counter-block_history :
    (n : ℤ) (bc : Blockchain) → (raise_counter n bc).block_history ≡ bc.block_history
unfolding raise_counter
raise_counter-block_history n bc =
    elim (Bool-cases (leb_ℤ (pos 0) n && ltb_ℤ bc.block_counter (add64 n (pos 1)))) [
      | inl e ↦ simp (e)
      | inr e ↦ simp (e)
    ]

confirm_peer-block_history :
    (n : ℤ) (txs : List Transaction) (bc : Blockchain)
    → (confirm_peer n txs bc).block_history ≡ bc.block_history
unfolding confirm_peer index_confirmed
confirm_peer-block_history n [] bc = refl
confirm_peer-block_history n (tx ∷ txs) bc = confirm_peer-block_history n txs _

mark_all-block_history :
    (hs : List Text) (bc : Blockchain) → (mark_all hs bc).block_history ≡ bc.block_history
unfolding mark_all
mark_all-block_history [] bc = refl
mark_all-block_history (h ∷ hs) bc = mark_all-block_history hs _ ∙ marked (text_beq h [])
  where
    marked : (b : Bool) → (if b then bc else mark_confirmed h bc).block_history ≡ bc.block_history
    marked true = refl
    marked false = refl

peer_pushed-block_history :
    {K : Type 0} (env : Env K) (block : BlockRecord) (txs : List Transaction) (bc : Blockchain)
    → (peer_pushed env block txs bc).block_history ≡ bc.block_history ++ (block ∷ [])
unfolding peer_pushed
peer_pushed-block_history env block txs bc =
    ap (λ l. l ++ (block ∷ []))
      (mark_all-block_history block.tx_hashes _
        ∙ (confirm_peer-block_history block.block_number txs _
            ∙ raise_counter-block_history block.block_number bc))

without_tip-block_history :
    (n : ℤ) (o : Option (List BlockRecord)) (bs : List BlockRecord) (bc : Blockchain)
    → o ≡ some bs
    → (without_tip n o bc).block_history ≡ bs
unfolding without_tip
without_tip-block_history n none bs bc e = cc (e)
without_tip-block_history n (some rest) bs bc e = some_inj e

undo_tip-block_history :
    (block : BlockRecord) (bs : List BlockRecord) (bc : Blockchain)
    → bc.block_history ≡ bs ++ (block ∷ [])
    → (undo_tip block.block_number bc).block_history ≡ bs
unfolding undo_tip
undo_tip-block_history block bs bc e =
    without_tip-block_history block.block_number (drop_tip block.block_number bc.block_history) bs
      bc (ap (drop_tip block.block_number) e ∙ drop_tip-append block.block_number block bs refl)

undo_explorer_confirm-block_history :
    (block : BlockRecord) (txs : List Transaction) (bs : List BlockRecord) (bc : Blockchain)
    → bc.block_history ≡ bs ++ (block ∷ [])
    → (undo_explorer_confirm block txs to_mempool bc).block_history ≡ bs
unfolding undo_explorer_confirm undo_fees
undo_explorer_confirm-block_history block txs bs bc e =
    undo_each-block_history to_mempool txs _ ∙ undo_tip-block_history block bs bc e

-- The peer's block has become the last of the history.
abbrev pub Pushed : BlockRecord → List BlockRecord → {K : Type 0} → Node K × Added → Type 0
Pushed block bs r = (r.1 ≡ added) × (r.0.chain.block_history ≡ bs ++ (block ∷ []))

-- The history is as it was, and the call says so.
abbrev pub Refused : List BlockRecord → {K : Type 0} → Node K × Added → Type 0
Refused bs r =
    ((r.1 ≡ already_known) ⊎ ((e : ConfirmError) × (r.1 ≡ add_failed e)))
    × (r.0.chain.block_history ≡ bs)

module _ {K : Type 0} (env : Env K) where
  after_apply-block_history :
      (saved : K) (bc : Blockchain) (r : K × Bool)
      → (after_apply env saved bc r).0.chain.block_history ≡ bc.block_history
  unfolding after_apply
  after_apply-block_history saved bc (k, true) = refl
  after_apply-block_history saved bc (k, false) = refl

  apply_snapshotted-block_history :
      (core : Core K) (order : Option (List Transaction) × Bool) (n : Node K)
      → (apply_snapshotted env core order n).0.chain.block_history ≡ n.chain.block_history
  unfolding apply_snapshotted
  apply_snapshotted-block_history core (none, used) n =
      after_apply-block_history n.core n.chain (n.core, false)
  apply_snapshotted-block_history core (some txs, true) n =
      after_apply-block_history n.core (clear_commit env true n.chain)
        (apply_ordered env core txs n.core)
  apply_snapshotted-block_history core (some txs, false) n =
      after_apply-block_history n.core n.chain (apply_ordered env core txs n.core)

  apply_with-block_history :
      (ledger : Option (Core K)) (txs : List Transaction) (n : Node K)
      → (apply_with env ledger txs n).0.chain.block_history ≡ n.chain.block_history
  unfolding apply_with
  apply_with-block_history none txs n = refl
  apply_with-block_history (some core) txs n = elim (Bool-cases env.snapshot_works) [
    | inl e ↦
        simp (e) (apply_snapshotted-block_history core (maybe_dag_reorder env core n.chain txs) n)
    | inr e ↦ simp (e)
  ]

  peer_settled-cases :
      (block : BlockRecord) (txs : List Transaction) (n : Node K) (bs : List BlockRecord)
      (r : Blockchain × Bool)
      → r.0.block_history ≡ bs ++ (block ∷ [])
      → Pushed block bs (peer_settled env block txs n r)
        ⊎ Refused bs (peer_settled env block txs n r)
  unfolding peer_settled
  peer_settled-cases block txs n bs (bc, true) e = inl (refl, e)
  peer_settled-cases block txs n bs (bc, false) e = inr (
    inr (_, refl),
    ap (λ c. c.block_history) (restore_core-chain env _)
        ∙ undo_explorer_confirm-block_history block txs bs bc e,
  )

  persist_chain-block_history :
      (works : Bool) (bc : Blockchain) → (persist_chain works bc).0.block_history ≡ bc.block_history
  persist_chain-block_history works bc = elim (persist_chain-cases works bc) [
    | inl (file, head, e) ↦ ap (λ r. r.0.block_history) e
    | inr e ↦ ap (λ r. r.0.block_history) e
  ]

  peer_applied-cases :
      (block : BlockRecord) (txs : List Transaction) (n : Node K)
      → let bs = n.chain.block_history in
        Pushed block bs (peer_applied env block txs n) ⊎ Refused bs (peer_applied env block txs n)
  unfolding peer_applied
  peer_applied-cases block txs n =
      peer_settled-cases block txs n n.chain.block_history _ (written n.chain.explorer_write_fails)
    where
      pushed : Blockchain
      pushed = peer_pushed env block txs n.chain

      written :
          (fails : Bool)
          → (if fails
              then (pushed, false)
              else persist_chain env.write_works pushed).0.block_history
            ≡ n.chain.block_history ++ (block ∷ [])
      written true = peer_pushed-block_history env block txs n.chain
      written false =
          persist_chain-block_history env.write_works pushed
          ∙ peer_pushed-block_history env block txs n.chain

  -- What `AddConfirmedBlock` makes of the answer of Core, where no other call comes between.
  abbrev after_core : BlockRecord → List Transaction → Node K × Bool → Node K × Added
  after_core block txs r =
      if r.1
      then peer_applied env block txs (at_path r.0.backup r.0)
      else (record r.0 { backup = none }, add_failed apply_failed)

  at_path-block_history :
      (o : Option K) (n : Node K) → (at_path o n).chain.block_history ≡ n.chain.block_history
  at_path-block_history none n = refl
  at_path-block_history (some saved) n = refl

  after_core-cases :
      (block : BlockRecord) (txs : List Transaction) (bs : List BlockRecord) (r : Node K × Bool)
      → r.0.chain.block_history ≡ bs
      → Pushed block bs (after_core block txs r) ⊎ Refused bs (after_core block txs r)
  after_core-cases block txs bs (m, true) e =
      subst
        (λ l.
          Pushed block l (peer_applied env block txs (at_path m.backup m))
          ⊎ Refused l (peer_applied env block txs (at_path m.backup m)))
        (at_path-block_history m.backup m ∙ e) (peer_applied-cases block txs (at_path m.backup m))
  after_core-cases block txs bs (m, false) e = inr (inr (apply_failed, refl), e)

  peer_confirm-cases :
      (h : Height) (block : BlockRecord) (txs : List Transaction) (n : Node K)
      → let r = peer_confirm env h block txs (λ m. m) n in
        ((h ≡ unused) × Pushed block n.chain.block_history r) ⊎ Refused n.chain.block_history r
  unfolding peer_confirm apply_confirmed_transactions
  peer_confirm-cases known block txs n = inr (inl refl, refl)
  peer_confirm-cases preferred block txs n = inr (inr (_, refl), refl)
  peer_confirm-cases kept block txs n = inr (inr (_, refl), refl)
  peer_confirm-cases unused block txs n =
      elim (after_core-cases block txs n.chain.block_history (apply_with env env.ledger txs n)
        (apply_with-block_history env.ledger txs n)) [ inl p ↦ inl (refl, p) | inr q ↦ inr q ]

  -- A call of `AddConfirmedBlock` during which no other call comes between either returns that it added
  -- the block, which is then the last of the history and the only one of its number, or returns that
  -- the block is known or an error, and leaves the history as it was: no block is replaced.
  pub add_confirmed_block-heights :
      (block : BlockRecord) (txs : List (Option Transaction)) (n : Node K)
      → let r = add_confirmed_block env block txs (λ m. m) n in
        (Unused block n.chain.block_history × Pushed block n.chain.block_history r)
        ⊎ Refused n.chain.block_history r
  unfolding add_confirmed_block
  add_confirmed_block-heights block txs n =
      elim (peer_confirm-cases (height_of block n.chain.block_history) block (present txs) n) [
        | inl (e, p) ↦ inl (height_of-Unused block n.chain.block_history e, p)
        | inr q ↦ inr q
      ]
