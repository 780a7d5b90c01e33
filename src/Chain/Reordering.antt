-- ===== src/Chain/Reordering.antt =====
-- The reordering of a block's transactions by digests (internal/core/dag.go, and `maybeDagReorder` of
-- internal/blockchain/blockchain.go) neither loses one nor adds one.
use mathlib.Core.List.{Perm, append_assoc, perm_middle}
use mathlib.Core.List.Perm
use platarium_gateway_go.Common.{
  ◌≡◌, refl, ap, subst, Bool, true, false, ◌&&◌, ◌||◌, not, some, List, [], ◌∷◌, ◌++◌, length, leb,
  ltb, if◌then◌else◌, Bool-cases, inl, inr, some_inj,
}
use platarium_gateway_go.Common.Text.{Text, text_eq, text_beq}
use platarium_gateway_go.Chain.Types.{Transaction, Blockchain}
use platarium_gateway_go.Chain.Order.{
  Slots, unplaced, place, place_all, left_over, permute_by_digests, digest_overlap_count,
}
use platarium_gateway_go.Chain.Ledger.{
  Env, Core, DagAnswer, dag_failed, dag_ordered, reordered, maybe_dag_reorder, any_faucet,
  digests_of, tx_hash,
}

module _ {ℓ} {A : Type ℓ} (hash_of : A → Text) where
  -- What is placed leaves what is left over.
  place-perm :
      (d : Text) (slots : Slots hash_of)
      → let r = place hash_of d slots in
        Perm (r.0 ++ left_over hash_of r.1) (left_over hash_of slots)
  unfolding place left_over
  place-perm d [] = Perm.refl []
  place-perm d ((x, used) ∷ slots) =
      elim (Bool-cases (text_beq (hash_of x) d && not (text_beq d []))) [
        | inl e ↦ rw e (placed used)
        | inr e ↦ rw e (later (place-perm d slots) used)
      ]
    where
      placed :
          (used : Bool)
          → Perm
              ((if used then [] else x ∷ []) ++ left_over hash_of slots)
              (if used then left_over hash_of slots else x ∷ left_over hash_of slots)
      placed true = Perm.refl _
      placed false = Perm.refl _

      later :
          Perm
            ((place hash_of d slots).0 ++ left_over hash_of (place hash_of d slots).1)
            (left_over hash_of slots)
          → (used : Bool)
          → let r = place hash_of d slots in
            Perm
              (r.0 ++ (if used then left_over hash_of r.1 else x ∷ left_over hash_of r.1))
              (if used then left_over hash_of slots else x ∷ left_over hash_of slots)
      later p true = p
      later p false =
          Perm.trans
            (perm_middle (place hash_of d slots).0 (left_over hash_of (place hash_of d slots).1))
            (Perm.cons x p)

  place_all-perm :
      (ds : List Text) (slots : Slots hash_of)
      → let r = place_all hash_of ds slots in
        Perm (r.0 ++ left_over hash_of r.1) (left_over hash_of slots)
  unfolding place_all
  place_all-perm [] slots = Perm.refl _
  place_all-perm (d ∷ ds) slots =
      let r = place hash_of d slots in
      let q = place_all hash_of ds r.1 in
      Perm.trans
        (subst (λ l. Perm ((r.0 ++ q.0) ++ left_over hash_of q.1) l)
          (append_assoc r.0 q.0 (left_over hash_of q.1)) (Perm.refl _))
        (Perm.trans (Perm.append_left r.0 (place_all-perm ds r.1)) (place-perm d slots))

  left_over-unplaced : (items : List A) → left_over hash_of (unplaced hash_of items) ≡ items
  unfolding left_over unplaced
  left_over-unplaced [] = refl
  left_over-unplaced (x ∷ xs) = ap (◌∷◌ x) (left_over-unplaced xs)

  -- `PermuteByDigests` returns the items that it is given, each as often, for every order of digests.
  pub permute_by_digests-perm :
      (ds : List Text) (items : List A) → Perm (permute_by_digests hash_of ds items) items
  unfolding permute_by_digests
  permute_by_digests-perm [] items = Perm.refl items
  permute_by_digests-perm (d ∷ ds) items = elim (Bool-cases (leb (length items) 1)) [
    | inl e ↦ rw e (Perm.refl items)
    | inr e ↦ rw e (
        subst (Perm _) (left_over-unplaced items)
          (place_all-perm (d ∷ ds) (unplaced hash_of items)))
  ]

reordered-perm :
    (a : DagAnswer) (txs txs' : List Transaction) → reordered a txs ≡ some txs' → Perm txs' txs
unfolding reordered
reordered-perm dag_failed txs txs' e = cc (e)
reordered-perm (dag_ordered ds) txs txs' e =
    subst (λ l. Perm l txs) (some_inj e) (permute_by_digests-perm tx_hash ds txs)

same-perm : (txs txs' : List Transaction) → some txs ≡ some txs' → Perm txs' txs
same-perm txs txs' e = subst (λ l. Perm l txs) (some_inj e) (Perm.refl txs)

-- The transactions that `maybeDagReorder` hands to the Core ledger are those of the block, each as
-- often, whatever order the network or the ledger asks for.
pub maybe_dag_reorder-perm :
    {K : Type 0} (env : Env K) (core : Core K) (bc : Blockchain) (txs txs' : List Transaction)
    → (maybe_dag_reorder env core bc txs).0 ≡ some txs'
    → Perm txs' txs
unfolding maybe_dag_reorder
maybe_dag_reorder-perm env core bc txs txs' h =
    elim (Bool-cases (not env.dag_ordering || ltb (length txs) 2)) [
      | inl e ↦ same-perm txs txs' (rw e at h)
      | inr e ↦ elim (Bool-cases (any_faucet txs || ltb (length (digests_of txs)) 2)) [
        | inl f ↦ same-perm txs txs' (rw (e, f) at h)
        | inr f ↦
            elim (Bool-cases
              (ltb 0 (digest_overlap_count bc.dag_commit_digests (digests_of txs)))) [
                | inl g ↦
                    let q = rw (e, f, g) at h in
                    subst (λ l. Perm l txs) (some_inj q)
                      (permute_by_digests-perm tx_hash bc.dag_commit_digests txs)
                | inr g ↦
                    reordered-perm (core.dag_order_digests (digests_of txs)) txs txs'
                      (rw (e, f, g) at h)
              ]
      ]
    ]
