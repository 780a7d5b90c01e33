-- ===== src/Chain/Once.antt =====
-- No transaction is confirmed twice: what every call on the blockchain of internal/blockchain keeps.
use mathlib.Core.List.{
  Perm, sublist-append_right, perm_append_comm, perm_append_singleton, append_assoc,
}
use mathlib.Core.List.Perm
use mathlib.Core.List.Sublist
use platarium_gateway_go.Common.{
  ◌≡◌, refl, sym, ◌∙◌, ap, subst, true, false, not, Option, List, [], ◌∷◌, ◌++◌, All, All-append,
  keep_if, take, drop, length, Bool-cases, inl, inr, ◌⊎◌,
}
use platarium_gateway_go.Common.Int.{ℤ}
use platarium_gateway_go.Common.Text.{Text, text_eq, text_beq}
use platarium_gateway_go.Deals.Sets.{contains, Distinct}
use platarium_gateway_go.Chain.Types.{Transaction, BlockRecord, Blockchain}
use platarium_gateway_go.Chain.Mempool.{
  add_to_mempool, admitted, search_for, Found, nothing, known, nonce_taken, remove_from_mempool,
  hash_in,
}
use platarium_gateway_go.Chain.Pending.{
  l1_collect_block_limit, collect_count, l1_collect_selected, picks, pick_from,
  abandon_pending_block, is_returned,
}
use platarium_gateway_go.Chain.Pool.{
  Compatible, Waiting, Waiting-sublist, Waiting-perm, Waiting-cons, keep_if-sublist,
  search_for-nothing, pick_from-perm, take-drop_perm,
}

-- The hashes of all blocks of a history.
abbrev pub all_hashes : List BlockRecord → List Text
all_hashes [] = []
all_hashes (b ∷ bs) = b.tx_hashes ++ all_hashes bs

abbrev pub in_flight : Blockchain → List Transaction
in_flight bc = bc.pending_block ++ bc.mempool

-- What waits may wait together and is not confirmed; no hash stands twice in the blocks; and a hash
-- in a block is marked as confirmed.
pub record ChainInv (bc : Blockchain) : Type 0 where
  pub waiting : Waiting bc.confirmed_hashes (in_flight bc)
  pub once : Distinct (all_hashes bc.block_history)
  pub marked :
      (h : Text)
      → contains h (all_hashes bc.block_history) ≡ true
      → contains h bc.confirmed_hashes ≡ true

-- A call that changes neither the blocks nor the confirmed hashes.
abbrev with_pool : List Transaction → List Transaction → Blockchain → Blockchain
with_pool pending pool bc = record bc { pending_block = pending; mempool = pool }

pub same_blocks :
    {bc bc' : Blockchain}
    → bc'.confirmed_hashes ≡ bc.confirmed_hashes
    → bc'.block_history ≡ bc.block_history
    → ChainInv bc
    → Waiting bc.confirmed_hashes (in_flight bc')
    → ChainInv bc'
same_blocks {bc} {bc'} c b v w = record {
  waiting = subst (λ hs. Waiting hs (in_flight bc')) (sym c) w;
  once = subst (λ bs. Distinct (all_hashes bs)) (sym b) v.once;
  marked = λ h m.
      subst (λ hs. contains h hs ≡ true) (sym c)
        (v.marked h (subst (λ bs. contains h (all_hashes bs) ≡ true) b m));
}

abbrev with_tx : Transaction → Blockchain → Blockchain
with_tx tx bc = record bc { mempool = bc.mempool ++ (tx ∷ []) }

admitted-cases :
    (p m : Found) (tx : Transaction) (bc : Blockchain)
    → search_for tx bc.pending_block ≡ p
    → search_for tx bc.mempool ≡ m
    → ((admitted p m tx bc).0 ≡ bc)
      ⊎ (((admitted p m tx bc).0 ≡ with_tx tx bc) × All (Compatible tx) (in_flight bc))
unfolding admitted
admitted-cases known m tx bc e f = inl refl
admitted-cases nonce_taken m tx bc e f = inl refl
admitted-cases nothing known tx bc e f = inl refl
admitted-cases nothing nonce_taken tx bc e f = inl refl
admitted-cases nothing nothing tx bc e f = inr (
  refl,
  All-append (Compatible tx) bc.pending_block bc.mempool (search_for-nothing tx bc.pending_block e)
      (search_for-nothing tx bc.mempool f),
)

add_to_mempool-admitted :
    (tx : Transaction) (bc : Blockchain)
    → text_beq tx.hash [] ≡ false
    → contains tx.hash bc.confirmed_hashes ≡ false
    → add_to_mempool tx bc
      ≡ admitted (search_for tx bc.pending_block) (search_for tx bc.mempool) tx bc
unfolding add_to_mempool
add_to_mempool-admitted tx bc e f = simp (e, f)

add_to_mempool-cases :
    (tx : Transaction) (bc : Blockchain)
    → ((add_to_mempool tx bc).0 ≡ bc)
      ⊎ (((add_to_mempool tx bc).0 ≡ with_tx tx bc)
          × (text_beq tx.hash [] ≡ false)
          × (contains tx.hash bc.confirmed_hashes ≡ false)
          × All (Compatible tx) (in_flight bc))
unfolding add_to_mempool
add_to_mempool-cases tx bc = elim (Bool-cases (text_beq tx.hash [])) [
  | inl e ↦ inl (simp (e))
  | inr e ↦ elim (Bool-cases (contains tx.hash bc.confirmed_hashes)) [
    | inl f ↦ inl (simp (e, f))
    | inr f ↦
        let open_up = ap (λ t. t.0) (add_to_mempool-admitted tx bc e f) in
        elim (admitted-cases (search_for tx bc.pending_block) (search_for tx bc.mempool) tx bc refl
          refl) [ inl g ↦ inl (open_up ∙ g) | inr (g, h) ↦ inr (open_up ∙ g, e, f, h) ]
  ]
]

pub submit-Waiting :
    (tx : Transaction) (bc : Blockchain) → ChainInv bc → ChainInv (add_to_mempool tx bc).0
submit-Waiting tx bc v = elim (add_to_mempool-cases tx bc) [
  | inl e ↦ subst ChainInv (sym e) v
  | inr (e, named, fresh, apart) ↦ subst ChainInv (sym e) (
      same_blocks refl refl v (
        Waiting-perm bc.confirmed_hashes (tx ∷ in_flight bc) (in_flight (with_tx tx bc))
          (Perm.symm (
            subst (λ l. Perm l (tx ∷ in_flight bc))
              (append_assoc bc.pending_block bc.mempool (tx ∷ []))
              (perm_append_singleton tx (in_flight bc))))
          (Waiting-cons bc.confirmed_hashes tx (in_flight bc) apart fresh named v.waiting)))
]

pub forget-Waiting :
    (hashes : List Text) (bc : Blockchain) → ChainInv bc → ChainInv (remove_from_mempool hashes bc)
unfolding remove_from_mempool
forget-Waiting [] bc v = v
forget-Waiting (h ∷ hs) bc v = same_blocks refl refl v (
    Waiting-sublist bc.confirmed_hashes _ (in_flight bc)
      (Sublist.append (Sublist.refl bc.pending_block)
        (keep_if-sublist (λ tx. not (hash_in (h ∷ hs) tx)) bc.mempool))
      v.waiting)

-- A new division of the mempool into a pending block and a mempool.
divide-Waiting :
    (moved left : List Transaction) (bc : Blockchain)
    → Perm (moved ++ left) bc.mempool
    → ChainInv bc
    → Waiting bc.confirmed_hashes (moved ++ left)
divide-Waiting moved left bc p v =
    Waiting-perm bc.confirmed_hashes bc.mempool (moved ++ left) (Perm.symm p) (
      Waiting-sublist bc.confirmed_hashes bc.mempool (in_flight bc)
        (sublist-append_right bc.pending_block bc.mempool) v.waiting)

pub collect-Waiting :
    (limit : ℤ) (bc : Blockchain) → ChainInv bc → ChainInv (l1_collect_block_limit limit bc).0
unfolding l1_collect_block_limit
collect-Waiting limit bc v =
    let n = collect_count limit (length bc.mempool) in
    same_blocks refl refl v
      (divide-Waiting (take n bc.mempool) (drop n bc.mempool) bc (take-drop_perm n bc.mempool) v)

pub collect_selected-Waiting :
    (txs : List (Option Transaction)) (bc : Blockchain)
    → ChainInv bc
    → ChainInv (l1_collect_selected txs bc).0
unfolding l1_collect_selected
collect_selected-Waiting [] bc v = v
collect_selected-Waiting (tx ∷ txs) bc v =
    let split = pick_from (picks (tx ∷ txs)) bc.mempool in
    same_blocks refl refl v
      (divide-Waiting split.0 split.1 bc (pick_from-perm (picks (tx ∷ txs)) bc.mempool) v)

pub abandon-Waiting :
    (drop : List Text) (bc : Blockchain) → ChainInv bc → ChainInv (abandon_pending_block drop bc).0
unfolding abandon_pending_block
abandon-Waiting drop bc v =
    let returned = keep_if (is_returned drop) bc.pending_block in
    same_blocks refl refl v (
      Waiting-perm bc.confirmed_hashes (returned ++ bc.mempool) (bc.mempool ++ returned)
        (perm_append_comm returned bc.mempool)
        (Waiting-sublist bc.confirmed_hashes (returned ++ bc.mempool) (in_flight bc)
          (Sublist.append (keep_if-sublist (is_returned drop) bc.pending_block)
            (Sublist.refl bc.mempool))
          v.waiting))
