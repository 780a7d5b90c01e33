-- ===== src/Chain/Pruned.antt =====
-- What `PruneMempool` of internal/blockchain/mempool_prune.go leaves in the mempool.
use platarium_gateway_go.Common.{
  ℕ, zero, suc, ◌+◌, ◌-◌, ◌≤◌, ◌≡◌, ◌≢◌, true, Option, none, some, ◌||◌, ◌==◌, refl, sym, ◌∙◌, ap,
  subst, Bool, false, ◌&&◌, not, List, [], ◌∷◌, ◌++◌, length, length-append, length-keep_if-le, All,
  All-append, keep_if, arith, Bool-cases, inl, inr,
}
use mathlib.Core.List.{Mem, append_assoc, append-nil}
use platarium_gateway_go.Common.Int.{ℤ, int_eq, ltb_ℤ, wrap64}
use platarium_gateway_go.Common.Text.{Text, text, text_eq, text_beq, text_beq_iff, text_beq-ne}
use platarium_gateway_go.Common.Dict.{Dict, lookup}
use platarium_gateway_go.Chain.Types.{Transaction, BlockRecord, Blockchain}
use platarium_gateway_go.Deals.Sets.{contains}
use platarium_gateway_go.Chain.Ledger.{faucet_address}
use platarium_gateway_go.Chain.Pool.{All-member}
use platarium_gateway_go.Chain.Members.{All-imp, contains-append, contains-hashes_of}
use platarium_gateway_go.Chain.Pending.{hashes_of}
use platarium_gateway_go.Chain.Mempool.{same_slot}
use platarium_gateway_go.Chain.Prune.{
  block_hashes, wanted, is_behind, is_stale, any_slot, is_earlier, replace_slot, keep_each,
  drop_unpackable, settled_hashes, with_kept, prune_mempool,
}

module _ (confirmed : List Text) (nonces : Dict ℕ) where
  -- The loop has no reason to remove the transaction.
  abbrev pub Clean : Transaction → Type 0
  Clean tx = is_stale confirmed nonces tx ≡ false

  replace_slot-Clean :
      (tx : Transaction) (kept : List Transaction)
      → Clean tx
      → All Clean kept
      → All Clean (replace_slot tx kept)
  unfolding replace_slot
  replace_slot-Clean tx [] c h = tt
  replace_slot-Clean tx (k ∷ ks) c h = elim (Bool-cases (same_slot k tx)) [
    | inl e ↦ elim (Bool-cases (is_earlier tx k)) [
      | inl f ↦ rw (e, f) (c, h.1)
      | inr f ↦ rw (e, f) h
    ]
    | inr e ↦ rw e (h.0, replace_slot-Clean tx ks c h.1)
  ]

  length-replace_slot :
      (tx : Transaction) (kept : List Transaction) → length (replace_slot tx kept) ≡ length kept
  unfolding replace_slot
  length-replace_slot tx [] = refl
  length-replace_slot tx (k ∷ ks) = elim (Bool-cases (same_slot k tx)) [
    | inl e ↦ elim (Bool-cases (is_earlier tx k)) [
      | inl f ↦ rw (e, f) refl
      | inr f ↦ rw (e, f) refl
    ]
    | inr e ↦ rw e (ap suc (length-replace_slot tx ks))
  ]

  -- The loop keeps clean transactions only, and counts the others; where it counts none, it keeps all.
  record Kept (txs kept : List Transaction) (r : List Transaction × ℕ) : Type 0 where
    clean : All Clean kept → All Clean r.0
    counted : length r.0 + r.1 ≡ length kept + length txs
    all : r.1 ≡ 0 → r.0 ≡ kept ++ txs

  keep_each-Kept :
      (txs kept : List Transaction) → Kept txs kept (keep_each confirmed nonces txs kept)
  unfolding keep_each
  keep_each-Kept [] kept = record {
    clean = λ h. h;
    counted = omega arith;
    all = λ z. sym (append-nil kept);
  }
  keep_each-Kept (tx ∷ txs) kept = elim (Bool-cases (is_stale confirmed nonces tx)) [
    | inl e ↦
        let v = keep_each-Kept txs kept in
        rw e (record {
          clean = v.clean;
          counted = omega (arith, v.counted);
          all = λ z. absurd (omega (arith, z));
        })
    | inr e ↦ elim (Bool-cases (not (text_beq tx.sender []) && any_slot tx kept)) [
      | inl f ↦
          let v = keep_each-Kept txs (replace_slot tx kept) in
          rw (e, f)
            (record {
              clean = λ h. v.clean (replace_slot-Clean tx kept e h);
              counted = omega (arith, v.counted, length-replace_slot tx kept);
              all = λ z. absurd (omega (arith, z));
            })
      | inr f ↦
          let v = keep_each-Kept txs (kept ++ (tx ∷ [])) in
          rw (e, f)
            (record {
              clean = λ h. v.clean (All-append Clean kept (tx ∷ []) h (e, tt));
              counted = omega (arith, v.counted, length-append kept (tx ∷ []));
              all = λ z. v.all z ∙ append_assoc kept (tx ∷ []) txs;
            })
    ]
  ]

All-keep_if :
    (P : Transaction → Type 0) (p : Transaction → Bool) (xs : List Transaction)
    → All P xs
    → All P (keep_if p xs)
unfolding keep_if
All-keep_if P p [] h = tt
All-keep_if P p (x ∷ xs) h = elim (Bool-cases (p x)) [
  | inl e ↦ rw e (h.0, All-keep_if P p xs h.1)
  | inr e ↦ rw e (All-keep_if P p xs h.1)
]

drop_unpackable-All :
    (P : Transaction → Type 0) (now : ℤ) (nonces : Dict ℕ) (kept : List Transaction)
    → All P kept
    → All P (drop_unpackable now nonces kept)
unfolding drop_unpackable
drop_unpackable-All P now [] kept h = h
drop_unpackable-All P now (e ∷ nonces) kept h = All-keep_if P _ kept h

length-drop_unpackable-le :
    (now : ℤ) (nonces : Dict ℕ) (kept : List Transaction)
    → length (drop_unpackable now nonces kept) ≤ length kept
unfolding drop_unpackable
length-drop_unpackable-le now [] kept = omega arith
length-drop_unpackable-le now (e ∷ nonces) kept = length-keep_if-le _ kept

-- The loop's own reasons are gone, and the count is right.
prune_mempool-Clean :
    (now : ℤ) (nonces : Dict ℕ) (rocks_confirmed : List Text) (bc : Blockchain)
    → let r = prune_mempool now nonces rocks_confirmed bc in
      All (λ tx. is_stale (settled_hashes rocks_confirmed bc) nonces tx ≡ false) r.0.mempool
      × (length r.0.mempool + r.1 ≡ length bc.mempool)
unfolding prune_mempool
prune_mempool-Clean now nonces rocks_confirmed bc =
    result (looped.1 + (length looped.0 - length kept)) refl
  where
    confirmed : List Text
    confirmed = settled_hashes rocks_confirmed bc

    looped : List Transaction × ℕ
    looped = keep_each confirmed nonces bc.mempool []

    kept : List Transaction
    kept = drop_unpackable now nonces looped.0

    known : Kept confirmed nonces bc.mempool [] looped
    known = keep_each-Kept confirmed nonces bc.mempool []

    fewer : length kept ≤ length looped.0
    fewer = length-drop_unpackable-le now nonces looped.0

    result :
        (n : ℕ)
        → n ≡ looped.1 + (length looped.0 - length kept)
        → All (Clean confirmed nonces) (with_kept n kept bc).mempool
          × (length (with_kept n kept bc).mempool + n ≡ length bc.mempool)
    result zero e =
        let none : looped.1 ≡ 0 = omega (arith, e) in
        (subst (All (Clean confirmed nonces)) (known.all none) (known.clean tt), omega arith)
    result (suc n) e = (
      drop_unpackable-All (Clean confirmed nonces) now nonces looped.0 (known.clean tt),
      omega (arith, e, known.counted, fewer),
    )

or-false : (a b : Bool) → (a || b) ≡ false → (a ≡ false) × (b ≡ false)
or-false a b e = ground arith

-- The transaction may stay: it has a hash, it is not from the faucet, no block has its hash, RocksDB does
-- not confirm it, it is not pending, and its nonce is not behind its sender's account, where the ledger
-- answered for a sender that is not empty.
pub record IsCurrent (nonces : Dict ℕ) (rocks_confirmed : List Text) (bc : Blockchain)
    (tx : Transaction) : Type 0 where
  pub named : tx.hash ≢ []
  pub not_faucet : (tx.sender ≢ faucet_address) × (tx.kind ≢ text "faucet")
  pub not_in_block :
      (b : BlockRecord) → Mem b bc.block_history → contains tx.hash b.tx_hashes ≡ false
  pub not_confirmed : contains tx.hash rocks_confirmed ≡ false
  pub not_pending : (t : Transaction) → Mem t bc.pending_block → t.hash ≢ tx.hash
  pub not_behind :
      (n : ℕ)
      → tx.sender ≢ []
      → lookup tx.sender nonces ≡ some n
      → ltb_ℤ tx.nonce (wrap64 n 0) ≡ false

contains-not_empty :
    (h : Text) (hs : List Text)
    → h ≢ []
    → contains h (keep_if (λ k. not (k == [])) hs) ≡ contains h hs
unfolding contains keep_if
contains-not_empty h [] n = refl
contains-not_empty h (k ∷ hs) n = elim (Bool-cases (text_beq k [])) [
  | inl e ↦ rw (e, empty_other k e) (contains-not_empty h hs n)
  | inr e ↦ rw (e, contains-not_empty h hs n) refl
]
  where
    empty_other : (k : Text) → text_beq k [] ≡ true → text_beq k h ≡ false
    empty_other k e = elim (Bool-cases (text_beq k h)) [
      | inl f ↦ absurd (n (sym ((text_beq_iff k h).0 f) ∙ (text_beq_iff k []).0 e))
      | inr f ↦ f
    ]

-- A hash that is none of the blocks' is in no block.
not_in-blocks :
    (h : Text) (bs : List BlockRecord)
    → h ≢ []
    → contains h (block_hashes bs) ≡ false
    → All (λ b. contains h b.tx_hashes ≡ false) bs
unfolding block_hashes
not_in-blocks h [] n e = tt
not_in-blocks h (b ∷ bs) n e =
    let own = keep_if (λ k. not (k == [])) b.tx_hashes in
    let (p, q) =
      or-false (contains h own) (contains h (block_hashes bs))
        (sym (contains-append h own (block_hashes bs)) ∙ e) in
    (sym (contains-not_empty h b.tx_hashes n) ∙ p, not_in-blocks h bs n q)

-- The reasons of the loop, one by one.
reasons :
    (a b c d e f : Bool)
    → (a || ((b || c) || (d || (not e && f)))) ≡ false
    → (a ≡ false) × (b ≡ false) × (c ≡ false) × (d ≡ false) × (e ≡ false → f ≡ false)
reasons a b c d e f h = ground arith

Clean-IsCurrent :
    (nonces : Dict ℕ) (rocks_confirmed : List Text) (bc : Blockchain) (tx : Transaction)
    → Clean (settled_hashes rocks_confirmed bc) nonces tx
    → IsCurrent nonces rocks_confirmed bc tx
unfolding is_stale wanted
Clean-IsCurrent nonces rocks_confirmed bc tx c =
    let (named, sender, kind, settled, behind) =
      reasons (text_beq tx.hash []) (text_beq tx.sender faucet_address)
        (text_beq tx.kind (text "faucet")) (contains tx.hash (settled_hashes rocks_confirmed bc))
        (text_beq tx.sender []) (is_behind tx.nonce (wanted tx.sender nonces)) c in
    let has_hash = text_beq-ne tx.hash [] named in
    let (blocks, rest) =
      or-false (contains tx.hash (block_hashes bc.block_history)) _
        (sym (contains-append tx.hash (block_hashes bc.block_history) _) ∙ settled) in
    let (rocks, pending) =
      or-false (contains tx.hash rocks_confirmed) (contains tx.hash (hashes_of bc.pending_block))
        (sym (contains-append tx.hash rocks_confirmed (hashes_of bc.pending_block)) ∙ rest) in
    record {
      named = has_hash;
      not_faucet =
          (text_beq-ne tx.sender faucet_address sender, text_beq-ne tx.kind (text "faucet") kind);
      not_in_block =
          All-member (λ b. contains tx.hash b.tx_hashes ≡ false) (λ b. hlevel) bc.block_history
            (not_in-blocks tx.hash bc.block_history has_hash blocks);
      not_confirmed = rocks;
      not_pending = λ t m e. false-ne (
          sym pending
          ∙ subst (λ h. contains h (hashes_of bc.pending_block) ≡ true) e
              (contains-hashes_of bc.pending_block t m));
      not_behind = λ n s l.
          sym (ap (λ o. is_behind tx.nonce (answer o)) l) ∙ behind (not-beq tx.sender [] s);
    }
  where
    answer : Option ℕ → Option ℤ
    answer none = none
    answer (some n) = some (wrap64 n 0)

    false-ne : false ≡ true → ⊥
    false-ne e = cc (e)

    not-beq : (s t : Text) → s ≢ t → text_beq s t ≡ false
    not-beq s t n = ground (arith, text_beq_iff s t)

-- After `PruneMempool` every transaction of the mempool has a hash, is not from the faucet, is in no block
-- of the history, confirmed by RocksDB or pending, and is not behind its sender's account, where that
-- is named and the ledger answered; and the number returned is by how many the mempool is shorter.
pub prune_mempool-clean :
    (now : ℤ) (nonces : Dict ℕ) (rocks_confirmed : List Text) (bc : Blockchain)
    → let r = prune_mempool now nonces rocks_confirmed bc in
      All (IsCurrent nonces rocks_confirmed bc) r.0.mempool
      × (length r.0.mempool + r.1 ≡ length bc.mempool)
prune_mempool-clean now nonces rocks_confirmed bc =
    let (clean, counted) = prune_mempool-Clean now nonces rocks_confirmed bc in
    (
      All-imp (prune_mempool now nonces rocks_confirmed bc).0.mempool
          (Clean-IsCurrent nonces rocks_confirmed bc) clean,
      counted,
    )
