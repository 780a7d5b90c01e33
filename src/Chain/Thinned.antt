-- ===== src/Chain/Thinned.antt =====
-- `PruneMempool` of internal/blockchain/mempool_prune.go only takes transactions out of a mempool whose
-- transactions may wait together, since it then finds no two of one sender and nonce.
use mathlib.Core.List.{mem-cons_self, Sublist, Pairwise, append_assoc, sublist-append_left}
use mathlib.Core.List.Pairwise
use mathlib.Core.List.Sublist
use platarium_gateway_go.Common.{
  ℕ, zero, suc, ◌+◌, ◌-◌, ◌≡◌, refl, sym, subst, Bool, false, not, ◌||◌, ◌&&◌, List, [], ◌∷◌, ◌++◌,
  length, All, arith, Bool-cases, inl, inr,
}
use platarium_gateway_go.Common.Int.{ℤ}
use platarium_gateway_go.Common.Text.{Text, text_eq, text_beq}
use platarium_gateway_go.Common.Dict.{Dict}
use platarium_gateway_go.Chain.Types.{Transaction, Blockchain}
use platarium_gateway_go.Chain.Mempool.{same_slot}
use platarium_gateway_go.Chain.Prune.{
  is_stale, any_slot, keep_each, drop_unpackable, settled_hashes, with_kept, prune_mempool,
}
use platarium_gateway_go.Chain.Pool.{clash, Compatible, Waiting-sublist, keep_if-sublist}
use platarium_gateway_go.Chain.Members.{every}
use platarium_gateway_go.Chain.Once.{ChainInv, in_flight, same_blocks}
use platarium_gateway_go.Chain.Settled.{Compatible-prop, apart_of}

Compatible-slot : (k tx : Transaction) → Compatible k tx → same_slot k tx ≡ false
unfolding clash
Compatible-slot k tx c = second (text_beq k.hash tx.hash) (same_slot k tx) c
  where
    second : (a b : Bool) → (a || b) ≡ false → b ≡ false
    second a b e = ground arith

any_slot-apart :
    (tx : Transaction) (kept : List Transaction)
    → All (λ k. Compatible k tx) kept
    → any_slot tx kept ≡ false
unfolding any_slot
any_slot-apart tx [] h = refl
any_slot-apart tx (k ∷ ks) h = rw (Compatible-slot k tx h.0) (any_slot-apart tx ks h.1)

module _ (confirmed : List Text) (nonces : Dict ℕ) where
  keep_each-sublist :
      (txs kept : List Transaction)
      → Pairwise Compatible (kept ++ txs)
      → Sublist (keep_each confirmed nonces txs kept).0 (kept ++ txs)
  unfolding keep_each
  keep_each-sublist [] kept p = sublist-append_left kept []
  keep_each-sublist (tx ∷ txs) kept p = elim (Bool-cases (is_stale confirmed nonces tx)) [
    | inl e ↦ rw e (
        Sublist.trans (keep_each-sublist txs kept (Pairwise.sublist Compatible-prop without p))
          without)
    | inr e ↦
        rw (e, unslotted (not (text_beq tx.sender [])) (any_slot-apart tx kept crossing))
          (subst (Sublist (keep_each confirmed nonces txs (kept ++ (tx ∷ []))).0) shifted (
            keep_each-sublist txs (kept ++ (tx ∷ []))
              (subst (Pairwise Compatible) (sym shifted) p)))
  ]
    where
      without : Sublist (kept ++ txs) (kept ++ (tx ∷ txs))
      without = Sublist.append (Sublist.refl kept) (Sublist.cons tx (Sublist.refl txs))

      shifted : (kept ++ (tx ∷ [])) ++ txs ≡ kept ++ (tx ∷ txs)
      shifted = append_assoc kept (tx ∷ []) txs

      crossing : All (λ k. Compatible k tx) kept
      crossing = every kept λ k m. (apart_of kept (tx ∷ txs) p).2 k m tx mem-cons_self

      unslotted : (a : Bool) {b : Bool} → b ≡ false → (a && b) ≡ false
      unslotted a e = ground (arith, e)

drop_unpackable-sublist :
    (now : ℤ) (nonces : Dict ℕ) (kept : List Transaction)
    → Sublist (drop_unpackable now nonces kept) kept
unfolding drop_unpackable
drop_unpackable-sublist now [] kept = Sublist.refl kept
drop_unpackable-sublist now (e ∷ nonces) kept = keep_if-sublist _ kept

pub prune-Waiting :
    (now : ℤ) (nonces : Dict ℕ) (rocks_confirmed : List Text) (bc : Blockchain)
    → ChainInv bc
    → ChainInv (prune_mempool now nonces rocks_confirmed bc).0
unfolding prune_mempool
prune-Waiting now nonces rocks_confirmed bc v = thinned (looped.1 + (length looped.0 - length kept))
  where
    looped : List Transaction × ℕ
    looped = keep_each (settled_hashes rocks_confirmed bc) nonces bc.mempool []

    kept : List Transaction
    kept = drop_unpackable now nonces looped.0

    fewer : Sublist kept bc.mempool
    fewer = Sublist.trans (drop_unpackable-sublist now nonces looped.0) (
        keep_each-sublist (settled_hashes rocks_confirmed bc) nonces bc.mempool []
          (apart_of bc.pending_block bc.mempool v.waiting.apart).1)

    thinned : (n : ℕ) → ChainInv (with_kept n kept bc)
    thinned zero = v
    thinned (suc n) = same_blocks refl refl v (
        Waiting-sublist bc.confirmed_hashes (bc.pending_block ++ kept) (in_flight bc)
          (Sublist.append (Sublist.refl bc.pending_block) fewer) v.waiting)
