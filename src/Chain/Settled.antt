-- ===== src/Chain/Settled.antt =====
-- A confirmation of internal/blockchain, and its undoing, keep the invariant of Chain/Once.
use mathlib.Core.List.{
  Mem, mem-cons_self, Pairwise, Pairwise-append, rel_of_Pairwise-cons, append-nil, append_assoc,
  sublist-append_left, sublist-append_right,
}
use mathlib.Core.List.Sublist
use platarium_gateway_go.Common.{
  ◌≡◌, refl, sym, ◌∙◌, ap, subst, Bool, true, false, ◌&&◌, ◌||◌, not, List, [], ◌∷◌, ◌++◌, All,
  arith, Bool-cases, inl, inr,
}
use platarium_gateway_go.Common.Int.{ℤ, pos}
use platarium_gateway_go.Common.Text.{Text, text_beq, text_beq_iff}
use platarium_gateway_go.Deals.Sets.{contains, Distinct}
use platarium_gateway_go.Chain.Types.{Transaction, BlockRecord, Blockchain}
use platarium_gateway_go.Chain.Pending.{hashes_of}
use platarium_gateway_go.Chain.Blocks.{numbered}
use platarium_gateway_go.Chain.Outcome.{Extended, Undone}
use platarium_gateway_go.Chain.Pool.{
  clash, clash-sym, Compatible, Waiting, Waiting-sublist, Waiting-cons,
}
use platarium_gateway_go.Chain.Members.{
  every, hashes_of-apart, hashes_of-Distinct, contains-append, append-Distinct,
}
use platarium_gateway_go.Chain.Once.{all_hashes, in_flight, ChainInv}

pub Compatible-prop : (x y : Transaction) → IsProp (Compatible x y)
Compatible-prop x y = hlevel

pub apart_of :
    (xs ys : List Transaction)
    → Pairwise Compatible (xs ++ ys)
    → Pairwise Compatible xs
      × Pairwise Compatible ys
      × ((a : Transaction) → Mem a xs → (b : Transaction) → Mem b ys → Compatible a b)
apart_of xs ys p = (Pairwise-append Compatible-prop).0 p

in_pending : (bc : Blockchain) (t : Transaction) → Mem t bc.pending_block → Mem t (in_flight bc)
in_pending bc t m = Sublist.subset (sublist-append_left bc.pending_block bc.mempool) t m

pub in_mempool : (bc : Blockchain) (t : Transaction) → Mem t bc.mempool → Mem t (in_flight bc)
in_mempool bc t m = Sublist.subset (sublist-append_right bc.pending_block bc.mempool) t m

-- No hash of the pending block is confirmed.
pending-fresh :
    (bc : Blockchain) (h : Text)
    → ChainInv bc
    → contains h bc.confirmed_hashes ≡ true
    → contains h (hashes_of bc.pending_block) ≡ false
unfolding contains
pending-fresh bc h v c =
    none_of bc.pending_block (every bc.pending_block λ t m. v.waiting.fresh t (in_pending bc t m))
  where
    none_of :
        (xs : List Transaction)
        → All (λ t. contains t.hash bc.confirmed_hashes ≡ false) xs
        → contains h (hashes_of xs) ≡ false
    none_of [] a = refl
    none_of (x ∷ xs) a = elim (Bool-cases (text_beq x.hash h)) [
      | inl e ↦
          let f =
            subst (λ k. contains k bc.confirmed_hashes ≡ false) ((text_beq_iff x.hash h).0 e) a.0 in
          cc (f, c)
      | inr e ↦ rw e (none_of xs a.1)
    ]

-- A hash of the mempool is not one of the pending block.
mempool-apart :
    (bc : Blockchain) (t : Transaction)
    → ChainInv bc
    → Mem t bc.mempool
    → contains t.hash (hashes_of bc.pending_block) ≡ false
mempool-apart bc t v m =
    let (p, q, cross) = apart_of bc.pending_block bc.mempool v.waiting.apart in
    hashes_of-apart t bc.pending_block (every bc.pending_block λ x n. swap x (cross x n t m))
  where
    swap : (x : Transaction) → Compatible x t → Compatible t x
    swap x h = sym (clash-sym x t) ∙ h

confirmed-Waiting :
    (bc bc' : Blockchain) (block : BlockRecord)
    → Extended bc bc' block
    → ChainInv bc
    → Waiting bc'.confirmed_hashes bc.mempool
confirmed-Waiting bc bc' block x v = record {
  apart = (apart_of bc.pending_block bc.mempool v.waiting.apart).1;
  fresh = λ t m.
      x.marked t.hash ∙ both (mempool-apart bc t v m) (v.waiting.fresh t (in_mempool bc t m));
  named = λ t m. v.waiting.named t (in_mempool bc t m);
}
  where
    both : {a b : Bool} → a ≡ false → b ≡ false → (a || b) ≡ false
    both e f = rw (e, f) refl

all_hashes-append :
    (bs : List BlockRecord) (block : BlockRecord)
    → all_hashes (bs ++ (block ∷ [])) ≡ all_hashes bs ++ block.tx_hashes
all_hashes-append [] block = append-nil block.tx_hashes
all_hashes-append (b ∷ bs) block =
    ap (λ t. b.tx_hashes ++ t) (all_hashes-append bs block)
    ∙ sym (append_assoc b.tx_hashes (all_hashes bs) block.tx_hashes)

all_hashes-history :
    (bc bc' : Blockchain) (block : BlockRecord)
    → Extended bc bc' block
    → all_hashes bc'.block_history ≡ all_hashes bc.block_history ++ hashes_of bc.pending_block
all_hashes-history bc bc' block x =
    ap all_hashes x.block_history
    ∙ (all_hashes-append bc.block_history block
        ∙ ap (λ t. all_hashes bc.block_history ++ t) x.tx_hashes)

pub confirmed-Extended :
    (bc bc' : Blockchain) (block : BlockRecord) → Extended bc bc' block → ChainInv bc → ChainInv bc'
confirmed-Extended bc bc' block x v = record {
  waiting =
      subst (λ l. Waiting bc'.confirmed_hashes l)
        (sym (ap (λ l. l ++ bc'.mempool) x.pending_block ∙ x.mempool))
        (confirmed-Waiting bc bc' block x v);
  once = subst Distinct (sym (all_hashes-history bc bc' block x)) (
      append-Distinct (all_hashes bc.block_history) (hashes_of bc.pending_block) v.once
        (hashes_of-Distinct bc.pending_block
          (apart_of bc.pending_block bc.mempool v.waiting.apart).0)
        λ h m. pending-fresh bc h v (v.marked h m));
  marked = λ h m.
      let n = ap (contains h) (sym (all_hashes-history bc bc' block x)) ∙ m in
      let o =
        sym (contains-append h (all_hashes bc.block_history) (hashes_of bc.pending_block)) ∙ n in
      x.marked h
      ∙ either (contains h (all_hashes bc.block_history)) (contains h (hashes_of bc.pending_block))
          (contains h bc.confirmed_hashes) o (v.marked h);
}
  where
    either : (a b c : Bool) → (a || b) ≡ true → (a ≡ true → c ≡ true) → (b || c) ≡ true
    either true b c o f = rw (f refl) (ground arith)
    either false b c o f = rw o refl

-- A block number takes no part in what may wait.
relabelled :
    (n : ℤ) (x : Transaction) (xs ys : List Transaction)
    → All (Compatible x) (xs ++ ys)
    → All (Compatible (record x { block_number = n })) (numbered n xs ++ ys)
unfolding clash
relabelled n x [] [] h = tt
relabelled n x [] (y ∷ ys) h = (h.0, relabelled n x [] ys h.1)
relabelled n x (y ∷ xs) ys h = (h.0, relabelled n x xs ys h.1)

numbered-Waiting :
    (n : ℤ) (confirmed : List Text) (xs ys : List Transaction)
    → Waiting confirmed (xs ++ ys)
    → Waiting confirmed (numbered n xs ++ ys)
numbered-Waiting n confirmed [] ys w = w
numbered-Waiting n confirmed (x ∷ xs) ys w =
    let rest =
      Waiting-sublist confirmed (xs ++ ys) (x ∷ (xs ++ ys))
        (Sublist.cons x (Sublist.refl (xs ++ ys))) w in
    Waiting-cons confirmed (record x { block_number = n }) (numbered n xs ++ ys)
      (relabelled n x xs ys (every (xs ++ ys) λ t m. rel_of_Pairwise-cons w.apart m))
      (w.fresh x mem-cons_self) (w.named x mem-cons_self) (numbered-Waiting n confirmed xs ys rest)

requeue-Waiting :
    (bc bc' : Blockchain)
    → Undone bc bc'
    → ChainInv bc
    → Waiting bc'.confirmed_hashes (in_flight bc)
requeue-Waiting bc bc' u v = record {
  apart = v.waiting.apart;
  fresh = λ t m.
      u.unmarked t.hash ∙ gone (contains t.hash (hashes_of bc.pending_block)) (v.waiting.fresh t m);
  named = v.waiting.named;
}
  where
    gone : {a : Bool} (b : Bool) → a ≡ false → (a && not b) ≡ false
    gone b e = rw e refl

pub requeue-ChainInv : (bc bc' : Blockchain) → Undone bc bc' → ChainInv bc → ChainInv bc'
requeue-ChainInv bc bc' u v = record {
  waiting =
      subst (Waiting bc'.confirmed_hashes)
        (sym (
          ap (λ l. l ++ bc'.mempool) u.pending_block
          ∙ ap (λ l. numbered (pos 0) bc.pending_block ++ l) u.mempool))
        (numbered-Waiting (pos 0) bc'.confirmed_hashes bc.pending_block bc.mempool
          (requeue-Waiting bc bc' u v));
  once = subst (λ bs. Distinct (all_hashes bs)) (sym u.block_history) v.once;
  marked = λ h m.
      let c = v.marked h (ap (λ bs. contains h (all_hashes bs)) (sym u.block_history) ∙ m) in
      u.unmarked h ∙ stays c (pending-fresh bc h v c);
}
  where
    stays : {a b : Bool} → a ≡ true → b ≡ false → (a && not b) ≡ true
    stays e f = rw (e, f) refl
