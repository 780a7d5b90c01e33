-- ===== src/Chain/Pool.antt =====
-- Lists of transactions that may wait together, and what takes elements out of them or reorders them
-- (internal/blockchain/blockchain.go and mempool_snapshot.go).
use mathlib.Core.List.{
  Mem, not-mem-nil, mem-cons_self, mem-cons_of_mem, Pairwise, Sublist, Perm, eq-or-mem_of_mem-cons,
  perm_middle,
}
use mathlib.Core.List.Perm
use mathlib.Core.List.Pairwise
use mathlib.Core.List.Sublist
use mathlib.Core.Logic.Or
use platarium_gateway_go.Common.{
  ℕ, ◌≡◌, sym, ◌∙◌, subst, Bool, false, ◌&&◌, ◌||◌, not, List, [], ◌∷◌, ◌++◌, keep_if, take, drop,
  ◌==◌, arith, Bool-cases, inl, inr, All, take-append-drop,
}
use platarium_gateway_go.Common.Int.{ℤ, int_eq, int_beq, int_beq_iff}
use platarium_gateway_go.Common.Text.{Text, text_eq, text_beq, text_beq_iff}
use platarium_gateway_go.Deals.Sets.{contains}
use platarium_gateway_go.Chain.Types.{Transaction}
use platarium_gateway_go.Chain.Mempool.{same_slot, search_for, nothing}
use platarium_gateway_go.Chain.Pending.{pick_from}

-- Two transactions that may not both wait: of one hash, or of one sender and nonce.
unfoldable pub clash : Transaction → Transaction → Bool
unfolding text_beq
clash x y = x.hash == y.hash || same_slot x y

abbrev pub Compatible : Transaction → Transaction → Type 0
Compatible x y = clash x y ≡ false

keys-sym :
    (h k s t : Text) (m n : ℤ)
    → (text_beq h k || (text_beq s t && int_beq m n))
      ≡ (text_beq k h || (text_beq t s && int_beq n m))
keys-sym h k s t m n = ground (
  arith,
  text_beq_iff h k,
  text_beq_iff k h,
  text_beq_iff s t,
  text_beq_iff t s,
  int_beq_iff m n,
  int_beq_iff n m,
)

pub clash-sym : (x y : Transaction) → clash x y ≡ clash y x
unfolding clash
clash-sym x y = keys-sym x.hash y.hash x.sender y.sender x.nonce y.nonce

Compatible-prop : (x y : Transaction) → IsProp (Compatible x y)
Compatible-prop x y = hlevel

Compatible-sym : (x y : Transaction) → Compatible x y → Compatible y x
Compatible-sym x y h = sym (clash-sym x y) ∙ h

pub keep_if-sublist {ℓ} : {A : Type ℓ} (p : A → Bool) (xs : List A) → Sublist (keep_if p xs) xs
unfolding keep_if
keep_if-sublist p [] = Sublist.refl []
keep_if-sublist p (x ∷ xs) = elim (Bool-cases (p x)) [
  | inl e ↦ rw e (Sublist.cons-cons x (keep_if-sublist p xs))
  | inr e ↦ rw e (Sublist.cons x (keep_if-sublist p xs))
]

-- What is known of every element is known of a member.
pub All-member {ℓ κ} :
    {A : Type ℓ} (P : A → Type κ)
    → ((a : A) → IsProp (P a))
    → (xs : List A) → All P xs
    → (a : A) → Mem a xs
    → P a
All-member P prop [] h a m = absurd (not-mem-nil m)
All-member P prop (x ∷ xs) h a m =
    Or.elim (prop a) (eq-or-mem_of_mem-cons m) (λ e. subst P (sym e) h.0)
      (λ n. All-member P prop xs h.1 a n)

-- The transactions of a list, none of which is confirmed or without a hash, may wait together.
pub record Waiting (confirmed : List Text) (txs : List Transaction) : Type 0 where
  pub apart : Pairwise Compatible txs
  pub fresh : (t : Transaction) → Mem t txs → contains t.hash confirmed ≡ false
  pub named : (t : Transaction) → Mem t txs → text_beq t.hash [] ≡ false

module _ (confirmed : List Text) where
  pub Waiting-sublist :
      (xs ys : List Transaction) → Sublist xs ys → Waiting confirmed ys → Waiting confirmed xs
  Waiting-sublist xs ys s w = record {
    apart = Pairwise.sublist Compatible-prop s w.apart;
    fresh = λ t m. w.fresh t (Sublist.subset s t m);
    named = λ t m. w.named t (Sublist.subset s t m);
  }

  pub Waiting-perm :
      (xs ys : List Transaction) → Perm xs ys → Waiting confirmed xs → Waiting confirmed ys
  Waiting-perm xs ys p w = record {
    apart = Perm.pairwise Compatible-prop Compatible-sym p w.apart;
    fresh = λ t m. w.fresh t ((Perm.mem_iff p).1 m);
    named = λ t m. w.named t ((Perm.mem_iff p).1 m);
  }

  pub Waiting-cons :
      (tx : Transaction) (txs : List Transaction)
      → All (Compatible tx) txs
      → contains tx.hash confirmed ≡ false
      → text_beq tx.hash [] ≡ false
      → Waiting confirmed txs
      → Waiting confirmed (tx ∷ txs)
  Waiting-cons tx txs h f n w = record {
    apart = Pairwise.cons (All-member (Compatible tx) (Compatible-prop tx) txs h) w.apart;
    fresh =
        All-member (λ t. contains t.hash confirmed ≡ false) (λ t. hlevel) (tx ∷ txs)
          (f, every w.fresh);
    named =
        All-member (λ t. text_beq t.hash [] ≡ false) (λ t. hlevel) (tx ∷ txs) (n, every w.named);
  }
    where
      every :
          {P : Transaction → Type 0} {xs : List Transaction}
          → ((t : Transaction) → Mem t xs → P t)
          → All P xs
      every {xs = []} h = tt
      every {xs = x ∷ xs} h = (h x mem-cons_self, every λ t m. h t (mem-cons_of_mem x m))

-- A search that finds nothing finds no clash.
pub search_for-nothing :
    (tx : Transaction) (txs : List Transaction)
    → search_for tx txs ≡ nothing
    → All (Compatible tx) txs
unfolding search_for clash
search_for-nothing tx [] h = tt
search_for-nothing tx (t ∷ ts) h = elim (Bool-cases (text_beq t.hash tx.hash)) [
  | inl e ↦ let q = rw e at h in cc (q)
  | inr e ↦ elim (Bool-cases (same_slot t tx)) [
    | inl f ↦ let q = rw (e, f) at h in cc (q)
    | inr f ↦
        let q = rw (e, f) at h in
        (Compatible-sym t tx (rw (clash, e, f)), search_for-nothing tx ts q)
  ]
]

pub pick_from-perm :
    (pick : List Text) (txs : List Transaction)
    → Perm ((pick_from pick txs).0 ++ (pick_from pick txs).1) txs
unfolding pick_from
pick_from-perm pick [] = Perm.refl []
pick_from-perm pick (tx ∷ txs) = elim (Bool-cases (contains tx.hash pick)) [
  | inl e ↦ rw e (Perm.cons tx (pick_from-perm (keep_if (λ h. not (text_beq h tx.hash)) pick) txs))
  | inr e ↦ rw e (
      Perm.trans (perm_middle (pick_from pick txs).0 (pick_from pick txs).1)
        (Perm.cons tx (pick_from-perm pick txs)))
]

pub take-drop_perm : (n : ℕ) (txs : List Transaction) → Perm (take n txs ++ drop n txs) txs
take-drop_perm n txs =
    subst (λ ys. Perm (take n txs ++ drop n txs) ys) (take-append-drop n txs) (Perm.refl _)
