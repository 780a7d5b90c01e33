-- ===== src/Chain/Shown.antt =====
-- What `GetMempool` of internal/blockchain/blockchain.go shows does not depend on the order of arrival.
use mathlib.Core.List.{Pairwise, Perm, Permᴰ, mem-cons_self}
use mathlib.Core.List.Perm
use mathlib.Core.Logic.{∥∥₁_elim}
use platarium_gateway_go.Common.{
  ◌≡◌, refl, sym, ◌∙◌, ap, Bool, true, false, not, List, [], ◌∷◌, if◌then◌else◌, arith, Bool-cases,
  inl, inr,
}
use platarium_gateway_go.Common.Int.{ℤ, int_eq, int_beq, ltb_ℤ}
use platarium_gateway_go.Common.Text.{
  Text, text_eq, text_beq, text_beq_iff, text_lt, text_lt-asym, text_lt-total, text_lt_trans,
}
use platarium_gateway_go.Chain.Types.{Transaction, Blockchain}
use platarium_gateway_go.Chain.Mempool.{tx_less, insert_tx, sort_txs, get_mempool}

-- Of what is not after `y` and before `x`, `y` is before `x`: one key and the keys after it.
ℤ-step :
    (z y x : ℤ) (r s t : Bool)
    → (r ≡ false → s ≡ true → t ≡ true)
    → (if not (int_beq z y) then ltb_ℤ z y else r) ≡ false
    → (if not (int_beq z x) then ltb_ℤ z x else s) ≡ true
    → (if not (int_beq y x) then ltb_ℤ y x else t) ≡ true
ℤ-step z y x false false t f h k = ground arith
ℤ-step z y x false true t f h k = let e = f refl refl in ground arith
ℤ-step z y x true false t f h k = ground arith
ℤ-step z y x true true t f h k = ground arith

text_lt-step : (z y x : Text) → text_lt z y ≡ false → text_lt z x ≡ true → text_lt y x ≡ true
text_lt-step z y x h k = elim (Bool-cases (text_lt y z)) [
  | inl e ↦ text_lt_trans y z x e k
  | inr e ↦ ap (λ w. text_lt w x) (sym (text_lt-total z y h e)) ∙ k
]

Text-step :
    (z y x : Text) (r s t : Bool)
    → (r ≡ false → s ≡ true → t ≡ true)
    → (if not (text_beq z y) then text_lt z y else r) ≡ false
    → (if not (text_beq z x) then text_lt z x else s) ≡ true
    → (if not (text_beq y x) then text_lt y x else t) ≡ true
Text-step z y x r s t f h k = ground (
  arith,
  f,
  text_beq_iff z y,
  text_beq_iff z x,
  text_beq_iff y x,
  text_lt-step z y x,
  text_lt-total y z,
  text_lt-total z y,
  text_lt-asym y z,
)

tx_less-step : (z y x : Transaction) → tx_less z y ≡ false → tx_less z x ≡ true → tx_less y x ≡ true
unfolding tx_less
tx_less-step z y x = ℤ-step z.timestamp y.timestamp x.timestamp _ _ _ (
    Text-step z.sender y.sender x.sender _ _ _
      (ℤ-step z.nonce y.nonce x.nonce _ _ _ (text_lt-step z.hash y.hash x.hash)))

tx_less-asym : (x y : Transaction) → tx_less x y ≡ true → tx_less y x ≡ false
unfolding tx_less
tx_less-asym x y h = ground (
  arith,
  text_lt-asym x.sender y.sender,
  text_lt-asym x.hash y.hash,
  text_beq_iff x.sender y.sender,
  text_beq_iff y.sender x.sender,
)

abbrev pub OtherHash : Transaction → Transaction → Type 0
OtherHash x y = text_beq x.hash y.hash ≡ false

tx_less-total : (x y : Transaction) → OtherHash x y → tx_less x y ≡ false → tx_less y x ≡ true
unfolding tx_less
tx_less-total x y o h = ground (
  arith,
  text_lt-total x.sender y.sender,
  text_lt-total x.hash y.hash,
  text_beq_iff x.sender y.sender,
  text_beq_iff y.sender x.sender,
  text_beq_iff x.hash y.hash,
)

insert_tx-after :
    (x z : Transaction) (zs : List Transaction)
    → tx_less z x ≡ true
    → insert_tx x (z ∷ zs) ≡ z ∷ insert_tx x zs
unfolding insert_tx
insert_tx-after x z zs e = rw e refl

insert_tx-before :
    (x z : Transaction) (zs : List Transaction)
    → tx_less z x ≡ false
    → insert_tx x (z ∷ zs) ≡ x ∷ z ∷ zs
unfolding insert_tx
insert_tx-before x z zs e = rw e refl

-- Two elements in order, before all others.
insert_tx-pair :
    (x y : Transaction) (l : List Transaction)
    → OtherHash x y
    → insert_tx x l ≡ x ∷ l
    → insert_tx y l ≡ y ∷ l
    → insert_tx x (insert_tx y l) ≡ insert_tx y (insert_tx x l)
insert_tx-pair x y l o e f = elim (Bool-cases (tx_less x y)) [
  | inl g ↦
      ap (insert_tx x) f
      ∙ (insert_tx-before x y l (tx_less-asym x y g)
          ∙ sym (ap (insert_tx y) e ∙ (insert_tx-after y x l g ∙ ap (◌∷◌ x) f)))
  | inr g ↦
      ap (insert_tx x) f
      ∙ (insert_tx-after x y l (tx_less-total x y o g)
          ∙ (ap (◌∷◌ y) e ∙ sym (ap (insert_tx y) e ∙ insert_tx-before y x l g)))
]

-- An element that is before `z`, and one that is after it.
insert_tx-apart :
    (x y z : Transaction) (zs : List Transaction)
    → tx_less z x ≡ true
    → tx_less z y ≡ false
    → insert_tx x (insert_tx y (z ∷ zs)) ≡ insert_tx y (insert_tx x (z ∷ zs))
insert_tx-apart x y z zs a b =
    ap (insert_tx x) (insert_tx-before y z zs b)
    ∙ (insert_tx-after x y (z ∷ zs) (tx_less-step z y x b a)
        ∙ (ap (◌∷◌ y) (insert_tx-after x z zs a)
            ∙ sym (
                ap (insert_tx y) (insert_tx-after x z zs a)
                ∙ insert_tx-before y z (insert_tx x zs) b)))

insert_tx-nil : (x : Transaction) → insert_tx x [] ≡ x ∷ []
unfolding insert_tx
insert_tx-nil x = refl

insert_tx_comm :
    (x y : Transaction) (l : List Transaction)
    → OtherHash x y
    → insert_tx x (insert_tx y l) ≡ insert_tx y (insert_tx x l)
insert_tx_comm x y [] o = insert_tx-pair x y [] o (insert_tx-nil x) (insert_tx-nil y)
insert_tx_comm x y (z ∷ zs) o = elim (Bool-cases (tx_less z x)) [
  | inl a ↦ elim (Bool-cases (tx_less z y)) [
    | inl b ↦
        ap (insert_tx x) (insert_tx-after y z zs b)
        ∙ (insert_tx-after x z (insert_tx y zs) a
            ∙ (ap (◌∷◌ z) (insert_tx_comm x y zs o)
                ∙ sym (
                    ap (insert_tx y) (insert_tx-after x z zs a)
                    ∙ insert_tx-after y z (insert_tx x zs) b)))
    | inr b ↦ insert_tx-apart x y z zs a b
  ]
  | inr a ↦ elim (Bool-cases (tx_less z y)) [
    | inl b ↦ sym (insert_tx-apart y x z zs b a)
    | inr b ↦ insert_tx-pair x y (z ∷ zs) o (insert_tx-before x z zs a) (insert_tx-before y z zs b)
  ]
]

OtherHash-prop : (x y : Transaction) → IsProp (OtherHash x y)
OtherHash-prop x y = hlevel

OtherHash-sym : (x y : Transaction) → OtherHash x y → OtherHash y x
OtherHash-sym x y o = ground (arith, o, text_beq_iff x.hash y.hash, text_beq_iff y.hash x.hash)

sort_txs-permᴰ :
    {xs ys : List Transaction} → Permᴰ xs ys → Pairwise OtherHash xs → sort_txs xs ≡ sort_txs ys
unfolding sort_txs
sort_txs-permᴰ Permᴰ.nil p = refl
sort_txs-permᴰ (Permᴰ.cons {a = a} {b = b} {l₁ = xs} {l₂ = ys} e d) (Pairwise.cons h p) =
    ap (insert_tx a) (sort_txs-permᴰ d p) ∙ ap (λ t. insert_tx t (sort_txs ys)) e
sort_txs-permᴰ (Permᴰ.swap {a = a} {b = b} {a' = c} {b' = d} {l = l} e f) (Pairwise.cons h p) =
    insert_tx_comm a b (sort_txs l) (h b mem-cons_self)
    ∙ (ap (λ t. insert_tx t (insert_tx a (sort_txs l))) f
        ∙ ap (λ t. insert_tx c (insert_tx t (sort_txs l))) e)
sort_txs-permᴰ (Permᴰ.trans d e) p =
    sort_txs-permᴰ d p ∙ sort_txs-permᴰ e (Perm.pairwise OtherHash-prop OtherHash-sym ∣ d ∣₁ p)

txs-set : IsSet (List Transaction)
txs-set = hlevel

insert_tx-perm : (x : Transaction) (l : List Transaction) → Perm (insert_tx x l) (x ∷ l)
unfolding insert_tx
insert_tx-perm x [] = Perm.refl (x ∷ [])
insert_tx-perm x (z ∷ zs) = elim (Bool-cases (tx_less z x)) [
  | inl e ↦ rw e (Perm.trans (Perm.cons z (insert_tx-perm x zs)) (Perm.swap x z zs))
  | inr e ↦ rw e (Perm.refl (x ∷ z ∷ zs))
]

sort_txs-perm : (l : List Transaction) → Perm (sort_txs l) l
unfolding sort_txs
sort_txs-perm [] = Perm.refl []
sort_txs-perm (x ∷ xs) =
    Perm.trans (insert_tx-perm x (sort_txs xs)) (Perm.cons x (sort_txs-perm xs))

-- `GetMempool` shows the transactions of the mempool, and two mempools that hold the same
-- transactions, each hash once, are shown as one list, whatever the order in which they arrived.
pub get_mempool-order :
    (bc bc' : Blockchain)
    → Perm bc.mempool bc'.mempool
    → Pairwise OtherHash bc.mempool
    → Perm (get_mempool bc) bc.mempool × (get_mempool bc ≡ get_mempool bc')
unfolding get_mempool
get_mempool-order bc bc' p o = (
  sort_txs-perm bc.mempool,
  ∥∥₁_elim p (txs-set (sort_txs bc.mempool) (sort_txs bc'.mempool)) λ d. sort_txs-permᴰ d o,
)
