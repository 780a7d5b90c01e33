-- ===== src/Chain/Ranking.antt =====
-- `PreferBlock` of internal/blockchain/fork_choice.go is a strict order on blocks of one height.
use platarium_gateway_go.Common.{
  ℕ, ◌≡◌, refl, Bool, true, false, not, ltb, if◌then◌else◌, nat_beq, arith,
}
use platarium_gateway_go.Common.Int.{ℤ, int_eq, int_beq, int_beq_iff, ltb_ℤ}
use platarium_gateway_go.Common.Text.{text_lt-asym, text_lt-total, text_lt_trans}
use platarium_gateway_go.Chain.Types.{BlockRecord}
use platarium_gateway_go.Chain.Fork.{count_yes, prefer_block}

prefer_block-asym : (a b : BlockRecord) → prefer_block a b ≡ true → prefer_block b a ≡ false
unfolding prefer_block
prefer_block-asym a b h = ground (arith, text_lt-asym a.block_hash b.block_hash)

-- One key of a lexicographic order, and the keys after it.
ℤ-trans :
    (x y z : ℤ) (r s t : Bool)
    → (r ≡ true → s ≡ true → t ≡ true)
    → (if not (int_beq y x) then ltb_ℤ x y else r) ≡ true
    → (if not (int_beq z y) then ltb_ℤ y z else s) ≡ true
    → (if not (int_beq z x) then ltb_ℤ x z else t) ≡ true
ℤ-trans x y z false false t f h k = ground arith
ℤ-trans x y z false true t f h k = ground arith
ℤ-trans x y z true false t f h k = ground arith
ℤ-trans x y z true true t f h k = let e = f refl refl in ground arith

ℕ-trans :
    (x y z : ℕ) (r s t : Bool)
    → (r ≡ true → s ≡ true → t ≡ true)
    → (if not (nat_beq y x) then ltb x y else r) ≡ true
    → (if not (nat_beq z y) then ltb y z else s) ≡ true
    → (if not (nat_beq z x) then ltb x z else t) ≡ true
ℕ-trans x y z false false t f h k = ground arith
ℕ-trans x y z false true t f h k = ground arith
ℕ-trans x y z true false t f h k = ground arith
ℕ-trans x y z true true t f h k = let e = f refl refl in ground arith

prefer_block_trans :
    (a b c : BlockRecord)
    → prefer_block a b ≡ true
    → prefer_block b c ≡ true
    → prefer_block a c ≡ true
unfolding prefer_block
prefer_block_trans a b c = ℤ-trans a.l2_yes b.l2_yes c.l2_yes _ _ _ (
    ℕ-trans (count_yes a.l2_votes) (count_yes b.l2_votes) (count_yes c.l2_votes) _ _ _ (
      ℤ-trans a.l1_yes b.l1_yes c.l1_yes _ _ _ (
        ℕ-trans (count_yes a.l1_votes) (count_yes b.l1_votes) (count_yes c.l1_votes) _ _ _
          (text_lt_trans a.block_hash b.block_hash c.block_hash))))

-- The keys by which two blocks are compared.
abbrev pub SameRank : BlockRecord → BlockRecord → Type 0
SameRank a b =
    (a.l2_yes ≡ b.l2_yes)
    × (count_yes a.l2_votes ≡ count_yes b.l2_votes)
    × (a.l1_yes ≡ b.l1_yes)
    × (count_yes a.l1_votes ≡ count_yes b.l1_votes)
    × (a.block_hash ≡ b.block_hash)

prefer_block-total :
    (a b : BlockRecord) → prefer_block a b ≡ false → prefer_block b a ≡ false → SameRank a b
unfolding prefer_block
prefer_block-total a b h k =
    let e : int_beq a.l2_yes b.l2_yes ≡ true = ground arith in
    let f : count_yes a.l2_votes ≡ count_yes b.l2_votes = ground arith in
    let g : int_beq a.l1_yes b.l1_yes ≡ true = ground arith in
    let m : count_yes a.l1_votes ≡ count_yes b.l1_votes = ground arith in
    (
      (int_beq_iff a.l2_yes b.l2_yes).0 e,
      f,
      (int_beq_iff a.l1_yes b.l1_yes).0 g,
      m,
      text_lt-total a.block_hash b.block_hash (ground arith) (ground arith),
    )

-- Between blocks of one height `PreferBlock` is a strict order: of two blocks at most one is preferred
-- to the other, what is preferred to a preferred block is preferred, and where neither is preferred
-- the two have the same votes and the same hash.
pub prefer_block-order :
    (a b c : BlockRecord)
    → (prefer_block a b ≡ true → prefer_block b a ≡ false)
      × (prefer_block a b ≡ true → prefer_block b c ≡ true → prefer_block a c ≡ true)
      × (prefer_block a b ≡ false → prefer_block b a ≡ false → SameRank a b)
prefer_block-order a b c = (prefer_block-asym a b, prefer_block_trans a b c, prefer_block-total a b)
