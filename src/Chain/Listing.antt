-- ===== src/Chain/Listing.antt =====
-- The pages of internal/blockchain/blocks_page.go are the successive parts of one list, newest first.

use mathlib.Core.List.{
  not-mem-nil, Pairwise, Perm, eq-or-mem_of_mem-cons, Pairwise-reverse, reverse_perm, perm_middle,
  append-nil,
}
use mathlib.Core.List.Perm
use mathlib.Core.Logic.Or
use platarium_gateway_go.Common.{
  ℕ, zero, suc, ◌+◌, ◌*◌, ◌^◌, ◌≤◌, ◌<◌, ◌≡◌, refl, sym, ◌∙◌, ap, subst, false, some, List, [], ◌∷◌,
  ◌++◌, length, length-take, keep_if, take, drop, leb, arith, Bool-cases, inl, inr,
}
use platarium_gateway_go.Common.Int.{ℤ, pos, negsuc, ltb_ℤ, sub64, mul64, sub64_pos, mul64_pos}
use platarium_gateway_go.Chain.Types.{BlockRecord}
use platarium_gateway_go.Chain.Pages.{
  BlockPageQuery, in_range, sift, sift_all, newest_first, page_limit, page_number, slice_from,
  page_blocks,
}

-- The block is not newer than the one after it.
abbrev Up : BlockRecord → BlockRecord → Type 0
Up a b = ltb_ℤ b.block_number a.block_number ≡ false

abbrev pub Newer : BlockRecord → BlockRecord → Type 0
Newer a b = ltb_ℤ a.block_number b.block_number ≡ false

Up-prop : (a b : BlockRecord) → IsProp (Up a b)
Up-prop a b = hlevel

Newer-prop : (a b : BlockRecord) → IsProp (Newer a b)
Newer-prop a b = hlevel

sift-perm : (b : BlockRecord) (l : List BlockRecord) → Perm (sift b l) (b ∷ l)
unfolding sift
sift-perm b [] = Perm.refl (b ∷ [])
sift-perm b (c ∷ cs) = elim (Bool-cases (ltb_ℤ c.block_number b.block_number)) [
  | inl e ↦ rw e (Perm.trans (Perm.cons c (sift-perm b cs)) (Perm.swap b c cs))
  | inr e ↦ rw e (Perm.refl (b ∷ c ∷ cs))
]

sift-Pairwise : (b : BlockRecord) (l : List BlockRecord) → Pairwise Up l → Pairwise Up (sift b l)
unfolding sift
sift-Pairwise b [] p = Pairwise.cons (λ x m. absurd (not-mem-nil m)) Pairwise.nil
sift-Pairwise b (c ∷ cs) (Pairwise.cons h p) =
    elim (Bool-cases (ltb_ℤ c.block_number b.block_number)) [
      | inl e ↦ rw e (
          Pairwise.cons
            (λ x m.
              Or.elim (Up-prop c x) (eq-or-mem_of_mem-cons ((Perm.mem_iff (sift-perm b cs)).0 m))
                (λ q. subst (Up c) (sym q) (ground arith)) (λ n. h x n))
            (sift-Pairwise b cs p))
      | inr e ↦ rw e (
          Pairwise.cons
            (λ x m.
              Or.elim (Up-prop b x) (eq-or-mem_of_mem-cons m)
                (λ q. subst (Up b) (sym q) (ground arith)) (λ n. let u = h x n in ground arith))
            (Pairwise.cons h p))
    ]

sift_all-perm : (bs sorted : List BlockRecord) → Perm (sift_all bs sorted) (bs ++ sorted)
unfolding sift_all
sift_all-perm [] sorted = Perm.refl sorted
sift_all-perm (b ∷ bs) sorted =
    Perm.trans (sift_all-perm bs (sift b sorted))
      (Perm.trans (Perm.append_left bs (sift-perm b sorted)) (perm_middle bs sorted))

sift_all-Pairwise :
    (bs sorted : List BlockRecord) → Pairwise Up sorted → Pairwise Up (sift_all bs sorted)
unfolding sift_all
sift_all-Pairwise [] sorted p = p
sift_all-Pairwise (b ∷ bs) sorted p =
    sift_all-Pairwise bs (sift b sorted) (sift-Pairwise b sorted p)

newest_first-perm : (bs : List BlockRecord) → Perm (newest_first bs) bs
unfolding newest_first
newest_first-perm bs =
    Perm.trans (reverse_perm (sift_all bs []))
      (subst (Perm (sift_all bs [])) (append-nil bs) (sift_all-perm bs []))

newest_first-Pairwise : (bs : List BlockRecord) → Pairwise Newer (newest_first bs)
unfolding newest_first
newest_first-Pairwise bs = (Pairwise-reverse Newer-prop).1 (sift_all-Pairwise bs [] Pairwise.nil)

take-nil : (n : ℕ) → take {A = BlockRecord} n [] ≡ []
take-nil zero = refl
take-nil (suc n) = refl

take-next : (n m : ℕ) (l : List BlockRecord) → take (n + m) l ≡ take n l ++ take m (drop n l)
take-next zero m l = ap (λ k. take k l) (omega arith)
take-next (suc n) m [] = take-nil (suc n + m) ∙ sym (take-nil m)
take-next (suc n) m (x ∷ xs) =
    let e : suc n + m ≡ suc (n + m) = omega arith in
    ap (λ k. take k (x ∷ xs)) e ∙ ap (◌∷◌ x) (take-next n m xs)

drop-past : (n : ℕ) (l : List BlockRecord) → length l ≤ n → drop n l ≡ []
drop-past zero [] h = refl
drop-past zero (x ∷ xs) h = absurd (omega (arith, h))
drop-past (suc n) [] h = refl
drop-past (suc n) (x ∷ xs) h = drop-past n xs (omega (arith, h))

slice_from-page :
    (start limit : ℕ) (l : List BlockRecord)
    → slice_from (pos start) limit l ≡ some (take limit (drop start l))
unfolding slice_from
slice_from-page start limit l = elim (Bool-cases (leb (length l) start)) [
  | inl e ↦ rw (e, drop-past start l (ground (arith, e))) (ap some (sym (take-nil limit)))
  | inr e ↦ rw e refl
]

page_limit-le : (n : ℤ) → page_limit n ≤ 200
page_limit-le (pos n) = ground arith
page_limit-le (negsuc n) = omega arith

start_of :
    (p limit : ℕ)
    → p * limit < 2 ^ 63
    → p + 1 < 2 ^ 63
    → mul64 (sub64 (pos (p + 1)) (pos 1)) (pos limit) ≡ pos (p * limit)
start_of p limit h k =
    ap (λ n. mul64 n (pos limit)) (sub64_pos (p + 1) 1 k (omega arith) ∙ ground arith)
    ∙ mul64_pos p limit h

-- The page `p + 1` of a query that does not ask for all blocks, where `p` pages fit an int, has at most
-- 200 blocks and follows the pages before it in one list: the blocks in the range of the query, each as
-- often as it is stored, the newest first.
pub page_blocks-pages :
    (blocks : List BlockRecord) (q : BlockPageQuery) (p : ℕ)
    → q.full ≡ false
    → q.page ≡ pos (p + 1)
    → p * page_limit q.limit < 2 ^ 63
    → p + 1 < 2 ^ 63
    → let sorted = newest_first (keep_if (in_range q) blocks) in
      let limit = page_limit q.limit in
      (page : List BlockRecord) × (page_blocks blocks q ≡ some page)
      × (length page ≤ 200)
      × (take (p * limit + limit) sorted ≡ take (p * limit) sorted ++ page)
      × Perm sorted (keep_if (in_range q) blocks)
      × Pairwise Newer sorted
unfolding page_blocks
page_blocks-pages blocks q p f e h k =
    let sorted = newest_first (keep_if (in_range q) blocks) in
    let limit = page_limit q.limit in
    (
      take limit (drop (p * limit) sorted),
      simp (f, e)
          (ap (λ n. slice_from (mul64 (sub64 n (pos 1)) (pos limit)) limit sorted)
              (page_number-next p)
            ∙ (ap (λ n. slice_from n limit sorted) (start_of p limit h k)
                ∙ slice_from-page (p * limit) limit sorted)),
      omega (arith, length-take limit (drop (p * limit) sorted), page_limit-le q.limit),
      take-next (p * limit) limit sorted,
      newest_first-perm (keep_if (in_range q) blocks),
      newest_first-Pairwise (keep_if (in_range q) blocks),
    )
  where
    page_number-next : (p : ℕ) → page_number (pos (p + 1)) ≡ pos (p + 1)
    page_number-next p = ground arith
