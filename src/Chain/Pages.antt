-- ===== src/Chain/Pages.antt =====
-- The page of blocks of internal/blockchain/blocks_page.go.
use platarium_gateway_go.Common.{
  ℕ, Bool, false, ◌&&◌, not, Option, none, some, List, [], ◌∷◌, length, keep_if, take, drop, ltb,
  leb, if◌then◌else◌,
}
use mathlib.Core.List.{reverse}
use platarium_gateway_go.Common.Int.{ℤ, pos, negsuc, ltb_ℤ, sub64, mul64}
use platarium_gateway_go.Chain.Types.{BlockRecord}

pub record BlockPageQuery : Type 0 where
  pub limit : ℤ
  pub page : ℤ
  pub least : Option ℤ
  pub greatest : Option ℤ
  pub full : Bool

abbrev pub below : Option ℤ → ℤ → Bool
below none n = false
below (some m) n = ltb_ℤ n m

abbrev pub above : Option ℤ → ℤ → Bool
above none n = false
above (some m) n = ltb_ℤ m n

abbrev pub in_range : BlockPageQuery → BlockRecord → Bool
in_range q b = not (below q.least b.block_number) && not (above q.greatest b.block_number)

-- The inner loop: from the end of the sorted part, here its head, a block moves on while the one before
-- it has a lower number.
unfoldable pub sift : BlockRecord → List BlockRecord → List BlockRecord
sift b [] = b ∷ []
sift b (c ∷ cs) =
    let rest = sift b cs in if ltb_ℤ c.block_number b.block_number then c ∷ rest else b ∷ c ∷ cs

-- The outer loop, with the sorted part in reverse.
unfoldable pub sift_all : List BlockRecord → List BlockRecord → List BlockRecord
unfolding sift
sift_all [] sorted = sorted
sift_all (b ∷ bs) sorted = sift_all bs (sift b sorted)

unfoldable pub newest_first : List BlockRecord → List BlockRecord
unfolding sift_all
newest_first bs = reverse (sift_all bs [])

abbrev pub default_block_page_limit : ℕ
default_block_page_limit = 50

abbrev pub page_limit : ℤ → ℕ
page_limit (pos n) = if ltb 0 n then (if ltb 200 n then 200 else n) else default_block_page_limit
page_limit (negsuc n) = default_block_page_limit

abbrev pub page_number : ℤ → ℤ
page_number p = if ltb_ℤ p (pos 1) then pos 1 else p

-- `filtered[start:end]`; `none` is the panic at an index below zero.
unfoldable pub slice_from : ℤ → ℕ → List BlockRecord → Option (List BlockRecord)
slice_from (pos start) limit bs =
    if leb (length bs) start then some [] else some (take limit (drop start bs))
slice_from (negsuc start) limit bs = none

unfoldable pub page_blocks : List BlockRecord → BlockPageQuery → Option (List BlockRecord)
unfolding keep_if newest_first sub64 mul64 slice_from
page_blocks blocks q =
    let sorted = newest_first (keep_if (in_range q) blocks) in
    let limit = page_limit q.limit in
    if q.full
    then some sorted
    else slice_from (mul64 (sub64 (page_number q.page) (pos 1)) (pos limit)) limit sorted
