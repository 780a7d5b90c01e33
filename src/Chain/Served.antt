-- ===== src/Chain/Served.antt =====
-- Instances of the theorems on what internal/blockchain serves.
use mathlib.Core.List.{Pairwise, Perm}
use platarium_gateway_go.Common.{
  ◌≤◌, ◌≡◌, ◌≢◌, refl, true, false, none, some, List, [], ◌∷◌, ◌++◌, All, length, keep_if, take,
  arith,
}
use platarium_gateway_go.Common.Int.{ℤ, pos, ltb_ℤ}
use platarium_gateway_go.Chain.Types.{BlockRecord, Blockchain, new_blockchain}
use platarium_gateway_go.Chain.Confirm.{empty_block}
use platarium_gateway_go.Chain.Pages.{BlockPageQuery, in_range, newest_first, page_blocks}
use platarium_gateway_go.Chain.Listing.{Newer, page_blocks-pages}
use platarium_gateway_go.Chain.Views.{
  Rocks, find_block, get_block_history, get_block_by_number, head_block_number,
}
use platarium_gateway_go.Chain.Frozen.{UpTo, get_block_history-agrees}

abbrev three : List BlockRecord
three = empty_block (pos 4) ∷ empty_block (pos 6) ∷ empty_block (pos 5) ∷ []

abbrev second_page : BlockPageQuery
second_page = record {
  limit = pos 2;
  page = pos 2;
  least = none;
  greatest = some (pos 9);
  full = false;
}

page_blocks-pages_example :
    let sorted = newest_first (keep_if (in_range second_page) three) in
    (page : List BlockRecord) × (page_blocks three second_page ≡ some page)
    × (length page ≤ 200)
    × (take 4 sorted ≡ take 2 sorted ++ page)
    × Perm sorted (keep_if (in_range second_page) three)
    × Pairwise Newer sorted
page_blocks-pages_example =
    page_blocks-pages three second_page 1 refl refl (omega arith) (omega arith)

abbrev store : Rocks
store = record { enabled = true; head = some (pos 5); blocks = none; block_at = λ n. none }

abbrev ahead : Blockchain
ahead = record new_blockchain { block_history = three }

ahead-ne : ahead.block_history ≢ []
ahead-ne e = cc (e)

get_block_history-agrees_example :
    ((n : ℤ) (b : BlockRecord)
      → find_block n (get_block_history store ahead) ≡ some b
      → get_block_by_number store n ahead ≡ some b)
    × ((head : ℤ)
        → store.head ≡ some head
        → All (UpTo head) (get_block_history store ahead)
          × ((n : ℤ) → ltb_ℤ head n ≡ true → get_block_by_number store n ahead ≡ none)
          × (head_block_number store ahead ≡ head))
get_block_history-agrees_example = get_block_history-agrees store ahead ahead-ne
