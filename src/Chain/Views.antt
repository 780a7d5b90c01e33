-- ===== src/Chain/Views.antt =====
-- What internal/blockchain serves of the chain: the readers of blocks of blockchain.go and chain_sync.go,
-- and tip_freeze.go. What the calls of rocks_reads.go find in RocksDB is an argument.
use platarium_gateway_go.Common.{
  Bool, false, Option, none, some, List, [], ◌∷◌, keep_if, if◌then◌else◌, ◌==◌, nat_eq,
}
use platarium_gateway_go.Common.Int.{ℤ, pos, negsuc, int_eq, ltb_ℤ, leb_ℤ, sub64}
use platarium_gateway_go.Common.Text.{Text, text, text_eq, text_beq}
use platarium_gateway_go.Chain.Types.{BlockRecord, Blockchain}

-- The answers of RocksDB: whether it is enabled, its head, its blocks, and the block of a number.
pub record Rocks : Type 0 where
  pub enabled : Bool
  pub head : Option ℤ
  pub blocks : Option (List BlockRecord)
  pub block_at : ℤ → Option BlockRecord

unfoldable pub canonical_head_number : ℤ → Option ℤ → ℤ
canonical_head_number mem_head none = mem_head
canonical_head_number mem_head (some rocks_head) = rocks_head

-- `none` is where RocksDB is not the source of truth.
unfoldable pub freeze_block_history : List BlockRecord → Option ℤ → List BlockRecord
unfolding keep_if
freeze_block_history history none = history
freeze_block_history history (some head) =
    if ltb_ℤ head (pos 0) then [] else keep_if (λ b. leb_ℤ b.block_number head) history

unfoldable pub tip_leads_rocks : ℤ → Option ℤ → Bool
tip_leads_rocks mem_head none = false
tip_leads_rocks mem_head (some rocks_head) = ltb_ℤ rocks_head mem_head

-- The history in memory, or where that is empty the one in RocksDB.
unfoldable pub known_history : Rocks → List BlockRecord → List BlockRecord
known_history rocks (b ∷ bs) = b ∷ bs
known_history rocks [] = if rocks.enabled then found rocks.blocks else []
  where
    found : Option (List BlockRecord) → List BlockRecord
    found none = []
    found (some bs) = bs

unfoldable pub get_block_history : Rocks → Blockchain → List BlockRecord
unfolding known_history freeze_block_history
get_block_history rocks bc = freeze_block_history (known_history rocks bc.block_history) rocks.head

unfoldable pub find_block : ℤ → List BlockRecord → Option BlockRecord
find_block n [] = none
find_block n (b ∷ bs) = let rest = find_block n bs in if b.block_number == n then some b else rest

-- `n > rocksHead`, where there is a head.
abbrev pub is_frozen : ℤ → Option ℤ → Bool
is_frozen n none = false
is_frozen n (some head) = ltb_ℤ head n

abbrev pub or_else : Option BlockRecord → Option BlockRecord → Option BlockRecord
or_else none other = other
or_else (some b) other = some b

unfoldable pub get_block_by_number : Rocks → ℤ → Blockchain → Option BlockRecord
unfolding find_block
get_block_by_number rocks n bc =
    let stored = if rocks.enabled then rocks.block_at n else none in
    if is_frozen n rocks.head then none else or_else (find_block n bc.block_history) stored

unfoldable pub last_block : List BlockRecord → Option BlockRecord
last_block [] = none
last_block (b ∷ []) = some b
last_block (b ∷ c ∷ bs) = last_block (c ∷ bs)

unfoldable pub last_number : Option BlockRecord → ℤ
last_number none = negsuc 0
last_number (some b) = b.block_number

unfoldable pub head_block_number : Rocks → Blockchain → ℤ
unfolding last_block last_number canonical_head_number
head_block_number rocks bc =
    canonical_head_number (last_number (last_block bc.block_history)) rocks.head

-- The last block of a number: the search goes from the end.
unfoldable pub find_last : ℤ → List BlockRecord → Option BlockRecord
find_last n [] = none
find_last n (b ∷ bs) = or_else (find_last n bs) (if b.block_number == n then some b else none)

unfoldable pub head_block_at : Option ℤ → Rocks → Blockchain → Option BlockRecord
unfolding find_last last_block
head_block_at none rocks bc = last_block bc.block_history
head_block_at (some head) rocks bc =
    if ltb_ℤ head (pos 0)
    then none
    else or_else (find_last head bc.block_history) (rocks.block_at head)

unfoldable pub head_block : Rocks → Blockchain → Option BlockRecord
unfolding head_block_at
head_block rocks bc = head_block_at rocks.head rocks bc

-- 64 zeros.
abbrev pub genesis_previous_hash : Text
genesis_previous_hash = text "0000000000000000000000000000000000000000000000000000000000000000"

unfoldable pub hash_or : Option BlockRecord → Text → Text
unfolding text_beq
hash_or none other = other
hash_or (some b) other = if b.block_hash == [] then other else b.block_hash

-- The hash of the last block that has one.
unfoldable pub last_hash : List BlockRecord → Text → Text
unfolding hash_or
last_hash [] other = other
last_hash (b ∷ bs) other = last_hash bs (hash_or (some b) other)

-- The hash in RocksDB of its head, or of the block before it.
unfoldable pub rocks_hash : Rocks → Option ℤ → Text
unfolding hash_or sub64
rocks_hash rocks none = genesis_previous_hash
rocks_hash rocks (some head) =
    let before =
      if ltb_ℤ (pos 0) head
      then hash_or (rocks.block_at (sub64 head (pos 1))) genesis_previous_hash
      else genesis_previous_hash in
    if ltb_ℤ head (pos 0) then genesis_previous_hash else hash_or (rocks.block_at head) before

unfoldable pub get_previous_block_hash : Rocks → Blockchain → Text
unfolding last_hash rocks_hash
get_previous_block_hash rocks bc = last_hash bc.block_history (rocks_hash rocks rocks.head)

unfoldable pub find_hash : ℤ → List BlockRecord → Text → Text
unfolding hash_or
find_hash n [] other = other
find_hash n (b ∷ bs) other =
    let rest = find_hash n bs other in if b.block_number == n then hash_or (some b) rest else rest

unfoldable pub previous_hash_for_block : Rocks → ℤ → Blockchain → Text
unfolding find_hash hash_or sub64
previous_hash_for_block rocks n bc =
    let parent = sub64 n (pos 1) in
    if leb_ℤ n (pos 0)
    then genesis_previous_hash
    else find_hash parent bc.block_history (hash_or (rocks.block_at parent) genesis_previous_hash)
