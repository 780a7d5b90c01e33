-- ===== src/Chain/Pending.antt =====
-- The pending block of internal/blockchain/blockchain.go and internal/blockchain/mempool_snapshot.go.
use platarium_gateway_go.Common.{
  ℕ, Bool, ◌&&◌, not, Option, none, some, List, [], ◌∷◌, ◌++◌, length, keep_if, take, drop, ltb,
  if◌then◌else◌, ◌==◌,
}
use platarium_gateway_go.Common.Int.{ℤ, pos, negsuc, int_eq}
use platarium_gateway_go.Common.Text.{Text, text_eq, text_beq}
use platarium_gateway_go.Common.Dict.{Dict, lookup, insert}
use platarium_gateway_go.Deals.Sets.{contains}
use platarium_gateway_go.Chain.Types.{Transaction, Blockchain}
use platarium_gateway_go.Chain.Mempool.{hash_in, purge}

-- The transactions of a peer's list that are not nil.
unfoldable pub present : List (Option Transaction) → List Transaction
present [] = []
present (none ∷ txs) = present txs
present (some tx ∷ txs) = tx ∷ present txs

abbrev pub hashes_of : List Transaction → List Text
hashes_of [] = []
hashes_of (tx ∷ txs) = tx.hash ∷ hashes_of txs

-- The state after the pending block is set, from the hashes that are to leave the mempool.
unfoldable pub leave_mempool : List Text → Blockchain → Blockchain
unfolding keep_if contains
leave_mempool [] bc = bc
leave_mempool (h ∷ hs) bc = record bc {
  mempool = keep_if (λ tx. not (hash_in (h ∷ hs) tx)) bc.mempool;
}

unfoldable pub sync_pending_block : List (Option Transaction) → Blockchain → Blockchain
unfolding present leave_mempool
sync_pending_block txs bc =
    leave_mempool (hashes_of (present txs)) (record bc { pending_block = present txs })

unfoldable pub set_pending_block : List (Option Transaction) → Blockchain → Blockchain
unfolding present keep_if contains
set_pending_block txs bc = record bc {
  pending_block = present txs;
  mempool = keep_if (λ tx. not (hash_in (hashes_of (present txs)) tx)) bc.mempool;
}

-- The map from hash to transaction that `GetMempoolTxsByHashes` and `SelectTxsByHashes` build.
unfoldable pub by_hash : List Transaction → Dict Transaction → Dict Transaction
unfolding text_beq insert
by_hash [] d = d
by_hash (tx ∷ txs) d = by_hash txs (if tx.hash == [] then d else insert tx.hash tx d)

unfoldable pub find_all : Dict Transaction → List Text → Option (List Transaction)
unfolding lookup
find_all d [] = some []
find_all d (h ∷ hs) =
    let rest = find_all d hs in
    elim (lookup h d) [
      | none ↦ none
      | some tx ↦ elim rest [ none ↦ none | some txs ↦ some (tx ∷ txs) ]
    ]

unfoldable pub get_mempool_txs_by_hashes : List Text → Blockchain → Option (List Transaction)
unfolding by_hash find_all
get_mempool_txs_by_hashes hashes bc = find_all (by_hash bc.mempool []) hashes

unfoldable pub find_some : Dict Transaction → List Text → List Transaction
unfolding lookup
find_some d [] = []
find_some d (h ∷ hs) =
    let rest = find_some d hs in elim (lookup h d) [ none ↦ rest | some tx ↦ tx ∷ rest ]

-- `SelectTxsByHashes` of internal/blockchain/mempool_snapshot.go.
unfoldable pub select_txs_by_hashes : List Text → Blockchain → List Transaction
unfolding by_hash find_some
select_txs_by_hashes hashes bc = find_some (by_hash bc.mempool []) hashes

-- How many `L1CollectBlockLimit` moves.
abbrev pub collect_count : ℤ → ℕ → ℕ
collect_count (pos limit) n = if ltb 0 limit && ltb limit n then limit else n
collect_count (negsuc limit) n = n

unfoldable pub l1_collect_block_limit : ℤ → Blockchain → Blockchain × List Transaction
l1_collect_block_limit limit bc =
    let n = collect_count limit (length bc.mempool) in
    let moved = take n bc.mempool in
    (record bc { pending_block = moved; mempool = drop n bc.mempool }, moved)

unfoldable pub l1_collect_block : Blockchain → Blockchain × List Transaction
unfolding l1_collect_block_limit
l1_collect_block bc = l1_collect_block_limit (pos 0) bc

-- The hashes that `L1CollectSelected` (mempool_snapshot.go) is to pick.
unfoldable pub picks : List (Option Transaction) → List Text
unfolding text_beq
picks [] = []
picks (none ∷ txs) = picks txs
picks (some tx ∷ txs) = if tx.hash == [] then picks txs else tx.hash ∷ picks txs

-- What is picked and what remains of the mempool; a hash is picked once.
unfoldable pub pick_from : List Text → List Transaction → List Transaction × List Transaction
unfolding contains text_beq keep_if
pick_from pick [] = ([], [])
pick_from pick (tx ∷ txs) =
    let picked = pick_from (keep_if (λ h. not (h == tx.hash)) pick) txs in
    let left = pick_from pick txs in
    if contains tx.hash pick then (tx ∷ picked.0, picked.1) else (left.0, tx ∷ left.1)

unfoldable pub l1_collect_selected :
    List (Option Transaction) → Blockchain → Blockchain × List Transaction
unfolding picks pick_from
l1_collect_selected [] bc = (bc, [])
l1_collect_selected (tx ∷ txs) bc =
    let split = pick_from (picks (tx ∷ txs)) bc.mempool in
    (record bc { mempool = split.1; pending_block = split.0 }, split.0)

-- What the loop of `AbandonPendingBlock` returns to the mempool, and what it drops.
abbrev pub is_returned : List Text → Transaction → Bool
is_returned drop tx = not (tx.hash == []) && not (contains tx.hash drop)

abbrev pub is_dropped : List Text → Transaction → Bool
is_dropped drop tx = not (tx.hash == []) && contains tx.hash drop

unfoldable pub abandon_pending_block : List Text → Blockchain → Blockchain × (ℕ × ℕ)
unfolding keep_if contains text_beq purge
abandon_pending_block drop bc =
    let returned = keep_if (is_returned drop) bc.pending_block in
    let dropped = keep_if (is_dropped drop) bc.pending_block in
    (
      record bc {
        mempool = bc.mempool ++ returned;
        pending_block = [];
        transactions = purge bc.confirmed_hashes dropped bc.transactions;
      },
      (length returned, length dropped),
    )
