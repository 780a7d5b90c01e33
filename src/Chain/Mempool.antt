-- ===== src/Chain/Mempool.antt =====
-- The methods of `Blockchain` on transactions and the mempool, in internal/blockchain/blockchain.go.
-- Neither list ever holds nil; where a caller may pass a nil transaction the argument is an `Option`.
use platarium_gateway_go.Common.{
  Bool, true, false, ◌&&◌, ◌||◌, not, Option, none, some, List, [], ◌∷◌, ◌++◌, keep_if,
  if◌then◌else◌, ◌==◌,
}
use platarium_gateway_go.Common.Int.{ℤ, int_eq, ltb_ℤ}
use platarium_gateway_go.Common.Text.{Text, text_eq, text_beq, text_lt}
use platarium_gateway_go.Common.Dict.{Dict, lookup, insert, erase}
use platarium_gateway_go.Deals.Sets.{contains}
use platarium_gateway_go.Chain.Types.{Transaction, Blockchain}

-- `bc.addressTxs[a] = append(bc.addressTxs[a], tx)`
unfoldable pub index_address :
    Text → Transaction → Dict (List Transaction) → Dict (List Transaction)
unfolding lookup insert
index_address a tx index =
    let old : List Transaction = elim (lookup a index) [ none ↦ [] | some txs ↦ txs ] in
    insert a (old ++ (tx ∷ [])) index

-- The flag is true where `AddTransaction` returns no error.
unfoldable pub add_transaction : Transaction → Blockchain → Blockchain × Bool
unfolding text_beq insert index_address
add_transaction tx bc = if tx.hash == [] then (bc, false) else (
  record bc {
    transactions = insert tx.hash tx bc.transactions;
    last_tx = some tx;
    address_txs = index_address tx.receiver tx (index_address tx.sender tx bc.address_txs);
  },
  true,
)

-- What a loop of `AddToMempool` finds: nothing, the same transaction, or one of its sender and nonce.
pub data Found : Type 0 where
  nothing known nonce_taken : Found

abbrev pub same_slot : Transaction → Transaction → Bool
same_slot t tx = t.sender == tx.sender && t.nonce == tx.nonce

unfoldable pub search_for : Transaction → List Transaction → Found
unfolding text_beq
search_for tx [] = nothing
search_for tx (t ∷ ts) =
    if t.hash == tx.hash then known else if same_slot t tx then nonce_taken else search_for tx ts

pub data PoolError : Type 0 where
  hash_required nonce_in_pending nonce_in_mempool : PoolError

-- `none` is the nil error.
unfoldable pub admitted : Found → Found → Transaction → Blockchain → Blockchain × Option PoolError
admitted known in_mempool tx bc = (bc, none)
admitted nonce_taken in_mempool tx bc = (bc, some nonce_in_pending)
admitted nothing known tx bc = (bc, none)
admitted nothing nonce_taken tx bc = (bc, some nonce_in_mempool)
admitted nothing nothing tx bc = (record bc { mempool = bc.mempool ++ (tx ∷ []) }, none)

unfoldable pub add_to_mempool : Transaction → Blockchain → Blockchain × Option PoolError
unfolding text_beq contains search_for admitted
add_to_mempool tx bc =
    if tx.hash == []
    then (bc, some hash_required)
    else if contains tx.hash bc.confirmed_hashes
    then (bc, none)
    else admitted (search_for tx bc.pending_block) (search_for tx bc.mempool) tx bc

-- `consider` of `HighestInFlightNonce`, over a list.
unfoldable pub highest_nonce : Text → List Transaction → Option ℤ → Option ℤ
unfolding text_beq
highest_nonce address [] best = best
highest_nonce address (tx ∷ txs) best =
    let higher : Bool = elim best [ none ↦ true | some n ↦ ltb_ℤ n tx.nonce ] in
    highest_nonce address txs
      (if tx.sender == address then if higher then some tx.nonce else best else best)

unfoldable pub highest_in_flight_nonce : Text → Blockchain → Option ℤ
unfolding highest_nonce
highest_in_flight_nonce address bc =
    highest_nonce address bc.pending_block (highest_nonce address bc.mempool none)

unfoldable pub any_nonce : Text → ℤ → List Transaction → Bool
unfolding text_beq
any_nonce address n [] = false
any_nonce address n (tx ∷ txs) = (tx.sender == address && tx.nonce == n) || any_nonce address n txs

unfoldable pub has_in_flight_nonce : Text → ℤ → Blockchain → Bool
unfolding any_nonce
has_in_flight_nonce address n bc =
    any_nonce address n bc.mempool || any_nonce address n bc.pending_block

-- `delete(bc.transactions, tx.Hash)` for each unconfirmed transaction of a list.
unfoldable pub purge : List Text → List Transaction → Dict Transaction → Dict Transaction
unfolding text_beq contains erase
purge confirmed [] index = index
purge confirmed (tx ∷ txs) index =
    let rest = purge confirmed txs index in
    if not (tx.hash == []) && not (contains tx.hash confirmed) then erase tx.hash rest else rest

abbrev pub hash_in : List Text → Transaction → Bool
hash_in hashes tx = contains tx.hash hashes

unfoldable pub remove_from_mempool : List Text → Blockchain → Blockchain
unfolding keep_if contains purge
remove_from_mempool [] bc = bc
remove_from_mempool (h ∷ hs) bc = record bc {
  mempool = keep_if (λ tx. not (hash_in (h ∷ hs) tx)) bc.mempool;
  transactions = purge bc.confirmed_hashes (keep_if (hash_in (h ∷ hs)) bc.mempool) bc.transactions;
}

-- The order of `GetMempool`.
unfoldable pub tx_less : Transaction → Transaction → Bool
unfolding text_beq text_lt
tx_less a b =
    if not (a.timestamp == b.timestamp)
    then ltb_ℤ a.timestamp b.timestamp
    else if not (a.sender == b.sender)
    then text_lt a.sender b.sender
    else if not (a.nonce == b.nonce)
    then ltb_ℤ a.nonce b.nonce
    else text_lt a.hash b.hash

-- A stable sort: an element goes before the first that is not less.
unfoldable pub insert_tx : Transaction → List Transaction → List Transaction
unfolding tx_less
insert_tx x [] = x ∷ []
insert_tx x (y ∷ ys) = let rest = insert_tx x ys in if tx_less y x then y ∷ rest else x ∷ y ∷ ys

unfoldable pub sort_txs : List Transaction → List Transaction
unfolding insert_tx
sort_txs [] = []
sort_txs (x ∷ xs) = insert_tx x (sort_txs xs)

unfoldable pub get_mempool : Blockchain → List Transaction
unfolding sort_txs
get_mempool bc = sort_txs bc.mempool
