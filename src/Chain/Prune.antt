-- ===== src/Chain/Prune.antt =====
-- `PruneMempool` of internal/blockchain/mempool_prune.go, with the account nonces that the ledger
-- answers, the hashes that RocksDB confirms and the clock as arguments. The copy of the mempool in the
-- transaction pool on disk is left out.
use platarium_gateway_go.Common.{
  ℕ, zero, suc, ◌+◌, ◌-◌, ◌*◌, length, Bool, false, ◌&&◌, ◌||◌, not, Option, none, some, List, [],
  ◌∷◌, ◌++◌, keep_if, if◌then◌else◌, ◌==◌,
}
use platarium_gateway_go.Common.Int.{ℤ, pos, int_eq, ltb_ℤ, add64, sub64, wrap64}
use platarium_gateway_go.Common.Text.{Text, text, text_eq, text_beq}
use platarium_gateway_go.Common.Dict.{Dict, lookup}
use platarium_gateway_go.Deals.Sets.{contains}
use platarium_gateway_go.Chain.Types.{Transaction, BlockRecord, Blockchain}
use platarium_gateway_go.Chain.Mempool.{same_slot}
use platarium_gateway_go.Chain.Pending.{hashes_of}
use platarium_gateway_go.Chain.Ledger.{faucet_address}

abbrev pub mempool_max_nonce_gap : ℤ
mempool_max_nonce_gap = pos 64

abbrev pub mempool_future_max_age_sec : ℤ
mempool_future_max_age_sec = pos (6 * 3600)

-- The hashes of all blocks that are not empty.
unfoldable pub block_hashes : List BlockRecord → List Text
unfolding text_beq keep_if
block_hashes [] = []
block_hashes (b ∷ bs) = keep_if (λ h. not (h == [])) b.tx_hashes ++ block_hashes bs

-- `int(want)` of the account's nonce, where the ledger answered.
unfoldable pub wanted : Text → Dict ℕ → Option ℤ
unfolding lookup wrap64
wanted sender nonces = signed (lookup sender nonces)
  where
    signed : Option ℕ → Option ℤ
    signed none = none
    signed (some n) = some (wrap64 n 0)

abbrev pub is_behind : ℤ → Option ℤ → Bool
is_behind n none = false
is_behind n (some want) = ltb_ℤ n want

-- The transactions that the loop removes whatever it has kept.
unfoldable pub is_stale : List Text → Dict ℕ → Transaction → Bool
unfolding text_beq contains wanted
is_stale confirmed nonces tx =
    tx.hash == []
    || ((tx.sender == faucet_address || tx.kind == text "faucet")
        || (contains tx.hash confirmed
            || (not (tx.sender == []) && is_behind tx.nonce (wanted tx.sender nonces))))

-- Whether a transaction with the sender and nonce has been kept.
unfoldable pub any_slot : Transaction → List Transaction → Bool
unfolding text_beq
any_slot tx [] = false
any_slot tx (k ∷ ks) = same_slot k tx || any_slot tx ks

abbrev pub is_earlier : Transaction → Transaction → Bool
is_earlier tx prev =
    ltb_ℤ (pos 0) tx.timestamp
    && (ltb_ℤ (pos 0) prev.timestamp && ltb_ℤ tx.timestamp prev.timestamp)

-- `kept[prevIdx]`, replaced by an earlier transaction of the same sender and nonce.
unfoldable pub replace_slot : Transaction → List Transaction → List Transaction
unfolding text_beq
replace_slot tx [] = []
replace_slot tx (k ∷ ks) =
    let rest = replace_slot tx ks in
    if same_slot k tx then (if is_earlier tx k then tx ∷ ks else k ∷ ks) else k ∷ rest

-- The loop: what is kept, and how many are removed.
unfoldable pub keep_each :
    List Text → Dict ℕ → List Transaction → List Transaction → List Transaction × ℕ
unfolding is_stale any_slot replace_slot text_beq
keep_each confirmed nonces [] kept = (kept, 0)
keep_each confirmed nonces (tx ∷ txs) kept =
    let skipped = keep_each confirmed nonces txs kept in
    let merged = keep_each confirmed nonces txs (replace_slot tx kept) in
    let added = keep_each confirmed nonces txs (kept ++ (tx ∷ [])) in
    if is_stale confirmed nonces tx
    then (skipped.0, skipped.1 + 1)
    else if not (tx.sender == []) && any_slot tx kept
    then (merged.0, merged.1 + 1)
    else added

-- The account's nonce, zero where the ledger did not answer.
abbrev pub want_or_zero : Option ℤ → ℤ
want_or_zero none = pos 0
want_or_zero (some want) = want

-- Behind the account, too far ahead of it, or ahead of it for too long.
unfoldable pub is_unpackable : ℤ → Dict ℕ → Transaction → Bool
unfolding text_beq wanted add64 sub64
is_unpackable now nonces tx =
    let want = want_or_zero (wanted tx.sender nonces) in
    not (tx.sender == [])
    && (not (tx.sender == faucet_address)
        && (ltb_ℤ tx.nonce want
            || (ltb_ℤ (add64 want mempool_max_nonce_gap) tx.nonce
                || (not (tx.nonce == want)
                    && (ltb_ℤ (pos 0) tx.timestamp
                        && ltb_ℤ mempool_future_max_age_sec (sub64 now tx.timestamp))))))

-- The second pass; it drops by hash.
unfoldable pub drop_unpackable : ℤ → Dict ℕ → List Transaction → List Transaction
unfolding keep_if contains is_unpackable
drop_unpackable now [] kept = kept
drop_unpackable now (e ∷ nonces) kept =
    let dropped = hashes_of (keep_if (is_unpackable now (e ∷ nonces)) kept) in
    keep_if (λ tx. not (contains tx.hash dropped)) kept

-- The hashes that may not stay: those of the blocks, those that RocksDB confirms, and the pending ones.
abbrev pub settled_hashes : List Text → Blockchain → List Text
settled_hashes rocks_confirmed bc =
    block_hashes bc.block_history ++ (rocks_confirmed ++ hashes_of bc.pending_block)

abbrev pub with_kept : ℕ → List Transaction → Blockchain → Blockchain
with_kept zero kept bc = bc
with_kept (suc removed) kept bc = record bc { mempool = kept }

-- The number is how many are removed.
unfoldable pub prune_mempool : ℤ → Dict ℕ → List Text → Blockchain → Blockchain × ℕ
unfolding keep_each drop_unpackable block_hashes
prune_mempool now nonces rocks_confirmed bc =
    let r = keep_each (settled_hashes rocks_confirmed bc) nonces bc.mempool [] in
    let kept = drop_unpackable now nonces r.0 in
    let removed = r.1 + (length r.0 - length kept) in (with_kept removed kept bc, removed)
