-- ===== src/Chain/Tests.antt =====
-- Runs of internal/blockchain on concrete transactions, and instances of its theorems.
use mathlib.Core.List.{Pairwise, Perm, not-mem-nil}
use mathlib.Core.List.Perm
use platarium_gateway_go.Common.{
  ℕ, ◌≡◌, refl, true, false, ◌⊎◌, none, some, List, [], ◌∷◌, ◌+◌, All, length,
}
use platarium_gateway_go.Common.Int.{ℤ, pos}
use platarium_gateway_go.Common.Text.{Text, text, text_beq}
use platarium_gateway_go.Chain.Types.{Transaction, BlockRecord, Blockchain, new_blockchain}
use platarium_gateway_go.Chain.Mempool.{add_to_mempool, get_mempool}
use platarium_gateway_go.Chain.Pending.{l1_collect_block_limit}
use platarium_gateway_go.Chain.Ledger.{
  CoreTx, Core, Env, Node, dag_ordered, maybe_dag_reorder, any_faucet, digests_of,
}
use platarium_gateway_go.Chain.Order.{
  unplaced, place, place_all, left_over, permute_by_digests, digest_overlap_count,
}
use platarium_gateway_go.Chain.Persist.{persist_chain}
use platarium_gateway_go.Chain.Fork.{prefer_block}
use platarium_gateway_go.Chain.Confirm.{empty_block}
use platarium_gateway_go.Chain.Blocks.{l2_confirm_applied, add_confirmed_block}
use platarium_gateway_go.Chain.Outcome.{Confirmation, l2_confirm_applied-cases}
use platarium_gateway_go.Chain.Pool.{All-member}
use platarium_gateway_go.Chain.Ranking.{prefer_block-order, SameRank}
use platarium_gateway_go.Chain.Shown.{OtherHash, get_mempool-order}
use platarium_gateway_go.Chain.Reordering.{maybe_dag_reorder-perm}
use platarium_gateway_go.Chain.Heights.{Unused, Pushed, Refused, add_confirmed_block-heights}
use platarium_gateway_go.Chain.Prune.{prune_mempool}
use platarium_gateway_go.Chain.Pruned.{IsCurrent, prune_mempool-clean}
use platarium_gateway_go.Chain.Persisted.{Written, Unwritten, persist_chain-head}

abbrev transfer : Text → Text → ℤ → Transaction
transfer hash sender nonce = record {
  hash = hash;
  sender = sender;
  receiver = text "carol";
  value = text "5";
  fee = text "2";
  nonce = nonce;
  timestamp = pos 100;
  kind = text "transfer";
  asset_type = text "native";
  contract_address = [];
  sig_main = text "s1";
  sig_derived = text "s2";
  pub_main = [];
  pub_derived = [];
  asset = [];
  amount_uplp = 5;
  fee_uplp = 2;
  reads = [];
  writes = [];
  block_number = pos 0;
  request_id_hash = [];
  escrow_id = [];
  purpose = [];
  expires_at = pos 0;
  settle_outcome = none;
  settle_outcome_key = [];
  settle_payee = [];
  settle_node = [];
}

abbrev first : Transaction
first = transfer (text "h1") (text "alice") (pos 0)

abbrev second : Transaction
second = transfer (text "h2") (text "bob") (pos 3)

-- A ledger whose state counts the transactions that it has applied.
abbrev counter : Core ℕ
counter = record {
  kernel_apply_batch = λ txs k. (count txs k, true);
  apply_tx = λ tx k. (k + 1, true);
  credit = λ to amount fee k. (k, true);
  dag_order_digests = λ ds. dag_ordered ds;
}
  where
    count : List CoreTx → ℕ → ℕ
    count [] k = k
    count (tx ∷ txs) k = count txs (k + 1)

abbrev here : Env ℕ
here = record {
  ledger = some counter;
  dag_ordering = true;
  kernel_exec = true;
  snapshot_works = true;
  restore_works = true;
  write_works = true;
  torn = λ k. 0;
  now = pos 500;
}

abbrev pool_of : List Transaction → Blockchain
pool_of txs = record new_blockchain { mempool = txs }

abbrev node_of : List Transaction → Node ℕ
node_of txs = record {
  chain = record new_blockchain { pending_block = txs; chain_file = text "chain.json" };
  core = 7;
  backup = none;
}

-- The chain file cannot be written.
abbrev read_only : Env ℕ
read_only = record here { write_works = false }

-- A blockchain with a chain file takes two transactions, and collects both.
abbrev collected : Blockchain
collected =
    (l1_collect_block_limit (pos 5)
      (add_to_mempool second
        (add_to_mempool first (record new_blockchain { chain_file = text "chain.json" })).0).0).0

abbrev pending_node : Node ℕ
pending_node = record { chain = collected; core = 7; backup = none }

l2_confirm_applied-cases_example :
    let n = node_of (first ∷ second ∷ []) in
    Confirmation here n (l2_confirm_applied here n.chain.pending_block n)
l2_confirm_applied-cases_example = l2_confirm_applied-cases here (node_of (first ∷ second ∷ []))

-- Another call that empties the blockchain in between.
abbrev emptied : Node ℕ → Node ℕ
emptied m = record m { chain = new_blockchain }

abbrev peer_block : BlockRecord
peer_block = record (empty_block (pos 4)) { block_hash = text "aa"; l2_yes = pos 3 }

add_confirmed_block-heights_example :
    let n = node_of [] in
    let r = add_confirmed_block here peer_block (some first ∷ none ∷ []) (λ m. m) n in
    (Unused peer_block [] × Pushed peer_block [] r) ⊎ Refused [] r
add_confirmed_block-heights_example =
    add_confirmed_block-heights here peer_block (some first ∷ none ∷ []) (node_of [])

abbrev shorter : Blockchain
shorter = record new_blockchain { chain_file = text "chain.json"; durable_head = pos 9 }

persist_chain-head_example :
    let r = persist_chain true shorter in
    ((r.1 ≡ true) × Written shorter r.0) ⊎ ((r.0 ≡ shorter) × Unwritten true shorter r.1)
persist_chain-head_example = persist_chain-head true shorter

abbrev weaker : BlockRecord
weaker = record peer_block { l2_yes = pos 2; block_hash = text "ff" }

prefer_block-order_example :
    (prefer_block weaker peer_block ≡ true → prefer_block peer_block weaker ≡ false)
    × (prefer_block weaker peer_block ≡ true
        → prefer_block peer_block weaker ≡ true
        → prefer_block weaker weaker ≡ true)
    × (prefer_block weaker peer_block ≡ false
        → prefer_block peer_block weaker ≡ false
        → SameRank weaker peer_block)
prefer_block-order_example = prefer_block-order weaker peer_block weaker

apart : Pairwise OtherHash (first ∷ second ∷ [])
unfolding text_beq
apart =
    Pairwise.cons (All-member (OtherHash first) (λ t. hlevel) (second ∷ []) (refl, tt))
      (Pairwise.cons (λ t m. absurd (not-mem-nil m)) Pairwise.nil)

get_mempool-order_example :
    Perm (get_mempool (pool_of (first ∷ second ∷ []))) (first ∷ second ∷ [])
    × (get_mempool (pool_of (first ∷ second ∷ [])) ≡ get_mempool (pool_of (second ∷ first ∷ [])))
get_mempool-order_example =
    get_mempool-order (pool_of (first ∷ second ∷ [])) (pool_of (second ∷ first ∷ []))
      (Perm.swap second first []) apart

abbrev ordered : Blockchain
ordered = record new_blockchain { dag_commit_digests = text "h2" ∷ text "h1" ∷ [] }

runs : (maybe_dag_reorder here counter ordered (first ∷ second ∷ [])).0 ≡ some (second ∷ first ∷ [])
unfolding maybe_dag_reorder any_faucet digests_of digest_overlap_count permute_by_digests unplaced
    place_all place left_over
runs = refl

maybe_dag_reorder-perm_example : Perm (second ∷ first ∷ []) (first ∷ second ∷ [])
maybe_dag_reorder-perm_example =
    maybe_dag_reorder-perm here counter ordered (first ∷ second ∷ []) (second ∷ first ∷ []) runs

prune_mempool-clean_example :
    let stored = record (pool_of (first ∷ second ∷ first ∷ [])) { pending_block = second ∷ [] } in
    let r = prune_mempool (pos 500) ((text "alice", 0) ∷ (text "bob", 3) ∷ []) [] stored in
    All (IsCurrent ((text "alice", 0) ∷ (text "bob", 3) ∷ []) [] stored) r.0.mempool
    × (length r.0.mempool + r.1 ≡ 3)
prune_mempool-clean_example =
    prune_mempool-clean (pos 500) ((text "alice", 0) ∷ (text "bob", 3) ∷ []) []
      (record (pool_of (first ∷ second ∷ first ∷ [])) { pending_block = second ∷ [] })
