-- ===== src/Chain/Types.antt =====
-- The data of internal/blockchain: `Transaction` and `BlockRecord` of blockchain.go, `ChainFileData`
-- of chain_store.go, and the fields of `Blockchain` that its methods read and write. What
-- `persistChain` leaves at the path of the chain file is a field of the state.
use platarium_gateway_go.Common.{ℕ, Bool, false, Option, none, List, [], ◌==◌, keep_if, not}
use platarium_gateway_go.Common.Int.{ℤ, pos, negsuc}
use platarium_gateway_go.Common.Text.{Text, text_eq, text_beq}
use platarium_gateway_go.Common.Dict.{Dict}

pub record Transaction : Type 0 where
  pub hash : Text
  pub sender : Text
  pub receiver : Text
  pub value : Text
  pub fee : Text
  pub nonce : ℤ
  pub timestamp : ℤ
  pub kind : Text
  pub asset_type : Text
  pub contract_address : Text
  pub sig_main : Text
  pub sig_derived : Text
  pub pub_main : Text
  pub pub_derived : Text
  pub asset : Text
  pub amount_uplp : ℕ
  pub fee_uplp : ℕ
  pub reads : List Text
  pub writes : List Text
  pub block_number : ℤ
  pub request_id_hash : Text
  pub escrow_id : Text
  pub purpose : Text
  pub expires_at : ℤ
  pub settle_outcome : Option ℕ
  pub settle_outcome_key : Text
  pub settle_payee : Text
  pub settle_node : Text

pub record BlockRecord : Type 0 where
  pub block_number : ℤ
  pub timestamp : ℤ
  pub tx_hashes : List Text
  pub tx_count : ℤ
  pub total_fees : ℤ
  pub block_hash : Text
  pub merkle_root : Text
  pub state_root : Text
  pub previous_hash : Text
  pub producer_node_id : Text
  pub l1_yes : ℤ
  pub l1_no : ℤ
  pub l2_yes : ℤ
  pub l2_no : ℤ
  pub duration_ms : ℤ
  pub l1_beneficiary_node_id : Text
  pub l2_confirmer_node_id : Text
  pub l1_votes : Dict Bool
  pub l2_votes : Dict Bool

pub record ChainFileData : Type 0 where
  pub version : ℕ
  pub block_counter : ℤ
  pub total_fees_collected : ℤ
  pub blocks : List BlockRecord
  pub transactions : List Transaction

pub record Blockchain : Type 0 where
  pub transactions : Dict Transaction
  pub mempool : List Transaction
  pub pending_block : List Transaction
  pub address_txs : Dict (List Transaction)
  pub last_tx : Option Transaction
  pub block_counter : ℤ
  pub block_history : List BlockRecord
  pub total_fees_collected : ℤ
  pub chain_file : Text
  pub file : Option ChainFileData
  pub durable_head : ℤ
  pub confirmed_hashes : List Text
  pub dag_commit_anchor : Text
  pub dag_commit_digests : List Text
  pub explorer_only_confirm : Bool
  pub explorer_write_fails : Bool

abbrev pub new_blockchain : Blockchain
new_blockchain = record {
  transactions = [];
  mempool = [];
  pending_block = [];
  address_txs = [];
  last_tx = none;
  block_counter = pos 0;
  block_history = [];
  total_fees_collected = pos 0;
  chain_file = [];
  file = none;
  durable_head = negsuc 0;
  confirmed_hashes = [];
  dag_commit_anchor = [];
  dag_commit_digests = [];
  explorer_only_confirm = false;
  explorer_write_fails = false;
}

-- `delete(set, h)` on a map whose values are all true, as the list of its keys.
unfoldable pub without_hash : Text → List Text → List Text
unfolding text_beq keep_if
without_hash h hashes = keep_if (λ k. not (k == h)) hashes
