-- ===== src/Chain/Ledger.antt =====
-- How confirmed transactions reach the Core ledger: tx_core.go, and `applyConfirmedTransactions`,
-- `maybeDagReorder`, `parseFee` and `parseAmount` of internal/blockchain/blockchain.go. The Core ledger
-- is an external program, and its state, a file, an abstract type.
use platarium_gateway_go.Common.{
  ℕ, zero, Bool, true, false, ◌&&◌, ◌||◌, not, Option, none, some, List, [], ◌∷◌, length, ltb,
  if◌then◌else◌, ◌==◌, nat_eq,
}
use platarium_gateway_go.Common.Int.{ℤ, pos, ltb_ℤ, wrap64}
use platarium_gateway_go.Common.Text.{Text, text, text_eq, text_beq}
use platarium_gateway_go.Common.Parse.{parse_uint64, parse_int64}
use platarium_gateway_go.Chain.Types.{Transaction, Blockchain}
use platarium_gateway_go.Chain.Order.{digest_overlap_count, permute_by_digests}

abbrev pub faucet_address : Text
faucet_address = text "faucet"

-- The fields of the JSON object that `ToCoreJSON` encodes.
pub record CoreTx : Type 0 where
  pub hash : Text
  pub sender : Text
  pub receiver : Text
  pub asset : Text
  pub amount : ℕ
  pub fee_uplp : ℕ
  pub nonce : ℤ
  pub reads : List Text
  pub writes : List Text
  pub sig_main : Text
  pub sig_derived : Text
  pub timestamp : Option ℤ
  pub pub_main : Option Text
  pub pub_derived : Option Text
  pub tx_kind : Option Text
  pub escrow_id : Option Text
  pub request_id_hash : Option Text
  pub purpose : Option Text
  pub expires_at : Option ℤ
  pub settle_outcome_key : Option Text
  pub settle_outcome : Option ℕ
  pub settle_payee : Option Text
  pub settle_node : Option Text

-- A field that is sent only where it is not empty.
abbrev pub unless_empty : Text → Option Text
unless_empty [] = none
unless_empty (c ∷ s) = some (c ∷ s)

abbrev pub when_positive : ℤ → Option ℤ
when_positive n = if ltb_ℤ (pos 0) n then some n else none

abbrev pub text_or_default : Text → Text → Text
text_or_default [] d = d
text_or_default (c ∷ s) d = c ∷ s

-- A number of the transaction, or else the one that its text denotes.
unfoldable pub number_or_parsed : ℕ → Text → ℕ
unfolding parse_uint64
number_or_parsed n s =
    let parsed : ℕ = elim (parse_uint64 s) [ none ↦ n | some v ↦ v ] in if n == 0 then parsed else n

unfoldable pub is_escrow_kind : Text → Bool
unfolding text_beq
is_escrow_kind kind =
    kind == text "escrow_lock"
    || (kind == text "escrow_settle"
        || (kind == text "escrow_refund"
            || (kind == text "escrow_cancel"
                || (kind == text "contact_escrow_lock" || kind == text "contact_escrow_settle"))))

unfoldable pub to_core_json : Transaction → Option CoreTx
unfolding text_beq number_or_parsed is_escrow_kind
to_core_json tx =
    let fee = number_or_parsed tx.fee_uplp tx.fee in
    let escrow = is_escrow_kind tx.kind in
    let named = text_or_default tx.escrow_id tx.request_id_hash in
    let rid = if named == [] && escrow then tx.contract_address else named in
    if tx.sender == faucet_address || tx.sig_main == []
    then none
    else some (record {
      hash = tx.hash;
      sender = tx.sender;
      receiver = tx.receiver;
      asset = text_or_default tx.asset (text "PLP");
      amount = number_or_parsed tx.amount_uplp tx.value;
      fee_uplp = if fee == 0 then 1 else fee;
      nonce = tx.nonce;
      reads = tx.reads;
      writes = tx.writes;
      sig_main = tx.sig_main;
      sig_derived = tx.sig_derived;
      timestamp = when_positive tx.timestamp;
      pub_main = unless_empty tx.pub_main;
      pub_derived = unless_empty tx.pub_derived;
      tx_kind = if escrow then some tx.kind else none;
      escrow_id = unless_empty rid;
      request_id_hash = unless_empty rid;
      purpose = unless_empty tx.purpose;
      expires_at = when_positive tx.expires_at;
      settle_outcome_key = unless_empty tx.settle_outcome_key;
      settle_outcome = tx.settle_outcome;
      settle_payee = unless_empty tx.settle_payee;
      settle_node = unless_empty tx.settle_node;
    })

unfoldable pub parse_fee : Text → ℤ
unfolding parse_int64
parse_fee fee = let n = parse_int64 fee in if ltb_ℤ n (pos 0) then pos 0 else n

-- The fee that a confirmation books; `int64(tx.FeeUplp)` wraps.
unfoldable pub fee_of : Transaction → ℤ
unfolding parse_fee wrap64
fee_of tx = from (parse_fee tx.fee)
  where
    from : ℤ → ℤ
    from (pos zero) = wrap64 tx.fee_uplp 0
    from n = n

unfoldable pub parse_amount : Transaction → ℕ
unfolding number_or_parsed
parse_amount tx = number_or_parsed tx.amount_uplp tx.value

-- What `DagOrderDigests` answers.
pub data DagAnswer : Type 0 where
  dag_failed : DagAnswer
  dag_ordered : List Text → DagAnswer

-- The Core ledger: each call leaves a state, also where it fails.
pub record Core (K : Type 0) : Type 0 where
  pub kernel_apply_batch : List CoreTx → K → K × Bool
  pub apply_tx : CoreTx → K → K × Bool
  pub credit : Text → ℕ → ℕ → K → K × Bool
  pub dag_order_digests : List Text → DagAnswer

-- What a call meets: the ledger or none, the switches, the clock, and which file operations work.
-- `torn` is the state file after a copy onto it that fails.
pub record Env (K : Type 0) : Type 0 where
  pub ledger : Option (Core K)
  pub dag_ordering : Bool
  pub kernel_exec : Bool
  pub snapshot_works : Bool
  pub restore_works : Bool
  pub write_works : Bool
  pub torn : K → K
  pub now : ℤ

-- The blockchain, the Core state file, and the snapshot of it at the `backupPath` that a call holds.
pub record Node (K : Type 0) : Type 0 where
  pub chain : Blockchain
  pub core : K
  pub backup : Option K

abbrev pub from_faucet : Transaction → Bool
from_faucet tx = tx.sender == faucet_address

unfoldable pub any_faucet : List Transaction → Bool
unfolding text_beq
any_faucet [] = false
any_faucet (tx ∷ txs) = from_faucet tx || any_faucet txs

unfoldable pub digests_of : List Transaction → List Text
unfolding text_beq
digests_of [] = []
digests_of (tx ∷ txs) = let rest = digests_of txs in if tx.hash == [] then rest else tx.hash ∷ rest

abbrev pub tx_hash : Transaction → Text
tx_hash tx = tx.hash

-- The end of `maybeDagReorder`, from the ledger's answer.
unfoldable pub reordered : DagAnswer → List Transaction → Option (List Transaction)
unfolding permute_by_digests
reordered dag_failed txs = none
reordered (dag_ordered ds) txs = some (permute_by_digests tx_hash ds txs)

-- `none` is its error; the flag says that the cached commit order was used, and cleared.
unfoldable pub maybe_dag_reorder :
    {K : Type 0} → Env K → Core K → Blockchain → List Transaction → Option (List Transaction) × Bool
unfolding any_faucet digests_of digest_overlap_count permute_by_digests reordered
maybe_dag_reorder env core bc txs =
    let digests = digests_of txs in
    if not env.dag_ordering || ltb (length txs) 2
    then (some txs, false)
    else if any_faucet txs || ltb (length digests) 2
    then (some txs, false)
    else if ltb 0 (digest_overlap_count bc.dag_commit_digests digests)
    then (some (permute_by_digests tx_hash bc.dag_commit_digests txs), true)
    else (reordered (core.dag_order_digests digests) txs, false)
