-- ===== src/Chain/Headers.antt =====
-- What is written into blocks of the history later, in internal/blockchain/blockchain.go, the check of
-- internal/blockchain/commit_invariant.go, and the index from transactions to blocks.
use platarium_gateway_go.Common.{
  ℕ, Bool, ◌&&◌, ◌||◌, not, Option, none, some, List, [], ◌∷◌, if◌then◌else◌, ◌==◌, nat_eq,
}
use platarium_gateway_go.Common.Int.{ℤ, int_eq}
use platarium_gateway_go.Common.Text.{Text, text_eq, text_beq}
use platarium_gateway_go.Common.Dict.{Dict, insert}
use platarium_gateway_go.Chain.Types.{BlockRecord, Blockchain}
use platarium_gateway_go.Chain.Persist.{persist_chain}
use platarium_gateway_go.Chain.Views.{Rocks, rocks_hash}

-- A change of the first block of a number; `none` where there is none.
unfoldable pub update_block :
    ℤ → (BlockRecord → BlockRecord) → List BlockRecord → Option (List BlockRecord)
update_block n f [] = none
update_block n f (b ∷ bs) =
    let rest = after b (update_block n f bs) in
    if b.block_number == n then some (f b ∷ bs) else rest
  where
    after : BlockRecord → Option (List BlockRecord) → Option (List BlockRecord)
    after b none = none
    after b (some rest) = some (b ∷ rest)

-- The header that Core assembles (core.BlockHeader).
pub record BlockHeader : Type 0 where
  pub block_hash : Text
  pub merkle_root : Text
  pub state_root : Text
  pub previous_hash : Text

abbrev pub with_header : BlockHeader → Text → BlockRecord → BlockRecord
with_header h producer b = record b {
  block_hash = h.block_hash;
  merkle_root = h.merkle_root;
  state_root = h.state_root;
  previous_hash = h.previous_hash;
  producer_node_id = if producer == [] then b.producer_node_id else producer;
}

abbrev pub with_history : Option (List BlockRecord) → Blockchain → Option Blockchain
with_history none bc = none
with_history (some bs) bc = some (record bc { block_history = bs })

-- `works` says whether the chain file can be written; its error is not returned.
unfoldable pub apply_block_header : Bool → ℤ → BlockHeader → Text → Blockchain → Blockchain
unfolding update_block text_beq persist_chain
apply_block_header works n h producer bc =
    saved (with_history (update_block n (with_header h producer) bc.block_history) bc)
  where
    saved : Option Blockchain → Blockchain
    saved none = bc
    saved (some bc') = (persist_chain works bc').0

-- The counts that `SetBlockVoteCounts` writes, and the two miners.
pub record VoteCounts : Type 0 where
  pub l1_yes : ℤ
  pub l1_no : ℤ
  pub l2_yes : ℤ
  pub l2_no : ℤ
  pub duration_ms : ℤ
  pub l1_beneficiary_node_id : Text
  pub l2_confirmer_node_id : Text

abbrev pub with_votes : VoteCounts → BlockRecord → BlockRecord
with_votes v b = record b {
  l1_yes = v.l1_yes;
  l1_no = v.l1_no;
  l2_yes = v.l2_yes;
  l2_no = v.l2_no;
  duration_ms = v.duration_ms;
  l1_beneficiary_node_id = v.l1_beneficiary_node_id;
  l2_confirmer_node_id = v.l2_confirmer_node_id;
}

abbrev pub updated : Option (List BlockRecord) → Blockchain → Blockchain
updated none bc = bc
updated (some bs) bc = record bc { block_history = bs }

unfoldable pub set_block_vote_counts : ℤ → VoteCounts → Blockchain → Blockchain
unfolding update_block
set_block_vote_counts n v bc = updated (update_block n (with_votes v) bc.block_history) bc

abbrev pub votes_or : Dict Bool → Dict Bool → Dict Bool
votes_or [] old = old
votes_or (v ∷ vs) old = v ∷ vs

abbrev pub with_vote_maps : Dict Bool → Dict Bool → BlockRecord → BlockRecord
with_vote_maps l1 l2 b = record b {
  l1_votes = votes_or l1 b.l1_votes;
  l2_votes = votes_or l2 b.l2_votes;
}

unfoldable pub set_block_vote_details : ℤ → Dict Bool → Dict Bool → Blockchain → Blockchain
unfolding update_block
set_block_vote_details n l1 l2 bc =
    updated (update_block n (with_vote_maps l1 l2) bc.block_history) bc

-- `none` is the nil error of `CheckCommitHeightHashInvariant`.
pub data CommitError : Type 0 where
  height_diverges missing_hash hash_diverges state_root_diverges : CommitError

unfoldable pub check_commit_height_hash_invariant :
    ℕ → Text → ℕ → Text → Text → Text → Option CommitError
unfolding text_beq
check_commit_height_hash_invariant explorer_height explorer_hash rocks_height rocks_hash
      explorer_root rocks_root =
    if not (explorer_height == rocks_height)
    then some height_diverges
    else if explorer_hash == [] || rocks_hash == []
    then some missing_hash
    else if not (explorer_hash == rocks_hash)
    then some hash_diverges
    else if not (explorer_root == [])
        && (not (rocks_root == []) && not (explorer_root == rocks_root))
    then some state_root_diverges
    else none

-- The block numbers of the hashes in a history; a later block overrides an earlier one.
unfoldable pub number_hashes : ℤ → List Text → Dict ℤ → Dict ℤ
unfolding text_beq insert
number_hashes n [] d = d
number_hashes n (h ∷ hs) d = number_hashes n hs (if h == [] then d else insert h n d)

unfoldable pub number_blocks : List BlockRecord → Dict ℤ → Dict ℤ
unfolding number_hashes
number_blocks [] d = d
number_blocks (b ∷ bs) d = number_blocks bs (number_hashes b.block_number b.tx_hashes d)

unfoldable pub tx_hash_to_block_number : Rocks → Blockchain → Dict ℤ
unfolding number_blocks
tx_hash_to_block_number rocks bc = fallback (number_blocks bc.block_history [])
  where
    stored : Option (List BlockRecord) → Dict ℤ
    stored none = []
    stored (some bs) = number_blocks bs []

    fallback : Dict ℤ → Dict ℤ
    fallback [] = if rocks.enabled then stored rocks.blocks else []
    fallback (e ∷ d) = e ∷ d
