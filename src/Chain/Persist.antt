-- ===== src/Chain/Persist.antt =====
-- The chain file of internal/blockchain/chain_store.go: `persistChain` and `LoadChainFile`.
use platarium_gateway_go.Common.{
  ℕ, Bool, true, false, ◌&&◌, some, List, [], ◌∷◌, if◌then◌else◌, ◌==◌, nat_eq,
}
use platarium_gateway_go.Common.Int.{ℤ, pos, negsuc, ltb_ℤ, leb_ℤ}
use platarium_gateway_go.Common.Text.{text_eq, text_beq}
use platarium_gateway_go.Common.Dict.{Dict}
use platarium_gateway_go.Chain.Types.{BlockRecord, Transaction, ChainFileData, Blockchain}

-- A loop that keeps the greater number.
abbrev pub later : ℤ → ℤ → ℤ
later n best = if ltb_ℤ best n then n else best

unfoldable pub head_from : ℤ → List BlockRecord → ℤ
head_from best [] = best
head_from best (b ∷ bs) = head_from (later b.block_number best) bs

unfoldable pub history_head : List BlockRecord → ℤ
unfolding head_from
history_head blocks = head_from (negsuc 0) blocks

unfoldable pub note_durable_head : Blockchain → Blockchain
unfolding history_head
note_durable_head bc = record bc {
  durable_head = later (history_head bc.block_history) bc.durable_head;
}

unfoldable pub memory_head_block_number : Blockchain → ℤ
unfolding history_head
memory_head_block_number bc = history_head bc.block_history

abbrev pub values : Dict Transaction → List Transaction
values [] = []
values ((h, tx) ∷ d) = tx ∷ values d

abbrev pub chain_file_version : ℕ
chain_file_version = 1

abbrev pub snapshot : Blockchain → ChainFileData
snapshot bc = record {
  version = chain_file_version;
  block_counter = bc.block_counter;
  total_fees_collected = bc.total_fees_collected;
  blocks = bc.block_history;
  transactions = values bc.transactions;
}

-- Whether the snapshot would lower the head that is on disk.
unfoldable pub shrinks_head : Blockchain → Bool
unfolding history_head
shrinks_head bc =
    leb_ℤ (pos 0) bc.durable_head && ltb_ℤ (history_head bc.block_history) bc.durable_head

-- `works` says whether the file can be written.
unfoldable pub write_chain : Bool → Blockchain → Blockchain × Bool
unfolding history_head
write_chain true bc = (
  record bc {
    file = some (snapshot bc);
    durable_head = later (history_head bc.block_history) bc.durable_head;
  },
  true,
)
write_chain false bc = (bc, false)

-- The flag is true where no error is returned.
unfoldable pub persist_chain : Bool → Blockchain → Blockchain × Bool
unfolding text_beq shrinks_head write_chain
persist_chain works bc =
    if bc.chain_file == []
    then (bc, true)
    else if shrinks_head bc
    then (bc, false)
    else write_chain works bc
