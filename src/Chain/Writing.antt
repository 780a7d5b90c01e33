-- ===== src/Chain/Writing.antt =====
-- The outcomes of `persistChain` (internal/blockchain/chain_store.go).
use platarium_gateway_go.Common.{
  ◌≡◌, refl, Bool, true, false, Option, some, [], Bool-cases, inl, inr, ◌⊎◌,
}
use platarium_gateway_go.Common.Int.{ℤ, int_eq}
use platarium_gateway_go.Common.Text.{text_eq, text_beq}
use platarium_gateway_go.Chain.Types.{Blockchain, ChainFileData}
use platarium_gateway_go.Chain.Persist.{
  persist_chain, snapshot, later, history_head, write_chain, shrinks_head,
}

abbrev pub saved_as : Option ChainFileData → ℤ → Blockchain → Blockchain
saved_as file head bc = record bc { file = file; durable_head = head }

write_chain-cases :
    (works : Bool) (bc : Blockchain)
    → ((file : Option ChainFileData) × (head : ℤ) × (write_chain works bc
          ≡ (saved_as file head bc, true)))
      ⊎ (write_chain works bc ≡ (bc, false))
unfolding write_chain
write_chain-cases true bc =
    inl (some (snapshot bc), later (history_head bc.block_history) bc.durable_head, refl)
write_chain-cases false bc = inr refl

-- `persistChain` writes the file and the durable head and nothing else, or changes nothing.
pub persist_chain-cases :
    (works : Bool) (bc : Blockchain)
    → ((file : Option ChainFileData) × (head : ℤ) × (persist_chain works bc
          ≡ (saved_as file head bc, true)))
      ⊎ (persist_chain works bc ≡ (bc, false))
unfolding persist_chain
persist_chain-cases works bc = elim (Bool-cases (text_beq bc.chain_file [])) [
  | inl e ↦ inl (bc.file, bc.durable_head, simp (e))
  | inr e ↦ elim (Bool-cases (shrinks_head bc)) [
    | inl f ↦ inr (simp (e, f))
    | inr f ↦ simp (e, f) (write_chain-cases works bc)
  ]
]
