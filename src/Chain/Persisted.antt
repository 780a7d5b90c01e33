-- ===== src/Chain/Persisted.antt =====
-- The chain file of internal/blockchain/chain_store.go never goes back to a lower head.
use platarium_gateway_go.Common.{
  ◌≡◌, refl, Bool, true, false, ◌&&◌, some, [], arith, Bool-cases, inl, inr, ◌⊎◌,
}
use platarium_gateway_go.Common.Int.{ℤ, pos, ltb_ℤ, leb_ℤ, ◌≤ℤ◌}
use platarium_gateway_go.Common.Text.{text_beq, text_beq_iff}
use platarium_gateway_go.Chain.Types.{Blockchain}
use platarium_gateway_go.Chain.Persist.{
  later, history_head, snapshot, shrinks_head, write_chain, persist_chain,
}

later-le : (n best : ℤ) → best ≤ℤ later n best
later-le n best = elim (Bool-cases (ltb_ℤ best n)) [
  | inl e ↦ rw e (ground arith)
  | inr e ↦ rw e (ground arith)
]

kept_head :
    (next head : ℤ) → (leb_ℤ (pos 0) head && ltb_ℤ next head) ≡ false → pos 0 ≤ℤ head → head ≤ℤ next
kept_head next head h k = ground arith

later-reaches : (n best : ℤ) → n ≤ℤ later n best
later-reaches n best = elim (Bool-cases (ltb_ℤ best n)) [
  | inl e ↦ rw e (ground arith)
  | inr e ↦ rw e (ground arith)
]

-- The chain file has been written: its head is not below the durable head, where there was one, and
-- the durable head is now at least both.
pub record Written (bc bc' : Blockchain) : Type 0 where
  pub file : bc'.file ≡ some (snapshot bc)
  pub not_lower : pos 0 ≤ℤ bc.durable_head → bc.durable_head ≤ℤ history_head (snapshot bc).blocks
  pub durable : bc.durable_head ≤ℤ bc'.durable_head
  pub reached : history_head (snapshot bc).blocks ≤ℤ bc'.durable_head

-- Why nothing is written: no path is set, the head would shrink, or the file cannot be written.
pub data Unwritten (works : Bool) (bc : Blockchain) : Bool → Type 0 where
  no_path : bc.chain_file ≡ [] → Unwritten works bc true
  shrinks :
      pos 0 ≤ℤ bc.durable_head
      → ltb_ℤ (history_head bc.block_history) bc.durable_head ≡ true
      → Unwritten works bc false
  unwritable : works ≡ false → Unwritten works bc false

write_chain-cases :
    (works : Bool) (bc : Blockchain)
    → shrinks_head bc ≡ false
    → let r = write_chain works bc in
      ((r.1 ≡ true) × Written bc r.0) ⊎ ((r.0 ≡ bc) × Unwritten works bc r.1)
unfolding write_chain shrinks_head
write_chain-cases true bc e = inl (
  refl,
  record {
    file = refl;
    not_lower = kept_head (history_head bc.block_history) bc.durable_head e;
    durable = later-le (history_head bc.block_history) bc.durable_head;
    reached = later-reaches (history_head bc.block_history) bc.durable_head;
  },
)
write_chain-cases false bc e = inr (refl, unwritable refl)

shrinks-Unwritten :
    (works : Bool) (bc : Blockchain) → shrinks_head bc ≡ true → Unwritten works bc false
unfolding shrinks_head
shrinks-Unwritten works bc e =
    let (p, q) =
      both (leb_ℤ (pos 0) bc.durable_head) (ltb_ℤ (history_head bc.block_history) bc.durable_head)
        e in
    shrinks (ground arith) q
  where
    both : (a b : Bool) → (a && b) ≡ true → (a ≡ true) × (b ≡ true)
    both a b h = ground arith

-- `persistChain` either returns no error and has written the whole snapshot, whose head is not below
-- the durable head, or changes nothing: with an error where the head would shrink or the file cannot
-- be written, and without one where no path is set.
pub persist_chain-head :
    (works : Bool) (bc : Blockchain)
    → let r = persist_chain works bc in
      ((r.1 ≡ true) × Written bc r.0) ⊎ ((r.0 ≡ bc) × Unwritten works bc r.1)
unfolding persist_chain
persist_chain-head works bc = elim (Bool-cases (text_beq bc.chain_file [])) [
  | inl e ↦ inr (simp (e), simp (e) (no_path ((text_beq_iff bc.chain_file []).0 e)))
  | inr e ↦ elim (Bool-cases (shrinks_head bc)) [
    | inl f ↦ inr (simp (e, f), simp (e, f) (shrinks-Unwritten works bc f))
    | inr f ↦ simp (e, f) (write_chain-cases works bc f)
  ]
]
