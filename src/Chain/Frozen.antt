-- ===== src/Chain/Frozen.antt =====
-- The list of blocks and the block of a number that internal/blockchain serves agree, and neither is
-- ahead of RocksDB.
use platarium_gateway_go.Common.{
  ◌≡◌, ◌≢◌, refl, sym, ◌∙◌, ap, subst, Bool, true, false, Option, none, some, List, [], ◌∷◌, All,
  keep_if, if◌then◌else◌, arith, Bool-cases, inl, inr,
}
use platarium_gateway_go.Common.Int.{ℤ, pos, int_eq, int_beq, int_beq_iff, ltb_ℤ, leb_ℤ}
use platarium_gateway_go.Chain.Types.{BlockRecord, Blockchain}
use platarium_gateway_go.Chain.Views.{
  Rocks, freeze_block_history, known_history, get_block_history, find_block, is_frozen, or_else,
  get_block_by_number, canonical_head_number, head_block_number, last_number, last_block,
}

-- Not ahead of the head of RocksDB.
abbrev pub UpTo : ℤ → BlockRecord → Type 0
UpTo head b = leb_ℤ b.block_number head ≡ true

keep_if-UpTo :
    (head : ℤ) (bs : List BlockRecord)
    → All (UpTo head) (keep_if (λ b. leb_ℤ b.block_number head) bs)
unfolding keep_if
keep_if-UpTo head [] = tt
keep_if-UpTo head (b ∷ bs) = elim (Bool-cases (leb_ℤ b.block_number head)) [
  | inl e ↦ rw e (e, keep_if-UpTo head bs)
  | inr e ↦ rw e (keep_if-UpTo head bs)
]

freeze-UpTo :
    (head : ℤ) (bs : List BlockRecord) → All (UpTo head) (freeze_block_history bs (some head))
unfolding freeze_block_history
freeze-UpTo head bs = elim (Bool-cases (ltb_ℤ head (pos 0))) [
  | inl e ↦ rw e tt
  | inr e ↦ rw e (keep_if-UpTo head bs)
]

same_number : (n m head : ℤ) → int_beq n m ≡ true → leb_ℤ n head ≡ leb_ℤ m head
same_number n m head e = ap (λ k. leb_ℤ k head) ((int_beq_iff n m).0 e)

-- A block that is found among those kept is found among all, and is not ahead.
find_block-keep_if :
    (n head : ℤ) (b : BlockRecord) (bs : List BlockRecord)
    → find_block n (keep_if (λ c. leb_ℤ c.block_number head) bs) ≡ some b
    → (leb_ℤ n head ≡ true) × (find_block n bs ≡ some b)
unfolding find_block keep_if
find_block-keep_if n head b [] e = cc (e)
find_block-keep_if n head b (c ∷ cs) e = elim (Bool-cases (leb_ℤ c.block_number head)) [
  | inl k ↦ elim (Bool-cases (int_beq c.block_number n)) [
    | inl m ↦ let q = rw (k, m) at e in (sym (same_number c.block_number n head m) ∙ k, rw m q)
    | inr m ↦ let q = rw (k, m) at e in let r = find_block-keep_if n head b cs q in (r.0, rw m r.1)
  ]
  | inr k ↦
      let q = rw k at e in
      let r = find_block-keep_if n head b cs q in
      elim (Bool-cases (int_beq c.block_number n)) [
        | inl m ↦
            let late = sym (same_number c.block_number n head m) ∙ k in absurd (cc (late, r.0))
        | inr m ↦ (r.0, rw m r.1)
      ]
]

frozen-found :
    (n head : ℤ) (b : BlockRecord) (bs : List BlockRecord)
    → find_block n (freeze_block_history bs (some head)) ≡ some b
    → (leb_ℤ n head ≡ true) × (find_block n bs ≡ some b)
unfolding freeze_block_history find_block
frozen-found n head b bs e = elim (Bool-cases (ltb_ℤ head (pos 0))) [
  | inl k ↦ let q = rw k at e in cc (q)
  | inr k ↦ find_block-keep_if n head b bs (rw k at e)
]

-- A block that is found in the listed history, where memory holds a history, is served by its number.
listed-served :
    (rocks : Rocks) (n : ℤ) (b : BlockRecord) (bc : Blockchain) (o : Option ℤ)
    → rocks.head ≡ o
    → bc.block_history ≢ []
    → find_block n (freeze_block_history bc.block_history o) ≡ some b
    → get_block_by_number rocks n bc ≡ some b
unfolding get_block_by_number freeze_block_history
listed-served rocks n b bc none h m e =
    ap (λ o. served (is_frozen n o) (find_block n bc.block_history)) h ∙ ap (served false) e
  where
    served : Bool → Option BlockRecord → Option BlockRecord
    served f found =
        if f then none else or_else found (if rocks.enabled then rocks.block_at n else none)
listed-served rocks n b bc (some head) h m e =
    let (le, found) = frozen-found n head b bc.block_history e in
    ap (λ o. served (is_frozen n o) (find_block n bc.block_history)) h
    ∙ (ap (λ f. served f (find_block n bc.block_history)) (not_late le) ∙ ap (served false) found)
  where
    served : Bool → Option BlockRecord → Option BlockRecord
    served f found =
        if f then none else or_else found (if rocks.enabled then rocks.block_at n else none)

    not_late : leb_ℤ n head ≡ true → ltb_ℤ head n ≡ false
    not_late le = ground arith

known_history-memory :
    (rocks : Rocks) (bs : List BlockRecord) → bs ≢ [] → known_history rocks bs ≡ bs
unfolding known_history
known_history-memory rocks [] m = absurd (m refl)
known_history-memory rocks (b ∷ bs) m = refl

-- Where memory holds a history, each block that `GetBlockHistory` lists under a number, the first of
-- that number, is the one that `GetBlockByNumber` serves; and where RocksDB has a head, no listed block,
-- no block served by number and no served height is ahead of it.
pub get_block_history-agrees :
    (rocks : Rocks) (bc : Blockchain)
    → bc.block_history ≢ []
    → ((n : ℤ) (b : BlockRecord)
        → find_block n (get_block_history rocks bc) ≡ some b
        → get_block_by_number rocks n bc ≡ some b)
      × ((head : ℤ)
          → rocks.head ≡ some head
          → All (UpTo head) (get_block_history rocks bc)
            × ((n : ℤ) → ltb_ℤ head n ≡ true → get_block_by_number rocks n bc ≡ none)
            × (head_block_number rocks bc ≡ head))
unfolding get_block_history get_block_by_number head_block_number canonical_head_number
get_block_history-agrees rocks bc m = (
  λ n b e. listed-served rocks n b bc rocks.head refl m (
      ap (λ l. find_block n (freeze_block_history l rocks.head))
        (sym (known_history-memory rocks bc.block_history m))
      ∙ e),
  λ head h. (
    subst (λ o. All (UpTo head) (freeze_block_history (known_history rocks bc.block_history) o))
        (sym h) (freeze-UpTo head (known_history rocks bc.block_history)),
    λ n late. ap (λ o. by_number n (is_frozen n o)) h ∙ ap (by_number n) late,
    ap (canonical_head_number (last_number (last_block bc.block_history))) h,
  ),
)
  where
    by_number : ℤ → Bool → Option BlockRecord
    by_number n f =
        if f
        then none
        else or_else (find_block n bc.block_history)
            (if rocks.enabled then rocks.block_at n else none)
