-- ===== src/Chain/Members.antt =====
-- Membership in the lists of transactions of internal/blockchain, and in the lists of their hashes.
use mathlib.Core.List.{Mem, mem-cons_self, mem-cons_of_mem, Pairwise}
use platarium_gateway_go.Common.{
  ◌≡◌, refl, Bool, true, false, ◌&&◌, ◌||◌, List, [], ◌∷◌, ◌++◌, All, keep_if, arith, Bool-cases,
  inl, inr,
}
use platarium_gateway_go.Common.Int.{int_beq}
use platarium_gateway_go.Common.Text.{Text, text_beq, text_beq_iff, text_beq_refl}
use platarium_gateway_go.Deals.Sets.{contains, Distinct}
use platarium_gateway_go.Chain.Types.{Transaction}
use platarium_gateway_go.Chain.Pending.{hashes_of}
use platarium_gateway_go.Chain.Pool.{clash, Compatible, All-member}

pub every :
    {P : Transaction → Type 0} (xs : List Transaction)
    → ((t : Transaction) → Mem t xs → P t)
    → All P xs
every [] h = tt
every (x ∷ xs) h = (h x mem-cons_self, every xs λ t m. h t (mem-cons_of_mem x m))

pub keep_if-passes :
    (p : Transaction → Bool) (xs : List Transaction) → All (λ t. p t ≡ true) (keep_if p xs)
unfolding keep_if
keep_if-passes p [] = tt
keep_if-passes p (x ∷ xs) = elim (Bool-cases (p x)) [
  | inl e ↦ rw e (e, keep_if-passes p xs)
  | inr e ↦ rw e (keep_if-passes p xs)
]

pub keep_if-member :
    (p : Transaction → Bool) (xs : List Transaction) (t : Transaction)
    → Mem t (keep_if p xs)
    → p t ≡ true
keep_if-member p xs t m =
    All-member (λ t. p t ≡ true) (λ t. hlevel) (keep_if p xs) (keep_if-passes p xs) t m

pub All-imp :
    {P Q : Transaction → Type 0} (xs : List Transaction)
    → ((t : Transaction) → P t → Q t)
    → All P xs
    → All Q xs
All-imp [] f h = tt
All-imp (x ∷ xs) f h = (f x h.0, All-imp xs f h.1)

hashes_of-members : (xs : List Transaction) → All (λ t. contains t.hash (hashes_of xs) ≡ true) xs
unfolding contains
hashes_of-members [] = tt
hashes_of-members (x ∷ xs) = (
  ground (arith, text_beq_refl x.hash),
  All-imp xs (λ t e. ground (arith, e)) (hashes_of-members xs),
)

-- The hash of a member is among the hashes.
pub contains-hashes_of :
    (xs : List Transaction) (t : Transaction) → Mem t xs → contains t.hash (hashes_of xs) ≡ true
contains-hashes_of xs t m =
    All-member (λ t. contains t.hash (hashes_of xs) ≡ true) (λ t. hlevel) xs (hashes_of-members xs)
      t m

clash-hash : (t x : Transaction) → Compatible t x → text_beq x.hash t.hash ≡ false
unfolding clash
clash-hash t x c = part t.hash x.hash (text_beq t.sender x.sender && int_beq t.nonce x.nonce) c
  where
    part : (h k : Text) (b : Bool) → (text_beq h k || b) ≡ false → text_beq k h ≡ false
    part h k b c = ground (arith, text_beq_iff h k, text_beq_iff k h)

-- The hash of a transaction is not among those of transactions that may wait with it.
pub hashes_of-apart :
    (t : Transaction) (xs : List Transaction)
    → All (Compatible t) xs
    → contains t.hash (hashes_of xs) ≡ false
unfolding contains
hashes_of-apart t [] h = refl
hashes_of-apart t (x ∷ xs) h = rw (clash-hash t x h.0) (hashes_of-apart t xs h.1)

pub hashes_of-Distinct : (xs : List Transaction) → Pairwise Compatible xs → Distinct (hashes_of xs)
hashes_of-Distinct [] p = tt
hashes_of-Distinct (x ∷ xs) (Pairwise.cons h p) =
    (hashes_of-apart x xs (every xs h), hashes_of-Distinct xs p)

pub contains-append :
    (h : Text) (xs ys : List Text) → contains h (xs ++ ys) ≡ (contains h xs || contains h ys)
unfolding contains
contains-append h [] ys = refl
contains-append h (x ∷ xs) ys = ground (arith, contains-append h xs ys)

pub append-Distinct :
    (xs ys : List Text)
    → Distinct xs
    → Distinct ys
    → ((h : Text) → contains h xs ≡ true → contains h ys ≡ false)
    → Distinct (xs ++ ys)
unfolding contains
append-Distinct [] ys u v d = v
append-Distinct (x ∷ xs) ys u v d = (
  rw (contains-append x xs ys, u.0) (d x (ground (arith, text_beq_refl x))),
  append-Distinct xs ys u.1 v λ h m. d h (ground (arith, m)),
)
