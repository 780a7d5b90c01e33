-- ===== src/Deals/Panel.antt =====
-- The pure helpers of internal/deals/book.go: trimming, the panel seed, the vote commitment, and
-- `PickFive`, which seats a panel. SHA-256 is a parameter.
pub mod Seating
use Prim.Native.Nat.{min}
use mathlib.Core.List.{reverse}
use platarium_gateway_go.Common.{
  All, ◌<◌, ℕ, zero, suc, ◌+◌, ◌-◌, ◌*◌, ◌/◌, ◌%◌, ◌^◌, ◌<◌, ◌≡◌, refl, Bool, true, false, ◌&&◌,
  ◌||◌, not, Option, none, some, List, [], ◌∷◌, ◌++◌, arith, length, take, ltb, leb, if◌then◌else◌,
  ◌==◌, nat_eq,
}
use platarium_gateway_go.Common.Text.{Text, text, text_eq, text_beq, text_lt, drop_while, trim_with}
use platarium_gateway_go.Deals.Sets.{contains, get_or, remove_at}

abbrev pub panel_domain : Text
panel_domain = text "platarium-deal-panel-v1"

-- crypto/sha256: 32 bytes for every input. It is a parameter.
pub record Sha256 : Type 0 where
  pub sum : Text → Text
  pub length-sum : (s : Text) → length (sum s) ≡ 32
  pub bytes-sum : (s : Text) → All (λ c. c < 256) (sum s)

is_blank : ℕ → Bool
is_blank c = c == 32 || c == 10 || c == 9

unfoldable pub strings_trim : Text → Text
unfolding is_blank trim_with
strings_trim s = trim_with is_blank s

parse_uint_from : ℕ → Text → ℕ
parse_uint_from n [] = n
parse_uint_from n (c ∷ s) =
    let rest = parse_uint_from ((n * 10 + (c - 48)) % 2 ^ 64) s in
    if ltb c 48 || ltb 57 c then n else rest

unfoldable pub parse_uint : Text → ℕ
unfolding parse_uint_from
parse_uint s = parse_uint_from 0 s

-- hex.EncodeToString
unfoldable pub hex_digit : ℕ → ℕ
hex_digit n = if ltb n 10 then n + 48 else n + 87

unfoldable pub hex : Text → Text
unfolding hex_digit
hex [] = []
hex (c ∷ s) = hex_digit (c / 16) ∷ hex_digit (c % 16) ∷ hex s

-- The first eight bytes, most significant first, as a uint64.
unfoldable pub be_from : ℕ → ℕ → Text → ℕ
be_from zero acc s = acc
be_from (suc n) acc [] = be_from n (acc * 256) []
be_from (suc n) acc (c ∷ s) = be_from n (acc * 256 + c) s

-- binary.BigEndian.PutUint64 of a number below 256.
be_bytes : ℕ → Text
be_bytes seat = 0 ∷ 0 ∷ 0 ∷ 0 ∷ 0 ∷ 0 ∷ 0 ∷ seat ∷ []

-- The loop over `bonded`, with `seen`.
unfoldable pub eligible_from : List Text → List Text → List Text → List Text
unfolding contains text_beq
eligible_from drop seen [] = []
eligible_from drop seen (a ∷ rest) =
    let skip = eligible_from drop seen rest in
    let keep = a ∷ eligible_from drop (a ∷ seen) rest in
    if a == [] || contains a drop || contains a seen then skip else keep

drop_empty : List Text → List Text
unfolding text_beq
drop_empty [] = []
drop_empty (e ∷ es) = if e == [] then drop_empty es else e ∷ drop_empty es

-- sort.Strings: the sorted rearrangement, by insertion.
unfoldable pub insert_sorted : Text → List Text → List Text
unfolding text_lt
insert_sorted a [] = a ∷ []
insert_sorted a (x ∷ xs) = if text_lt x a then x ∷ insert_sorted a xs else a ∷ x ∷ xs

unfoldable pub sort_strings : List Text → List Text
unfolding insert_sorted
sort_strings [] = []
sort_strings (x ∷ xs) = insert_sorted x (sort_strings xs)

unfoldable pub eligible : List Text → List Text → List Text
unfolding eligible_from drop_empty sort_strings
eligible bonded exclude = sort_strings (eligible_from (drop_empty exclude) [] bonded)

-- The bytes that `HashCommit` hashes.
unfoldable pub commit_bytes : Text → Text → Text
unfolding text_beq
commit_bytes verdict nonce = if nonce == [] then verdict else verdict ++ (0 ∷ nonce)

module _ (sha : Sha256) where
  unfoldable pub panel_seed : Text → Text → ℕ → ℕ → Text
  panel_seed escrow_id terms instance_no generation =
      panel_domain ++ (sha.sum escrow_id ++ (sha.sum terms ++ (instance_no ∷ generation ∷ [])))

  unfoldable pub hash_commit : Text → Text → Text
  unfolding hex commit_bytes
  hash_commit verdict nonce = hex (sha.sum (commit_bytes verdict nonce))

  unfoldable pub seat_index : Text → ℕ → ℕ → ℕ
  unfolding be_from be_bytes
  seat_index seed seat size = be_from 8 0 (sha.sum (seed ++ be_bytes seat)) % size

  -- The loop over the seats, with the rounds left.
  unfoldable pub seats_from : Text → ℕ → ℕ → List Text → List Text
  unfolding seat_index get_or remove_at
  seats_from seed zero seat remaining = []
  seats_from seed (suc n) seat remaining =
      let idx = seat_index seed seat (length remaining) in
      get_or remaining idx [] ∷ seats_from seed n (seat + 1) (remove_at idx remaining)

  -- `none` is the error "fewer than five eligible volunteers".
  unfoldable pub pick_five : Text → List Text → List Text → Option (List Text)
  unfolding eligible seats_from
  pick_five seed bonded exclude =
      let list = eligible bonded exclude in
      if ltb (length list) 5 then none else some (seats_from seed 5 0 list)
