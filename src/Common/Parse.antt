-- ===== src/Common/Parse.antt =====
-- strconv.ParseUint and strconv.ParseInt at base 10 and 64 bits.
use Prim.Native.Nat.{ℕ, ◌+◌, ◌-◌, ◌*◌, ◌^◌}
use mathlib.Core.Bool.{◌&&◌}
use mathlib.Core.Option.{Option, none, some}
use mathlib.Core.List.{[], ◌∷◌}
use platarium_gateway_go.Common.Tests.{ltb, leb, if◌then◌else◌, ◌==◌, nat_eq}
use platarium_gateway_go.Common.Text.{Text}
use platarium_gateway_go.Common.Int.{ℤ, pos, negsuc}

unfoldable pub digits_from : Text → ℕ → Option ℕ
digits_from [] n = some n
digits_from (c ∷ s) n =
    let rest = digits_from s (n * 10 + (c - 48)) in if leb 48 c && leb c 57 then rest else none

-- The number that a text of decimal digits denotes, without a bound.
unfoldable pub digits : Text → Option ℕ
unfolding digits_from
digits [] = none
digits (c ∷ s) = digits_from (c ∷ s) 0

-- `none` where ParseUint returns an error.
unfoldable pub parse_uint64 : Text → Option ℕ
unfolding digits
parse_uint64 s =
    let n : Option ℕ = digits s in
    elim n [ none ↦ none | some k ↦ if ltb k (2 ^ 64) then some k else none ]

abbrev pub clamp_positive : Option ℕ → ℤ
clamp_positive none = pos 0
clamp_positive (some n) = if ltb n (2 ^ 63) then pos n else pos (2 ^ 63 - 1)

abbrev pub clamp_negative : Option ℕ → ℤ
clamp_negative none = pos 0
clamp_negative (some n) =
    if n == 0 then pos 0 else if ltb (2 ^ 63) n then negsuc (2 ^ 63 - 1) else negsuc (n - 1)

-- The number that ParseInt returns, whether or not it also returns an error.
unfoldable pub parse_int64 : Text → ℤ
unfolding digits
parse_int64 [] = pos 0
parse_int64 (c ∷ s) =
    if c == 43
    then clamp_positive (digits s)
    else if c == 45
    then clamp_negative (digits s)
    else clamp_positive (digits (c ∷ s))
