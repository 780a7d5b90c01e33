-- ===== src/Deals/Digest.antt =====
-- A toy digest that stands in for SHA-256 in runs: the first 32 bytes, padded.
use platarium_gateway_go.Common.{ℕ, zero, suc, ◌%◌, ◌<◌, ◌≡◌, refl, [], ◌∷◌, arith, length, All, ap}
use platarium_gateway_go.Common.Text.{Text}
use platarium_gateway_go.Deals.Panel.{Sha256}

unfoldable pub toy_from : ℕ → Text → Text
toy_from zero s = []
toy_from (suc n) [] = 0 ∷ toy_from n []
toy_from (suc n) (c ∷ s) = c % 256 ∷ toy_from n s

pub length-toy_from : (n : ℕ) (s : Text) → length (toy_from n s) ≡ n
unfolding toy_from
length-toy_from zero s = refl
length-toy_from (suc n) [] = ap suc (length-toy_from n [])
length-toy_from (suc n) (c ∷ s) = ap suc (length-toy_from n s)

pub bytes-toy_from : (n : ℕ) (s : Text) → All (λ c. c < 256) (toy_from n s)
unfolding toy_from
bytes-toy_from zero s = tt
bytes-toy_from (suc n) [] = (omega arith, bytes-toy_from n [])
bytes-toy_from (suc n) (c ∷ s) = (omega arith, bytes-toy_from n s)

unfoldable pub toy : Sha256
toy = record { sum = toy_from 32; length-sum = length-toy_from 32; bytes-sum = bytes-toy_from 32 }
