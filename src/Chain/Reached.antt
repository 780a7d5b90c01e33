-- ===== src/Chain/Reached.antt =====
-- Every state that the calls of internal/blockchain reach keeps the invariant of Chain/Once.
use mathlib.Core.List.{Pairwise}
use mathlib.Core.List.Pairwise
use mathlib.Core.List.Sublist
use mathlib.Core.Logic.Or
use platarium_gateway_go.Common.{not, Option, List, keep_if}
use platarium_gateway_go.Common.Text.{Text}
use platarium_gateway_go.Chain.Types.{Transaction, Blockchain}
use platarium_gateway_go.Chain.Mempool.{hash_in}
use platarium_gateway_go.Chain.Pending.{present, hashes_of}

abbrev others_of : List (Option Transaction) → Blockchain → List Transaction
others_of txs bc = keep_if (λ tx. not (hash_in (hashes_of (present txs)) tx)) bc.mempool
