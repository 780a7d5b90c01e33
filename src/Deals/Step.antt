-- ===== src/Deals/Step.antt =====
-- The calls that change a `Book` (internal/deals/book.go), as steps, and sequences of them in the
-- order in which they take the mutex.
use platarium_gateway_go.Common.{ℕ, List, [], ◌∷◌}
use platarium_gateway_go.Common.Text.{Text}
use platarium_gateway_go.Deals.Panel.{Sha256}
use platarium_gateway_go.Deals.Book.{Book, set_roster, set_height}
use platarium_gateway_go.Deals.Methods.{open_appeal, commit, reveal_nonce, quorum}

pub data Call : Type 0 where
  rosters : List Text → Call
  heights : ℕ → Call
  opens : Text → Text → Text → List Text → List Text → Text → Call
  commits : Text → Text → Text → Call
  reads_quorum : Text → Call
  reveals : Text → Text → Text → Text → Call

module _ (sha : Sha256) where
  unfoldable pub step : Call → Book → Book
  step (Call.rosters keys) b = set_roster keys b
  step (Call.heights h) b = set_height h b
  step (Call.opens terms block escrow bonded exclude prior) b =
      (open_appeal sha terms block escrow bonded exclude prior b).0
  step (Call.commits id key hash) b = (commit id key hash b).0
  step (Call.reveals id key verdict nonce) b = (reveal_nonce sha id key verdict nonce b).0
  step (Call.reads_quorum id) b = (quorum id b).0

  unfoldable pub run : List Call → Book → Book
  unfolding step
  run [] b = b
  run (c ∷ cs) b = run cs (step c b)
