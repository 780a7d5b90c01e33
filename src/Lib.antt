-- ===== src/Lib.antt =====
-- Verification of the Platarium gateway's own logic: the Go packages under internal/.
--
-- The parts and how they interact. The gateway answers HTTP requests (internal/handlers) from
-- the state of its packages. Package deals keeps the disputes over escrowed deals: a dispute
-- seats five volunteers, who commit to a verdict and reveal it, and three equal verdicts are the
-- ruling that is handed to the core. Package contacteconomy keeps the paid requests of strangers
-- to be contacts: a request backed by a lock is pending until its receiver accepts or rejects it
-- or it expires, and contacts may then exchange free messages. Package rating scores the nodes,
-- suspends those that misbehave, and chooses the committees that vote. Package faucet lets an
-- address claim once in each cooldown. Package blockchain keeps the mempool, the pending block
-- and the chain, and has the Core ledger apply what it confirms. Package rewards splits the fees
-- of a block, and package ratelimit bounds the calls of a client. Package protocol decides which
-- address a session owns. Package websocket keeps the sessions of clients and passes their
-- messages on; who may write to whom it asks contacteconomy, and an answer to a contact request
-- it hands there with a proof of protocol and gives back an intent of escrow. The handlers give
-- them the roster, the block height, the clock and the calls of the members; but for websocket,
-- none calls another.
--
-- Files and what they model:
--
--   Common and Common/*: lists, Go strings as lists of bytes, Go maps as association lists or as
--     functions, Boolean tests and machine integers.
--   Deals/Panel, Deals/Sets: PickFive, PanelSeed, HashCommit and the small helpers of
--     internal/deals/book.go; Deals/Panel/Seating has the theorems on the draw.
--   Deals/Quorum: quorumOf and coreOutcome; Deals/Quorum/Majority counts the votes.
--   Deals/Book, Deals/Methods, Deals/Reading: the types Brief, cse (Case), persistCase,
--     persistSnap and Book with its methods; a method is a function from the state to the new
--     state and its result, since it runs under the mutex of the book.
--   Deals/Step: a call on a book as a value, and a sequence of calls.
--   Deals/Case, Deals/Filed, Deals/Invariant, Deals/History, Deals/Growth, Deals/Reopening,
--     Deals/Rulings, Deals/Secrecy: the theorems; Deals/Tests: runs and witnesses.
--   Contacts/Types, Contacts/Store, Contacts/Requests, Contacts/Responses: the types and the
--     methods of Store in internal/contacteconomy/store.go; Contacts/Split: SplitBps of
--     internal/contacteconomy/settle.go.
--   Contacts/Step: a call on a store as a value, and sequences of calls; CreateRequest is its
--     part under the write lock there, of a request that was admitted before, so that every
--     interleaving is a sequence.
--   Contacts/Life, Contacts/Carried, Contacts/History, Contacts/Sound, Contacts/Invariant,
--     Contacts/Keeping, Contacts/Consent, Contacts/Admission, Contacts/Prices, Contacts/Expiry,
--     Contacts/Settlement: the theorems; Contacts/Tests: runs and witnesses.
--   Rating/Scores: NodeScores and its computed scores; Rating/Registry: Registry with its
--     methods and slashing, in internal/rating/registry.go and internal/rating/slashing.go;
--     Rating/Selection: SelectByWeight and SelectCommittee; Rating/Calls: a call on a registry as
--     a value.
--   Rating/Bounds, Rating/Nodes, Rating/Invariant, Rating/Suspension, Rating/Candidates,
--     Rating/Committee: the theorems; Rating/Tests: runs and witnesses.
--   Faucet/Cooldown: CooldownStore of internal/faucet/cooldown.go; Faucet/Calls: a call on a
--     store as a value, and the cooldown; Faucet/Claims: the theorem on refusals; Faucet/Tests:
--     runs and witnesses.
--   Rewards/Xp: ComputeValidationXP of internal/rewards/xp.go.
--   Chain/Types, Chain/Mempool, Chain/Pending: Transaction, BlockRecord, Blockchain and its
--     methods on the mempool and the pending block, in internal/blockchain/blockchain.go and
--     internal/blockchain/mempool_snapshot.go; Chain/Order: the digest helpers of
--     internal/core/dag.go; Chain/Ledger, Chain/Apply: internal/blockchain/tx_core.go and
--     applyConfirmedTransactions; Chain/Persist: persistChain of
--     internal/blockchain/chain_store.go; Chain/Confirm, Chain/Blocks: confirmation, its undoing,
--     and the blocks of peers; Chain/Fork: internal/blockchain/fork_choice.go.
--   Chain/Steps: the calls as a step relation; Chain/Pool, Chain/Members, Chain/Once,
--     Chain/Settled, Chain/Reached, Chain/Confirming, Chain/Writing, Chain/Saving, Chain/Outcome,
--     Chain/Atomic, Chain/Heights, Chain/Shown, Chain/Reordering, Chain/Ranking, Chain/Persisted:
--     the theorems; Chain/Tests: runs and witnesses.
--   Chain/Views: the readers of blocks in internal/blockchain/blockchain.go and
--     internal/blockchain/chain_sync.go, with internal/blockchain/tip_freeze.go; Chain/Headers:
--     the writers of the header and the votes of a block, and
--     internal/blockchain/commit_invariant.go; Chain/Pages: internal/blockchain/blocks_page.go;
--     Chain/Frozen, Chain/Listing: the theorems; Chain/Served: witnesses.
--   Rewards/Split: internal/rewards/rewards.go; Rewards/Fees: the theorem on the split;
--     Limits/Limiter: internal/ratelimit/limiter.go; Limits/Window: the theorem on a window;
--     Rewards/Tests, Limits/Tests: witnesses.
--   Chain/Prune: internal/blockchain/mempool_prune.go; Chain/Pruned, Chain/Thinned: the theorems
--     on it.
--   Protocol/Ownership: internal/protocol/ownership.go; Protocol/Minting: the lemmas and the
--     theorem; Protocol/Tests: witnesses.
--   Sockets/Address, Sockets/Types, Sockets/Sessions, Sockets/Connections, Sockets/Messages,
--     Sockets/Answers: internal/websocket/address.go, and the types and methods of Server in
--     internal/websocket/server.go and internal/websocket/messaging.go; Protocol/Escrow: package
--     escrow and internal/protocol/contact.go.
--   Sockets/Steps: the steps under the lock as a relation; Sockets/Indexes, Sockets/Binding,
--     Sockets/Kept, Sockets/Owned: the sessions; Sockets/Queues, Sockets/Delivery,
--     Sockets/Reconnect: messages; Sockets/Window: the limit on group messages; Sockets/Authority,
--     Contacts/Answered: who answers a contact request; Sockets/Tests: runs and witnesses.
--
-- Choices. A Go map is an association list, but for those of websocket, in the order of one
-- iteration, and theorems about a loop over a map hold for every order. Strings are bytes, taken
-- to be valid UTF-8, so that their JSON form gives them back. SHA-256 is a parameter with its
-- documented length and byte range; where a theorem needs that two inputs do not collide, or
-- that a new case id is new, it says so. The snapshot that flushLocked writes is a field of the
-- book, with a flag that says whether writes succeed. A uint64 that is read from decimal digits
-- wraps modulo 2^64. The functions of package strings are written for ASCII text. The signed
-- integers of Go are ℤ with the wrap-around of 64 bits written out. Times are arguments (the
-- faucet's in nanoseconds since 1970), and so are the draws of math/rand and the float64 product
-- of an uptime penalty. A committee is drawn by recursion on the seats left, since each round
-- fills one, and while the registry stays the same. Every loop is a structural recursion over
-- its list or over the five seats, so no fuel is needed. Package blockchain gives up its lock
-- while Core applies a block: what other calls do then is an argument, a function on the
-- blockchain, the Core state and its snapshot. Its lists hold no nil transaction; a list that a
-- caller passes may. A client of package websocket is its ID, with a table of what the pointers
-- to it see; a map that is read with its zero value is a function. A step on the sessions is
-- what one handler does under the lock; a direct message is modelled as one step, and the clock
-- is read once in it.
--
-- Not modelled: the HTTP handlers, the connections of the websocket server, peers, the client of
-- the Rust core, the RocksDB store, logging and deployment, which are input and output around
-- the packages; the reading of environment variables; the texts of FormatWait in
-- internal/faucet; and the package blockchain's explorer lists and RocksDB reads, and the
-- packages channelidentity and txpool, whose own rules do not take part in the statements below.
pub mod Common
pub mod Deals
pub mod Contacts
pub mod Rating
pub mod Faucet
pub mod Rewards
pub mod Chain
pub mod Limits
pub mod Protocol
pub mod Sockets
