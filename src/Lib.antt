-- ===== src/Lib.antt =====
-- A verification library for brc100-poker, a peer-to-peer poker game on BSV.
--
-- A hand is played by the betting engine (internal/game/engine/engine.go), which scores showdowns
-- with the evaluator (internal/game/eval/eval.go) over cards (internal/game/cards/cards.go). The
-- seats of a table, their identities, refunds and stakes are kept by the table
-- (internal/protocol/table/table.go). Before a seat signs away its part of the pot, it checks the
-- settlement or the refund against its own record (internal/protocol/cosign).
--
-- Base: the shared names, Boolean tests, lists, integers, and text as bytes.
-- Cards: cards.go. Eval: eval.go, `score5` and the loop over combinations.
-- Engine: engine.go. State has the types, Betting `commit`, `postBlind`, `nextAbleToAct` and
--   `Legal`, Scoring `scoreAndPay`, Streets `advance`, `nextStreet`, `settle` and the deferred
--   reveals, Hand `New` and `Apply`. Layers, Winners and Payout are about the side pots, Conserve,
--   Play and Moves about chips, Order, ScoreErrors, Progress, Turns and Entry about the order of a
--   hand, Opening about `New`, and Runs about whole hands.
-- Table: table.go. Roster and Joining are about seats and identities, Phases and Frozen about
--   sequences of calls.
-- Money: internal/protocol/table/moneystate.go, what each seat is told about its funds. Refund and
--   Runs are about the refund before the stake, Outcome about stalls and settlements.
-- Dedup: `Dedup` of internal/protocol/transport/transport.go; Once is about what it retains.
-- Cosign: verify.go, shared_refund.go and `FindPotInput` of pot.go, in internal/protocol/cosign.
--   Tally is about the sums by script, Settlement about settlements, Refunds and
--   Shared about refunds. Building has `BuildRefund` of settle.go; Entries and Accepting are
--   about its refunds. Pot has the rest of pot.go, Assembly is about `Assemble`.
-- Ledger: internal/wallet/potledger/potledger.go, pots and attempts as rows of a database. Seats is
--   about the text of the seats, Recovery about attempts with no outcome.
-- MentalPoker: curve.go, and in Deck deck.go, of internal/game/mentalpoker. Masks is about masks and
--   their removal, Permutations about `ValidatePermutation`, Shuffles and Remasks about one step, Bases
--   about the base deck, Deals and Reads about the whole deal, where each seat works on the
--   deck of the seat before it.
-- Proof: internal/game/proof/proof.go, the commitments to a pass over the deck. Fields is about the
--   bytes that are hashed, Binding about accepted openings. Seats has the seed and the order of the
--   seats; Sorting and Order are about their independence of the order of arrival.
-- Hand: internal/protocol/table/hand.go, with the passes of the deal in Passes and the commitments of
--   the other seats in Peers. Reading is about `Card`, Binding about recorded commitments.
-- Session: messages.go and session.go of internal/protocol/table; Receive is about what reaches a
--   handler.
-- Agent: `RecordStake` and `handleSignPot` of internal/agent/agent.go; Signing is about what a signature
--   tells. Deal has the handlers of internal/agent/deal.go, Secrets is about what they give away.
--   Refund has internal/agent/refund.go, Repaid is about what a refund pays.
-- Tests: runs at concrete inputs.
--
-- A method that writes through a pointer returns the new state beside its result, also when it
-- errs. The chips of a hand are numbers, from 0 on. `New` sets no upper bound on them, so that the
-- sums and products at the end of a hand can wrap in the code; there the model stops with the error
-- `overflowed`, and past it says nothing of the code. `Pot` and the smallest raise of `Legal` wrap as
-- in the code. The number of cards that `New` asks of a deck is exact: a count of hole cards so large
-- that it wraps in the code is outside the model. A seat index that may be -1 and the target of a
-- raise are integers. The street loop of the engine runs on fuel, four streets at most;
-- that it never runs out is part of what is shown of `Apply` and `SupplyBoard`. A panic is an error of
-- its own. Identity keys are bytes; what the SDK gives for a transaction, a script, a key or a hash is
-- a parameter, or a value of the fields that are read. `strings.ToLower` and `strings.TrimSpace` are
-- those on ASCII. Locks have no counterpart, since each method is one step.
--
-- The curve of the SDK and the modular inverse are a record of operations, with the laws of a group of
-- prime order as a hypothesis, which the tests show for a group of seven elements. SHA-256 is a
-- parameter with no law. The random secrets of a hand, the JSON of envelopes and the handlers of a
-- session are parameters.
--
-- Not modelled: the wallet, the transports, the HTTP services and the commands.
pub mod Base
pub mod Cards
pub mod Eval
pub mod Engine
pub mod Table
pub mod Cosign
pub mod Money
pub mod Dedup
pub mod MentalPoker
pub mod Proof
pub mod Hand
pub mod Session
pub mod Ledger
pub mod Agent
mod Tests
