-- ===== src/Engine.antt =====
-- internal/game/engine/engine.go: one hand of Texas Hold'em as a state machine. The types and the
-- betting stand in `State` and `Betting`, the showdown in `Scoring`, the streets in `Streets`, and
-- the entry points in `Hand`. The other children hold the proofs.
pub mod State
pub mod Betting
pub mod Scoring
pub mod Streets
pub mod Hand
pub mod Layers
pub mod Winners
pub mod Payout
pub mod Conserve
pub mod Play
pub mod Moves
pub mod Order
pub mod ScoreErrors
pub mod Progress
pub mod Turns
pub mod Entry
pub mod Opening
pub mod Runs
