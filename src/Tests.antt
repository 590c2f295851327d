-- ===== src/Tests.antt =====
-- Runs of the definitions at concrete inputs, and each theorem at an input that meets its
-- hypotheses.
mod CardTests
mod EngineTests
mod TableTests
mod CosignTests
mod MoneyTests
mod DedupTests
mod PokerTests
mod HandTests
mod SessionTests
mod LedgerTests
mod SeatTests
mod AgentTests
mod RefundTests
