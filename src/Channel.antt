-- ===== src/Channel.antt =====
-- src/channel: the phases of a channel, from its proposal to its closure.
pub mod Errors
pub mod Types
pub mod Transition
pub mod Active
pub mod Update
pub mod AgreedUpon
pub mod Proposal
pub mod Exchange
pub mod Round
pub mod History
pub mod Withdrawal
pub mod Establishing
