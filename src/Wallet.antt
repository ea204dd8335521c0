-- ===== src/Wallet.antt =====
-- app/services/wallet_service.py: the prepaid wallet of a shop owner.
-- An `owner` or `charge` object of the source is loaded in the session, so it is the row of its
-- key. Operations take the owner's key; the clock, and for a new charge its key, are read from
-- the arguments. The row locks of `deduct` (`FOR UPDATE`) make it one step.
pub mod Charge
pub mod Deduct
pub mod Expire
pub mod Remind
pub mod Cost
pub mod Notify
pub mod Invariant
pub mod Ledger
pub mod Pacing
pub mod Credited
pub mod Reach
pub mod Prices
pub mod Fifo
pub mod Closed
mod Examples
