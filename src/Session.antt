-- ===== src/Session.antt =====
-- mobile/mobile.go and failure.go: the key holder's side of a recovery, from the dial to the machine's
-- verdict.
pub mod Failure
pub mod Phone
pub mod Key
pub mod Connect
mod Guarded
mod Waits
mod Patience
pub mod Tests
mod Attempt
mod Ready
mod Recovers
pub mod Trial
pub mod Pairer
pub mod Pairing
mod Spending
mod Verdicts
mod PairTests
pub mod Answer
