-- ===== src/Agent.antt =====
-- cmd/synctang-unlocker/agent.go: whom the agent lets answer, the exchange with a key holder, and the
-- choice of systemd's password request.
mod Tests
pub mod Serve
pub mod Peers
pub mod Exchange
pub mod Ask
pub mod Requests
pub mod Devices
pub mod Verified
