-- ===== src/Enrol.antt =====
-- cmd/synctang-unlocker/enrol.go and transportid.go, mrcore/recipient.go, and the key material of
-- cmd/synctang-unlocker/cryptsetup.go: adding, removing and replacing the key holders of a volume by
-- runs of cryptsetup.
pub mod Host
pub mod Entries
pub mod Reading
pub mod Changes
pub mod Kept
mod Late
pub mod Order
pub mod Selection
pub mod Untouched
pub mod Tests
