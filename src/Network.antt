-- ===== src/Network.antt =====
-- mrcore/transport/network_config.go, parseDiscoveryURL of discovery_lookup.go, and
-- cmd/synctang-unlocker/network.go with its like for the key holder: which relays and discovery servers
-- are used.
pub mod Url
pub mod Config
pub mod File
mod Announced
pub mod Tests
