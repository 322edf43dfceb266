-- ===== src/Bridge.antt =====
-- src/fh_agent/bridge: the visible bridge, from the local feed to canonical observations.
pub mod Feed
pub mod Snapshot
pub mod Relay
pub mod Sanitizer
pub mod Sprites
pub mod Adapter
pub mod Source
pub mod Firewall
