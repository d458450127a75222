-- ===== src/Handlers.antt =====
-- handlers.go: the handlers of collections, items and activities.
pub mod Services
pub mod Collection
pub mod Item
pub mod Activity
pub mod Proxy
