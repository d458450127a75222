-- ===== src/Control.antt =====
-- base.go: the operations of the command line on the storage.
pub mod Store
pub mod Objects
pub mod Deletion
pub mod Types
pub mod Repair
pub mod Addition
pub mod Backing
pub mod Clients
pub mod Service
pub mod Bootstrap
pub mod Credentials
pub mod Signer
pub mod Saver
