-- ===== src/Command.antt =====
-- The command line: run.go and the commands.
pub mod Run
pub mod Signals
pub mod Objects
pub mod Import
pub mod Accounts
pub mod OAuth
pub mod Add
pub mod Listing
