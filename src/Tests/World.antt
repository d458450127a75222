-- ===== src/Tests/World.antt =====
-- Small concrete versions of what the development takes as parameters.
mod Docs
mod Servers
mod Stores
mod Vaults
mod Offices
pub use Docs.*
pub use Servers.*
pub use Stores.*
pub use Vaults.*
pub use Offices.*
