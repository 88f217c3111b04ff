-- ===== src/ManageDt.antt =====
-- The manage-dt sample: its access to the data API, and the resources of a digital twin.
pub mod Templates
pub mod Cli
pub mod Query
pub mod DataAccess
pub mod RecentData
pub mod Resources
mod TwinTests
mod ConsoleTests
mod Tests
