-- ===== src/FileAgent.antt =====
-- The file agent: samples/python/file-agent/file-agent/file_agent/.
pub mod Models
pub mod ObjectStorage
pub mod DeviceDemo
pub mod Processor
pub mod Database
pub mod Clients
pub mod Cli
pub mod Monitor
pub mod Agreement
mod MonitorTests
mod Tests
mod StorageTests
mod BackendTests
