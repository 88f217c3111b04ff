-- ===== src/ArchiveDomain.antt =====
-- The archive of an IoT domain's telemetry: samples/python/archive-domain/archive_domain/.
pub mod Models
pub mod Planner
pub mod Retention
pub mod Exporters
pub mod Connection
pub mod Sql
pub mod State
pub mod Manifest
pub mod Executor
pub mod Service
pub mod Cli
mod Tests
mod RunTests
mod ExportTests
mod CliTests
