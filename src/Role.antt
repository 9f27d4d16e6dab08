-- ===== src/Role.antt =====
-- postgresql_role: the handlers of postgresql/resource_postgresql_role.go, composed of the steps in the
-- modules below.
pub mod Settings
pub mod Create
pub mod Read
pub mod Handlers
pub mod Atomic
pub mod SearchPath
pub mod Timeouts
pub mod Renamed
