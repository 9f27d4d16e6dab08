-- ===== src/Grant.antt =====
-- postgresql_grant: the handlers of postgresql/resource_postgresql_grant.go, composed of the steps in
-- the modules below.
pub mod Query
pub mod Apply
pub mod Read
pub mod Handlers
pub mod Atomic
pub mod Valid
pub mod Drift
pub mod Exists
