-- ===== src/Examples.antt =====
-- A small server, the theorems at concrete inputs, and tests of the definitions.
mod Server
mod Memberships
mod Quotes
mod Lists
mod Grants
mod Roles
mod GrantRoles
mod DefaultPrivileges
mod Publications
mod Schemas
mod Databases
mod Slots
mod SecurityLabels
