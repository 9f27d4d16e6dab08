-- ===== src/Lib.antt =====
-- Verification library of the PostgreSQL provider for Terraform (postgresql/*.go).
--
-- The provider turns Terraform resources into SQL statements and reads the catalogs back. A resource
-- is a set of handlers (create, read, update, delete) that take the connection and the resource data,
-- open a transaction, change privileges or roles in it under temporary memberships, commit, and read
-- the result into the resource data.
--
-- Files
--   Prelude       tests on numbers and texts, lists, Go's `(value, error)` results with their sequences
--                 over a state, int64 and strconv's Itoa and Atoi
--   Strings       the functions of Go's package strings that the code calls
--   Postgres      lib/pq and database/sql as parameters: quoting of identifiers, the server
--   Terraform     schema.ResourceData: configured attributes, the id, the d.Set calls
--   Transaction   startTransaction, deferredRollback, commit, Exec, Query (postgresql/helpers.go)
--   Catalog       the lookups and advisory locks (postgresql/helpers.go)
--   Slices        sliceContainsStr, arrayDifference, isUniqueArr (postgresql/helpers.go)
--   Quote         pqQuoteLiteral, quoteIdentifyIdent, setToPgIdentList, quoteTableName (postgresql/helpers.go),
--                 and readers of literals and identifiers after the SQL of PostgreSQL
--   Membership    grantRoleMembership, revokeRoleMembership, withRolesGranted (postgresql/helpers.go)
--   Privileges    allowedPrivileges, validatePrivileges, resourcePrivilegesEqual (postgresql/helpers.go)
--   Features      the table of features by server version (postgresql/config.go)
--   Grant         postgresql_grant (postgresql/resource_postgresql_grant.go)
--   GrantRole     postgresql_grant_role (postgresql/resource_postgresql_grant_role.go)
--   Role          postgresql_role (postgresql/resource_postgresql_role.go)
--   DefaultPrivileges  postgresql_default_privileges
--                 (postgresql/resource_postgresql_default_privileges.go)
--   Qualified     getDatabase (postgresql/helpers.go), and ids of the form `database.name`
--   Publication   postgresql_publication (postgresql/resource_postgresql_publication.go)
--   GoMap         maps with text keys; the order of an iteration is a parameter
--   Schema        postgresql_schema (postgresql/resource_postgresql_schema.go)
--   Extension     postgresql_extension (postgresql/resource_postgresql_extension.go)
--   Database      postgresql_database (postgresql/resource_postgresql_database.go)
--   ReplicationSlot  postgresql_replication_slot (postgresql/resource_postgresql_replication_slot.go);
--                 Physical: postgresql_physical_replication_slot
--                 (postgresql/resource_postgresql_physical_replication_slot.go)
--   SecurityLabel  postgresql_security_label (postgresql/resource_postgresql_security_label.go)
--   Examples      small servers, the theorems at concrete inputs, and tests
--
-- A function `fooBar` of the code is `foo_bar` here. A handler works on a `Machine` (the committed state
-- of the server and the resource data), its part between startTransaction and Commit on a `Live` session.
-- An error returns at once with the state that the statements before it have left; the rollback discards
-- the session, but not what d.SetId and d.Set did.
--
-- Conventions
--   * The server, lib/pq, postgresql-acl, the hash in md5, the order of an iteration over a map and the
--     attributes of a resource are arbitrary parameters. What
--     a theorem needs of them is a named hypothesis.
--   * An SQL text that the source writes over several lines stands on one line.
--   * An error is its text; a version at the end of a message is left out. An index out of range is the
--     error of the panic.
--   * A schema.Set is the list of its items.
--   * strings.ToUpper and strings.ToLower are those of ASCII.
--   * Loops are structural recursion. Fuel stands in `digits`, which gets more than the number has
--     digits, and in the readers of qualified names and of lists of objects, which get their length.
--   * Logging, the registry of connections and the resources that are not in the list above are not
--     modelled: they are input and output, or not yet described.
pub mod Prelude
pub mod Strings
pub mod Postgres
pub mod Terraform
pub mod Transaction
pub mod Catalog
pub mod Membership
pub mod Slices
pub mod Quote
pub mod Features
pub mod Privileges
pub mod Grant
pub mod GrantRole
pub mod Role
mod Examples
pub mod DefaultPrivileges
pub mod Qualified
pub mod Publication
pub mod GoMap
pub mod Schema
pub mod Extension
pub mod Database
pub mod ReplicationSlot
pub mod SecurityLabel
