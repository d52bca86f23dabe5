-- ===== src/Stats.antt =====
-- The flexible statistics queries (src/services/stats): a query in JSON is checked against a
-- whitelist and turned into one parameterised SQL statement.
pub mod Schema
pub mod Body
pub mod Chain
pub mod Text
pub mod Sql
pub mod Union
pub mod Validator
pub mod JoinGraph
pub mod Conditions
pub mod Builder
