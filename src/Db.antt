-- ===== src/Db.antt =====
-- magnum/db/sqlalchemy/api.py over the tables of `Objects`: a query is a filter of the rows of a
-- table in their order, and a transaction is a function to the new table.
pub mod Table
pub mod Tenant
pub mod Clusters
pub mod Nodegroups
pub mod Quotas
pub mod Services
pub mod X509KeyPairs
