-- ===== src/Api.antt =====
-- The API of Magnum (magnum/api).
pub mod Versions
pub mod Validation
pub mod Labels
pub mod Quotas
pub mod Resources
pub mod OsResources
pub mod ClusterActions
pub mod NodeGroups
pub mod Clusters
pub mod ClusterUpdates
