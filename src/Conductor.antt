-- ===== src/Conductor.antt =====
-- The conductor of magnum/conductor: the interface of the drivers, the handlers for clusters,
-- nodegroups and the CA, and the helpers that they share.
pub mod Driver
pub mod Trust
pub mod Certs
pub mod Cluster
pub mod Nodegroup
pub mod Ca
