-- ===== src/Conductor/Cluster.antt =====
-- The handler of magnum/conductor/handlers/cluster_conductor.py. Each function is one method; the
-- cluster and the nodegroup that a method is given are those of the session.
pub mod Create
pub mod Update
pub mod Delete
pub mod Resize
