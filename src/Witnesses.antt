-- ===== src/Witnesses.antt =====
-- Runs of the library's laws on the rows, services and drivers of Samples.
mod Tables
mod Creation
mod Updates
mod Deletion
mod Polling
mod Requests
mod Settings
mod Controllers
mod Clusters
