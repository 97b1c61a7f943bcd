-- ===== src/Heat.antt =====
-- The driver that builds clusters from stacks of Heat, and the poller that follows them
-- (magnum/drivers/heat/driver.py).
pub mod Names
pub mod Driver
pub mod Poller
pub mod Kubernetes
pub mod Scaling
