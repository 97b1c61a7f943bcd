-- ===== src/Session.antt =====
-- One request that the conductor serves: the Cluster and the NodeGroup object that the handler has
-- in hand, the database behind them, and what the request has told other services. A call that may
-- raise is an `Action`; what it has changed before it raised stays changed.
pub mod Monad
pub mod Store
unfoldable pub use Monad.*
