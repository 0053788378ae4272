-- ===== src/Node.antt =====
-- The node, src/node.rs: block production, the two loops of `run` and the handlers of the RPC server.
-- The tasks share the runtime, the pool and the peers behind locks: each handler is one step on them.
pub mod Production
pub mod Loop
pub mod Lives
pub mod Race
pub mod Behind
pub mod Effect
pub mod Rpc
