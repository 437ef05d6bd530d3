-- ===== src/Session.antt =====
-- The session store of python/hypha_rpc/rpc.py.
pub mod Tree
pub mod Timer
pub mod State
pub mod Cleanup
pub mod Promise
pub mod Sweep
pub mod Frame
pub mod WellFormed
pub mod Call
pub mod Peers
pub mod Close
