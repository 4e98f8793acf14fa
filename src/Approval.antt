-- ===== src/Approval.antt =====
-- internal/approval/manager.go. A method takes the world before it and returns the world after it.
-- The store is the object store of Store.antt; the event recorder appends to a list, and its errors
-- are dropped as in the source. The lock makes each step on the map of batches one step.
pub mod State
pub mod Resolve
pub mod Wait
