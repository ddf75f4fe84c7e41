-- ===== src/Discovery.antt =====
-- Discovery (internal/discovery/resolver.go).
pub mod Key
pub mod Cache
pub mod Events
pub mod Victims
pub mod Capacity
pub mod Contents
pub mod Stored
pub mod Refreshes
pub mod Epochs
pub mod Invalidated
pub mod Replies
pub mod History
pub mod Clean
pub mod Served
