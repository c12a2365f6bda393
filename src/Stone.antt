-- ===== src/Stone.antt =====
-- The header-only parts of apsara/stone, one child module for each header.
pub mod Closure
pub mod Futures
pub mod IntegerEncoding
pub mod IntrusiveList
pub mod LockFree
pub mod Locks
pub mod Logging
pub mod Raft
pub mod RefCounted
pub mod ScopedPtr
pub mod Singleton
pub mod StringPiece
