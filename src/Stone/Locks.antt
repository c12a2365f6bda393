-- ===== src/Stone/Locks.antt =====
-- apsara/stone/threading/sync/lock.h, one child module for each lock that is not a pthread call alone.
pub mod Scoped
pub mod SpinRw
