-- ===== src/Deadline.antt =====
-- ucsb-io/ucsb-io-2.5.67/drivers/block/deadline-iosched.c, the deadline scheduler with UCSB's QoS
-- queue, a child for each of its parts.
pub mod State
pub mod Init
pub mod Ucsb
pub mod Invariant
pub mod Hash
pub mod Sort
pub mod Dispatch
pub mod Insert
