-- ===== src/Blk.antt =====
-- The block request layer, ucsb-io/ucsb-io-2.5.67/drivers/block/ll_rw_blk.c.
pub mod Complete
pub mod Free
pub mod Make
pub mod Merge
pub mod Plug
pub mod Queue
pub mod Stats
pub mod Submit
pub mod Tags
