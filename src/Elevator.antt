-- ===== src/Elevator.antt =====
-- ucsb-io/ucsb-io-2.5.67/drivers/block/elevator.c, the interface between the block layer and an I/O
-- scheduler, a child for each of its parts.
pub mod Merge
pub mod Noop
