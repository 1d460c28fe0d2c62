-- ===== src/Lib.antt =====
-- Disk QoS for Linux 2.5.67 (ucsb-io): the patched block layer.
--
-- A file carries QoS parameters (`struct ucsb_io`, set by ioctl). Direct I/O hands a pointer to them
-- to each bio. The block layer makes requests of bios and merges, tags and completes them, and the
-- deadline scheduler keeps requests with QoS parameters in a queue of their own, beside the sort and
-- fifo lists of Linux.
--
-- Block models the shared data (include/linux/ucsb_io.h, include/linux/bio.h, and the request fields
-- that the code uses). Kernel holds what the repository does not: the red-black tree, hash and time
-- functions and the request macros of Linux, as one record of parameters with the documented laws.
-- Elevator models drivers/block/elevator.c: Merge the merge tests, Noop the noop elevator, as an
-- instance of the elevator that Blk.Make takes as a record. Deadline models
-- drivers/block/deadline-iosched.c: State the data, Ucsb the UCSB queue, Hash the back-merge hash,
-- Sort the trees and the moves to the dispatch queue, Dispatch the choice of the next request,
-- Insert insertion and merging, Init the set-up. Qos models the QoS commands of fs/ioctl.c and what
-- fs/file_table.c and fs/direct-io.c do with `f_qos`; kmalloc and the copies from and to user memory
-- are its parameters. Segments models `struct bio` with its vectors, and the two loops of
-- drivers/block/ll_rw_blk.c that count and map segments; page addresses are parameters. Bio models
-- fs/bio.c: allocation, references, clones and copies, and bio_add_page; Bio.Dirty the dirty pages
-- and bio_unmap_user; what the pools and alloc_page give, and `merge_bvec_fn`, are parameters. Blk
-- models more of ll_rw_blk.c: Queue the limits and sizes, Merge the merge tests and attempt_merge,
-- Complete the loop of __end_that_request_first, Free the lists of free requests, Tags tagged
-- queueing, Plug the plugging of queues, Stats the statistics of a disk, Make the function
-- __make_request, and Submit the way of a bio from submit_bio to a driver. In Plug, Make and Submit
-- the elevator, `request_fn`, `make_request_fn`, the bounce buffers and what other tasks do while
-- one sleeps are parameters. Stats.Timeline and Plug.Timers order the calls of several tasks
-- explicitly, as a list of timed events and as a step relation. Deadline.Invariant and the children
-- of these hold the proofs. Functions keep the names of the source, without leading underscores; a
-- part of a long function behind a label or in a loop has a name of its own. Paths are below
-- ucsb-io/ucsb-io-2.5.67/.
--
-- Pointers are numbers: a request and its deadline_rq share one. The lists of <linux/list.h> are
-- lists of such numbers, and `list_del` takes the number off the list that it is on. A NULL or
-- dangling pointer, BUG_ON and an index out of range are `none`. `unsigned long` and sector_t have
-- 64 bits, `int` 32, with the wrap-around written out; `jiffies` stands still during a call.
-- Segments, Blk and Deadline each read a request through the fields that their code uses; in
-- Blk.Merge the chain of a request's bios is a list, and the vectors of a bio are a value of its
-- own, so that the table that a clone shares is not tracked.
--
-- Loops that are not over a list run on fuel. For the `retry` loop of deadline_add_drq_rb and the
-- barrier's loop the number of requests on the lists, plus one, is enough, since each round takes
-- one off; for the loop inside a bio, the number of its vectors, plus one; for the search of a tag,
-- the words of the bitmap, the last of which is guarded by set bits. For generic_make_request the
-- rank of the device among those that are stacked is enough, for blk_run_queues the number of
-- plugged queues, plus one; how long a task waits for a request is up to the other tasks, and the
-- fuel of get_request_wait is a parameter.
--
-- Not modelled: logging, locks, sysfs, elv_next_request and the set-up in drivers/block/elevator.c,
-- the other ioctls, reference counts of files, how fs/direct-io.c splits user memory into bios,
-- bio_map_user, the bytes of copied pages and the pools' set-up of fs/bio.c, blk_insert_request,
-- blk_get_request, blk_congestion_wait and blk_cleanup_queue of drivers/block/ll_rw_blk.c, with which
-- blk_init_free_list gives up after a failed allocation, genhd.c, /proc, and the SCSI benchmark.
pub mod Prelude
pub mod Block
pub mod Kernel
pub mod Segments
pub mod Bio
pub mod Blk
pub mod Elevator
pub mod Deadline
pub mod Qos
pub mod Tests
