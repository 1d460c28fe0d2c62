-- ===== src/Blk/Free.antt =====
-- The free lists of requests in ucsb-io/ucsb-io-2.5.67/drivers/block/ll_rw_blk.c, one for each
-- direction, with the congestion flags that follow their counts.
pub mod Counted
pub mod Init
use ucsb_disk_profiling.Prelude.{
  ℕ, zero, suc, ◌+◌, ◌-◌, ◌*◌, ◌%◌, Option, none, some, Bool, true, false, ◌&&◌, List, [], ◌∷◌, ltb,
  leb, ◌==◌, if◌then◌else◌, ◌>>=◌, length, remove,
}
use ucsb_disk_profiling.Block.{Dir, read, write, Both, at, put, update, uint_mod}
use ucsb_disk_profiling.Blk.Queue.{
  QueueSizes, queue_congestion_on_threshold, queue_congestion_off_threshold,
}

-- The fields of `struct request` that allocation uses. `queued` says that `queuelist` is on a list, `rl`
-- names the list that the request belongs to.
pub record Slot : Type 0 where
  pub ref_count : ℕ
  pub active : Bool
  pub has_q : Bool
  pub queued : Bool
  pub rl : Option Dir

-- `q->rq[READ]` and `q->rq[WRITE]`, the two congestion bits of `backing_dev_info`, whether tasks sleep
-- on a list, and how often one was woken. A count is the length of its list, so it is not negative.
pub record FreeLists : Type 0 where
  pub free : Both (List ℕ)
  pub count : Both ℕ
  pub congested : Both Bool
  pub waiting : Both Bool
  pub wakeups : Both ℕ
  pub slots : ℕ → Slot

unfoldable pub set_queue_congested : FreeLists → Dir → FreeLists
set_queue_congested q rw = record q { congested = put q.congested rw true }

-- The tasks that wait for the end of congestion are not part of the model.
unfoldable pub clear_queue_congested : FreeLists → Dir → FreeLists
clear_queue_congested q rw = record q { congested = put q.congested rw false }

abbrev pub set_slot : FreeLists → ℕ → Slot → FreeLists
set_slot q rq s = record q { slots = update q.slots rq s }

-- `rl->count--` and the test behind it.
unfoldable pub take_one : QueueSizes → FreeLists → Dir → FreeLists
unfolding set_queue_congested
take_one sizes q rw =
    let counted = record q { count = put q.count rw (at q.count rw - 1) } in
    if ltb (at counted.count rw) (queue_congestion_on_threshold sizes.queue_nr_requests)
    then set_queue_congested counted rw
    else counted

unfoldable pub take_request : QueueSizes → FreeLists → Dir → List ℕ → Option ℕ × FreeLists
unfolding take_one
take_request sizes q rw [] = (none, q)
take_request sizes q rw (rq ∷ rqs) =
    let taken = take_one sizes (record q { free = put q.free rw rqs }) rw in
    (
      some rq,
      set_slot taken rq
          (record { ref_count = 1; active = true; has_q = true; queued = false; rl = some rw }),
    )

unfoldable pub get_request : QueueSizes → FreeLists → Dir → Option ℕ × FreeLists
unfolding take_request
get_request sizes q rw = take_request sizes q rw (at q.free rw)

-- The end of congestion.
unfoldable pub ease : QueueSizes → FreeLists → Dir → FreeLists
unfolding clear_queue_congested
ease sizes q rw =
    if leb (queue_congestion_off_threshold sizes.queue_nr_requests) (at q.count rw)
    then clear_queue_congested q rw
    else q

-- The wake-up of a task that waits for a request.
unfoldable pub wake : QueueSizes → FreeLists → Dir → FreeLists
wake sizes q rw =
    if leb sizes.batch_requests (at q.count rw) && at q.waiting rw
    then record q { wakeups = put q.wakeups rw (at q.wakeups rw + 1) }
    else q

-- `list_add` to the free list and `rl->count++`, with the two tests behind them.
unfoldable pub give_back : QueueSizes → FreeLists → Dir → ℕ → FreeLists
unfolding ease wake
give_back sizes q rw rq =
    let listed = record q {
      free = put q.free rw (rq ∷ at q.free rw);
      count = put q.count rw (at q.count rw + 1);
    } in
    wake sizes (ease sizes listed rw) rw

-- The last reference of a request goes: by `rl`, it returns to its free list. A request that is still on
-- a list is a BUG.
unfoldable pub release : QueueSizes → FreeLists → ℕ → Slot → Option Dir → Bool → Option FreeLists
unfolding give_back
release sizes q rq dropped none queued =
    some (set_slot q rq (record dropped { active = false; has_q = false }))
release sizes q rq dropped (some rw) true = none
release sizes q rq dropped (some rw) false = some (
    give_back sizes
      (set_slot q rq (record dropped { active = false; has_q = false; rl = none; queued = true }))
      rw rq)

-- `__blk_put_request`, where `has_queue` says that its queue is not NULL.
unfoldable pub blk_put_request : QueueSizes → FreeLists → Bool → ℕ → Option FreeLists
unfolding release
blk_put_request sizes q has_queue rq =
    let s = q.slots rq in
    let dropped = record s { ref_count = (s.ref_count + uint_mod - 1) % uint_mod } in
    if (s.ref_count == 1) && has_queue
    then release sizes q rq dropped s.rl s.queued
    else some (set_slot q rq dropped)

-- One new request on its free list; memset and RQ_INACTIVE leave its fields 0.
unfoldable pub add_free : FreeLists → Dir → ℕ → FreeLists
add_free q rw rq =
    set_slot
      (record q {
        free = put q.free rw (rq ∷ at q.free rw);
        count = put q.count rw (at q.count rw + 1);
      })
      rq (record { ref_count = 0; active = false; has_q = false; queued = true; rl = none })

-- The loop of `blk_init_free_list` from round `i` on; `alloc` gives what kmem_cache_alloc returns in
-- each round. The first component says whether no allocation failed.
unfoldable pub fill_lists : QueueSizes → (ℕ → Option ℕ) → ℕ → ℕ → Dir → FreeLists → Bool × FreeLists
unfolding add_free
fill_lists sizes alloc zero i rl q = (true, q)
fill_lists sizes alloc (suc rounds) i rl q =
    let list = if i == sizes.queue_nr_requests then write else rl in
    let rest = λ (rq : ℕ). fill_lists sizes alloc rounds (i + 1) list (add_free q list rq) in
    elim (alloc i) [ none ↦ (false, q) | some rq ↦ rest rq ]

-- `__blk_cleanup_queue`: the number of requests that it frees.
unfoldable pub cleanup_list : FreeLists → Dir → ℕ × FreeLists
cleanup_list q rw =
    (length (at q.free rw), record q { free = put q.free rw []; count = put q.count rw 0 })

-- `blk_init_free_list` up to the end of its loop, and whether every request was allocated. It goes on to
-- its return of 0 or, at the label `nomem`, to blk_cleanup_queue, which is not modelled.
unfoldable pub init_lists : QueueSizes → (ℕ → Option ℕ) → FreeLists → Bool × FreeLists
unfolding fill_lists
init_lists sizes alloc q = fill_lists sizes alloc (sizes.queue_nr_requests * 2) 0 read (record q {
  free = record { reads = []; writes = [] };
  count = record { reads = 0; writes = 0 };
})
