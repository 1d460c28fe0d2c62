-- ===== src/Deadline/Dispatch.antt =====
-- The choice of the next request in ucsb-io/ucsb-io-2.5.67/drivers/block/deadline-iosched.c:
-- batches, expiry, starved writes, and UCSB's priorities around them. A fault is `none`.
pub mod Total
pub mod Drain
pub mod Policy
pub mod Starvation
pub mod Turns
use ucsb_disk_profiling.Prelude.{
  ℕ, zero, suc, ◌+◌, ◌%◌, Option, none, some, Bool, true, false, not, ◌&&◌, List, [], ◌∷◌, ◌++◌,
  pos, ltb, leb, ◌==◌, if◌then◌else◌, ◌>>=◌, length,
}
use ucsb_disk_profiling.Block.{
  list_empty, Dir, read, write, Both, at, points_to, uint_mod, ucsb_def_priority,
}
use ucsb_disk_profiling.Kernel.{Kernel, Tree, leaf, node}
use ucsb_disk_profiling.Deadline.State.{DeadlineData}
use ucsb_disk_profiling.Deadline.Sort.{deadline_find_first_drq, deadline_move_request}
use ucsb_disk_profiling.Deadline.Ucsb.{ucsb_io_dispatch_request}

-- `list_entry(head->next)`; an empty list has no entry to give.
abbrev pub head_entry : List ℕ → Option ℕ
head_entry [] = none
head_entry (x ∷ xs) = some x

-- RB_EMPTY
abbrev pub rb_empty : Tree → Bool
rb_empty leaf = true
rb_empty (node l d r) = false

unfoldable pub deadline_check_fifo : Kernel → DeadlineData → Dir → Option Bool
deadline_check_fifo k dd ddir = do
  drq ← head_entry (at dd.fifo_list ddir)
  some (k.time_after dd.jiffies (dd.drqs drq).expires)

-- The label `dispatch_request`.
unfoldable pub dispatch_request : Kernel → DeadlineData → ℕ → DeadlineData
dispatch_request k dd drq =
    deadline_move_request k (record dd { batching = (dd.batching + 1) % uint_mod }) drq

abbrev pub end_batch : DeadlineData → DeadlineData
end_batch dd = record dd { batching = 0 }

-- The label `dispatch_find_request`.
unfoldable pub dispatch_find_request : Kernel → DeadlineData → Dir → Option DeadlineData
dispatch_find_request k dd data_dir = do
  expired ← deadline_check_fifo k dd data_dir
  if expired
      then (do
        drq ← head_entry (at dd.fifo_list data_dir)
        some (dispatch_request k (end_batch dd) drq))
      else elim (at dd.next_drq data_dir) [
        | some drq ↦ some (dispatch_request k dd drq)
        | none ↦ do
          drq ← deadline_find_first_drq dd data_dir
          some (dispatch_request k (end_batch dd) drq)
      ]

-- The label `dispatch_writes`.
unfoldable pub dispatch_writes : Kernel → DeadlineData → Option DeadlineData
dispatch_writes k dd =
    if rb_empty dd.sort_list.writes
    then none
    else dispatch_find_request k (record dd { starved = 0 }) write

-- The choice of the direction where no batch runs.
unfoldable pub select_direction : Kernel → DeadlineData → Option (Bool × DeadlineData)
select_direction k dd =
    let reads = not (list_empty dd.fifo_list.reads) in
    let writes = not (list_empty dd.fifo_list.writes) in
    let tried = record dd { starved = (dd.starved + 1) % uint_mod } in
    if reads
    then (if rb_empty dd.sort_list.reads
        then none
        else if writes
        then (if leb dd.writes_starved dd.starved
            then (do dd' ← dispatch_writes k tried; some (true, dd'))
            else (do dd' ← dispatch_find_request k tried read; some (true, dd')))
        else (do dd' ← dispatch_find_request k dd read; some (true, dd')))
    else if writes
    then (do dd' ← dispatch_writes k dd; some (true, dd'))
    else some (false, dd)

-- The request that continues the batch: the write if both directions have one.
abbrev pub batch_request : DeadlineData → Option ℕ
batch_request dd = elim dd.next_drq.writes [ some drq ↦ some drq | none ↦ dd.next_drq.reads ]

-- A batch ends on a request that does not begin at the head position.
abbrev pub charge_seek : DeadlineData → ℕ → DeadlineData
charge_seek dd drq =
    if dd.last_sector == (dd.rqs drq).sector
    then dd
    else record dd { batching = (dd.batching + dd.fifo_batch) % uint_mod }

unfoldable pub deadline_dispatch_requests : Kernel → DeadlineData → Option (Bool × DeadlineData)
deadline_dispatch_requests k dd = elim (batch_request dd) [
  | none ↦ select_direction k dd
  | some drq ↦
      let charged = charge_seek dd drq in
      if ltb charged.batching charged.fifo_batch
      then some (true, dispatch_request k charged drq)
      else select_direction k charged
]

-- One of the three attempts to fill the dispatch queue, `dispatch:` behind it.
abbrev pub or_else :
    Option (Bool × DeadlineData)
    → (DeadlineData → Option (Option ℕ × DeadlineData))
    → Option (Option ℕ × DeadlineData)
or_else m next = do (sent, dd) ← m; if sent then some (head_entry dd.dispatch, dd) else next dd

unfoldable pub deadline_next_request : Kernel → DeadlineData → Option (Option ℕ × DeadlineData)
deadline_next_request k dd =
    if not (list_empty dd.dispatch)
    then some (head_entry dd.dispatch, dd)
    else or_else (ucsb_io_dispatch_request dd ucsb_def_priority) λ after_high.
      or_else (deadline_dispatch_requests k after_high) λ after_linux.
        or_else (ucsb_io_dispatch_request after_linux (pos 0)) λ after_low. some (none, after_low)

-- `while (deadline_dispatch_requests(dd));` on fuel.
unfoldable pub drain : Kernel → ℕ → DeadlineData → Option DeadlineData
drain k zero dd = none
drain k (suc fuel) dd = do
  (sent, dd') ← deadline_dispatch_requests k dd
  if sent then drain k fuel dd' else some dd'

unfoldable pub deadline_queue_empty : DeadlineData → Bool
deadline_queue_empty dd =
    ((list_empty dd.fifo_list.writes && list_empty dd.fifo_list.reads) && list_empty dd.ucsb_queue)
    && list_empty dd.dispatch
