-- ===== src/Deadline/Insert.antt =====
-- How requests and bios enter ucsb-io/ucsb-io-2.5.67/drivers/block/deadline-iosched.c: insertion,
-- merging, and the neighbours of a request. A fault is `none`.
use ucsb_disk_profiling.Prelude.{
  ℕ, suc, ◌+◌, ◌%◌, Option, none, some, Bool, true, false, not, ◌&&◌, ◌||◌, List, [], ◌∷◌, ◌++◌,
  ◌==◌, if◌then◌else◌, ◌>>=◌, length, remove,
}
use ucsb_disk_profiling.Block.{
  Qos, best_effort, Position, null, list_head, entry, Bio, at, bio_sectors, ulong_mod,
}
use ucsb_disk_profiling.Kernel.{Kernel}
use ucsb_disk_profiling.Elevator.Merge.{
  Merge, no_merge, back_merge, front_merge, elv_rq_merge_ok, elv_try_last_merge,
}
use ucsb_disk_profiling.Deadline.State.{DeadlineData, dir_of, rb_key_of, set_drq}
use ucsb_disk_profiling.Deadline.Ucsb.{ucsb_io_type, ucsb_io_add_request}
use ucsb_disk_profiling.Deadline.Hash.{
  rq_hash_key, dl_invalidate_hash, deadline_del_drq_hash, deadline_add_drq_hash,
  deadline_find_drq_hash,
}
use ucsb_disk_profiling.Deadline.Sort.{
  deadline_find_drq_rb, deadline_del_drq_rb, deadline_add_drq_rb, deadline_add_request,
  deadline_remove_request,
}
use ucsb_disk_profiling.Deadline.Dispatch.{drain}

-- `list_add` behind an entry. One that is not in the queue would take the request elsewhere.
abbrev pub add_behind : ℕ → ℕ → List ℕ → Option (List ℕ)
add_behind n m [] = none
add_behind n m (x ∷ xs) =
    if m == x then some (x ∷ n ∷ xs) else (do ys ← add_behind n m xs; some (x ∷ ys))

-- `list_add(&rq->queuelist, insert_here)`, with `dispatch->prev` for NULL.
abbrev pub add_at : ℕ → Position → List ℕ → Option (List ℕ)
add_at n null xs = some (xs ++ (n ∷ []))
add_at n list_head xs = some (n ∷ xs)
add_at n (entry m) xs = add_behind n m xs

abbrev pub is_best_effort : Qos → Bool
is_best_effort best_effort = true
is_best_effort _ = false

-- The QoS type of a request; one with no bio is best effort.
abbrev pub rq_qos_type : DeadlineData → ℕ → Option Qos
rq_qos_type dd rq = elim (dd.rqs rq).bio [
  | some bio ↦ ucsb_io_type dd.qos bio
  | none ↦ some best_effort
]

-- A hard barrier: everything sorted goes to the dispatch queue, and the barrier behind it.
unfoldable pub insert_barrier : Kernel → DeadlineData → ℕ → Option DeadlineData
insert_barrier k dd rq = do
  drained ←
      drain k (suc (length dd.fifo_list.reads + length dd.fifo_list.writes))
        (record (dl_invalidate_hash dd) { last_merge = none })
  some (record drained { dispatch = drained.dispatch ++ (rq ∷ []) })

-- A best-effort request: into the hash if it can merge, and into the sort and fifo lists.
unfoldable pub insert_best_effort : Kernel → DeadlineData → ℕ → Option DeadlineData
insert_best_effort k dd rq =
    if k.rq_mergeable (dd.rqs rq)
    then (do
      hashed ← deadline_add_drq_hash k dd rq
      deadline_add_request k
          (record hashed {
            last_merge = elim hashed.last_merge [ none ↦ some rq | some m ↦ some m ];
          })
          rq)
    else deadline_add_request k dd rq

-- A UCSB request: the flag, and the queue. A request with no deadline_rq is a NULL dereference.
unfoldable pub insert_ucsb : DeadlineData → ℕ → Option DeadlineData
insert_ucsb dd rq =
    if dd.has_drq rq
    then ucsb_io_add_request (set_drq dd rq (record (dd.drqs rq) { ucsb_flag = true })) rq
    else none

unfoldable pub deadline_insert_request : Kernel → DeadlineData → ℕ → Position → Option DeadlineData
unfolding insert_barrier insert_best_effort insert_ucsb
deadline_insert_request k dd rq insert_here =
    if (dd.rqs rq).hardbarrier
    then insert_barrier k dd rq
    else if not (k.blk_fs_request (dd.rqs rq))
    then (do queue ← add_at rq insert_here dd.dispatch; some (record dd { dispatch = queue }))
    else do
      type ← rq_qos_type dd rq
      if not (is_best_effort type)
          then insert_ucsb dd rq
          else if dd.has_drq rq
          then insert_best_effort k dd rq
          else none

-- `deadline_merge`: the last touched request, the back-merge hash, then the sort list for a front
-- merge. The result, the request to merge with, and the state.
abbrev pub merged_with : DeadlineData → Merge → ℕ → Merge × Option ℕ × DeadlineData
merged_with dd ret rq = (ret, some rq, record dd { last_merge = some rq })

unfoldable pub try_front_merge :
    Kernel → DeadlineData → Bio → Option (Merge × Option ℕ × DeadlineData)
try_front_merge k dd bio =
    let rb_key = (bio.bi_sector + bio_sectors bio) % ulong_mod in
    if dd.front_merges
    then elim (deadline_find_drq_rb dd rb_key bio.bi_dir) [
      | some rq ↦
          if not (rb_key == (dd.rqs rq).sector)
          then none
          else if elv_rq_merge_ok k (dd.rqs rq) bio
          then some (merged_with dd front_merge rq)
          else some (no_merge, none, dd)
      | none ↦ some (no_merge, none, dd)
    ]
    else some (no_merge, none, dd)

unfoldable pub try_back_merge :
    Kernel → DeadlineData → Bio → Option (Merge × Option ℕ × DeadlineData)
try_back_merge k dd bio = do
  (found, dd') ← deadline_find_drq_hash k dd bio.bi_sector
  elim found [
    | some rq ↦
        if not (rq_hash_key dd' rq == bio.bi_sector)
        then none
        else if elv_rq_merge_ok k (dd'.rqs rq) bio
        then some (merged_with dd' back_merge rq)
        else try_front_merge k dd' bio
    | none ↦ try_front_merge k dd' bio
  ]

unfoldable pub deadline_merge :
    Kernel → DeadlineData → Bio → Option (Merge × Option ℕ × DeadlineData)
unfolding try_front_merge try_back_merge
deadline_merge k dd bio =
    let (ret, last) = elv_try_last_merge k dd.rqs dd.last_merge bio in
    let dd' = record dd { last_merge = last } in
    elim ret [
      | no_merge ↦ try_back_merge k dd' bio
      | back_merge ↦ some (back_merge, last, dd')
      | front_merge ↦ some (front_merge, last, dd')
    ]

-- The hash entry always moves, since its key is the end; the sort entry after a front merge.
unfoldable pub reposition : Kernel → DeadlineData → ℕ → Option DeadlineData
reposition k dd req = do
  hashed ← deadline_add_drq_hash k (deadline_del_drq_hash dd req) req
  if (hashed.rqs req).sector == rb_key_of hashed req
      then some hashed
      else deadline_add_drq_rb k (deadline_del_drq_rb k hashed req) req

unfoldable pub deadline_merged_request : Kernel → DeadlineData → ℕ → Option DeadlineData
unfolding reposition
deadline_merged_request k dd req = do
  moved ← reposition k dd req
  some (record moved { last_merge = some req })

-- `list_move(&drq->fifo, &dnext->fifo)`: behind `dnext` on its list.
abbrev pub insert_behind : ℕ → ℕ → List ℕ → List ℕ
insert_behind n m [] = []
insert_behind n m (x ∷ xs) = if m == x then x ∷ n ∷ xs else x ∷ insert_behind n m xs

abbrev pub on_list : ℕ → List ℕ → Bool
on_list n [] = false
on_list n (x ∷ xs) = n == x || on_list n xs

abbrev pub on_fifo : DeadlineData → ℕ → Bool
on_fifo dd n = on_list n dd.fifo_list.reads || on_list n dd.fifo_list.writes

abbrev pub move_fifo : DeadlineData → ℕ → ℕ → DeadlineData
move_fifo dd drq dnext = record dd {
  fifo_list = record {
    reads = insert_behind drq dnext (remove drq dd.fifo_list.reads);
    writes = insert_behind drq dnext (remove drq dd.fifo_list.writes);
  };
}

-- `next` was merged into `req`, which takes over the earlier deadline.
unfoldable pub inherit_expiry : Kernel → DeadlineData → ℕ → ℕ → DeadlineData
inherit_expiry k dd req next =
    let expires = (dd.drqs next).expires in
    if on_fifo dd req && on_fifo dd next
    then (if k.time_before expires (dd.drqs req).expires
        then set_drq (move_fifo dd req next) req (record (dd.drqs req) { expires = expires })
        else dd)
    else dd

unfoldable pub deadline_merged_requests : Kernel → DeadlineData → ℕ → ℕ → Option DeadlineData
unfolding reposition inherit_expiry
deadline_merged_requests k dd req next =
    if dd.has_drq req && dd.has_drq next
    then (do
      moved ← reposition k dd req
      some (deadline_remove_request k (inherit_expiry k moved req next) next))
    else none

unfoldable pub deadline_former_request : Kernel → DeadlineData → ℕ → Option ℕ
deadline_former_request k dd rq = k.rb_prev rq (at dd.sort_list (dir_of dd rq))

unfoldable pub deadline_latter_request : Kernel → DeadlineData → ℕ → Option ℕ
deadline_latter_request k dd rq = k.rb_next rq (at dd.sort_list (dir_of dd rq))
