-- ===== src/Deadline/Sort.antt =====
-- The sort lists of ucsb-io/ucsb-io-2.5.67/drivers/block/deadline-iosched.c, one tree for each
-- direction, by start sector; and the moves from them to the dispatch queue.
pub mod Move
pub mod Valid
pub mod Add
pub mod Enter
pub mod Request
use ucsb_disk_profiling.Prelude.{
  ℕ, zero, suc, ◌+◌, ◌%◌, Option, none, some, Bool, true, false, List, [], ◌∷◌, ◌++◌, ltb, ◌==◌,
  if◌then◌else◌, ◌>>=◌, remove, length,
}
use ucsb_disk_profiling.Block.{Dir, read, write, Both, at, put, points_to, ulong_mod}
use ucsb_disk_profiling.Kernel.{Kernel, Tree, leaf, node, inorder}
use ucsb_disk_profiling.Deadline.State.{
  DeadlineData, dir_of, rb_key_of, set_drq, set_tree, set_next,
}
use ucsb_disk_profiling.Deadline.Hash.{deadline_del_drq_hash}

-- The result of `__deadline_add_drq_rb`: a request with the same key, or the tree with the new leaf.
pub data Added : Type 0 where
  alias : ℕ → Added
  linked : Tree → Added

abbrev pub in_left : Added → ℕ → Tree → Added
in_left (alias a) d r = alias a
in_left (linked t) d r = linked (node t d r)

abbrev pub in_right : Tree → ℕ → Added → Added
in_right l d (alias a) = alias a
in_right l d (linked t) = linked (node l d t)

-- The descent of `__deadline_add_drq_rb`, with `rb_link_node` at its end.
unfoldable pub add_drq_below : (ℕ → ℕ) → ℕ → Tree → Added
add_drq_below rb_key drq leaf = linked (node leaf drq leaf)
add_drq_below rb_key drq (node l d r) =
    let left = add_drq_below rb_key drq l in
    let right = add_drq_below rb_key drq r in
    if ltb (rb_key drq) (rb_key d)
    then in_left left d r
    else if ltb (rb_key d) (rb_key drq)
    then in_right l d right
    else alias d

-- The descent of `deadline_find_drq_rb`.
unfoldable pub find_drq_below : (ℕ → ℕ) → ℕ → Tree → Option ℕ
find_drq_below rb_key sector leaf = none
find_drq_below rb_key sector (node l d r) =
    let left = find_drq_below rb_key sector l in
    let right = find_drq_below rb_key sector r in
    if ltb sector (rb_key d) then left else if ltb (rb_key d) sector then right else some d

unfoldable pub deadline_find_drq_rb : DeadlineData → ℕ → Dir → Option ℕ
deadline_find_drq_rb dd sector data_dir =
    find_drq_below (rb_key_of dd) sector (at dd.sort_list data_dir)

-- The leftmost node; an empty tree is a NULL dereference.
unfoldable pub find_first : Tree → Option ℕ
find_first leaf = none
find_first (node leaf d r) = some d
find_first (node (node l d r) e s) = find_first (node l d r)

unfoldable pub deadline_find_first_drq : DeadlineData → Dir → Option ℕ
unfolding find_first
deadline_find_first_drq dd data_dir = find_first (at dd.sort_list data_dir)

unfoldable pub deadline_del_drq_rb : Kernel → DeadlineData → ℕ → DeadlineData
deadline_del_drq_rb k dd drq =
    let data_dir = dir_of dd drq in
    let tree = at dd.sort_list data_dir in
    let advanced =
      (if points_to (at dd.next_drq data_dir) drq
        then set_next dd data_dir (k.rb_next drq tree)
        else dd) in
    if (dd.drqs drq).on_rb
    then set_drq (set_tree advanced data_dir (k.rb_erase drq tree)) drq
        (record (dd.drqs drq) { on_rb = false })
    else advanced

-- `list_del_init(&drq->fifo)`: the node leaves the list that it is on.
abbrev pub del_fifo : DeadlineData → ℕ → DeadlineData
del_fifo dd drq = record dd {
  fifo_list = record {
    reads = remove drq dd.fifo_list.reads;
    writes = remove drq dd.fifo_list.writes;
  };
}

-- `list_del_init(&rq->queuelist)`
abbrev pub del_queuelist : DeadlineData → ℕ → DeadlineData
del_queuelist dd rq = record dd {
  dispatch = remove rq dd.dispatch;
  ucsb_queue = remove rq dd.ucsb_queue;
}

-- The part of `deadline_remove_request` that concerns the deadline_rq.
unfoldable pub remove_drq : Kernel → DeadlineData → ℕ → DeadlineData
remove_drq k dd rq =
    if (dd.drqs rq).ucsb_flag
    then set_drq dd rq (record (dd.drqs rq) { ucsb_flag = false })
    else deadline_del_drq_rb k (deadline_del_drq_hash (del_fifo dd rq) rq) rq

abbrev pub forget_last_merge : DeadlineData → ℕ → DeadlineData
forget_last_merge dd rq = record dd {
  last_merge = if points_to dd.last_merge rq then none else dd.last_merge;
}

unfoldable pub deadline_remove_request : Kernel → DeadlineData → ℕ → DeadlineData
unfolding remove_drq
deadline_remove_request k dd rq =
    del_queuelist (forget_last_merge (if dd.has_drq rq then remove_drq k dd rq else dd) rq) rq

unfoldable pub deadline_move_to_dispatch : Kernel → DeadlineData → ℕ → DeadlineData
deadline_move_to_dispatch k dd drq =
    let removed = deadline_remove_request k dd drq in
    record removed { dispatch = removed.dispatch ++ (drq ∷ []) }

unfoldable pub deadline_move_request : Kernel → DeadlineData → ℕ → DeadlineData
deadline_move_request k dd drq =
    let data_dir = dir_of dd drq in
    let rbnext = k.rb_next drq (at dd.sort_list data_dir) in
    deadline_move_to_dispatch k
      (record dd {
        next_drq = put (record { reads = none; writes = none }) data_dir rbnext;
        last_sector = ((dd.rqs drq).sector + (dd.rqs drq).nr_sectors) % ulong_mod;
      })
      drq

-- The `retry` loop on fuel; `none` also where the fuel runs out.
unfoldable pub retry_add_drq_rb : Kernel → ℕ → DeadlineData → ℕ → Option DeadlineData
retry_add_drq_rb k zero dd drq = none
retry_add_drq_rb k (suc fuel) dd drq =
    elim (add_drq_below (rb_key_of dd) drq (at dd.sort_list (dir_of dd drq))) [
      | linked t ↦ some (
          set_drq (set_tree dd (dir_of dd drq) (k.rb_insert_color drq t)) drq
            (record (dd.drqs drq) { on_rb = true }))
      | alias a ↦ retry_add_drq_rb k fuel (deadline_move_request k dd a) drq
    ]

-- Every retry takes a request off the tree.
unfoldable pub deadline_add_drq_rb : Kernel → DeadlineData → ℕ → Option DeadlineData
deadline_add_drq_rb k dd drq =
    retry_add_drq_rb k (suc (length (inorder (at dd.sort_list (dir_of dd drq)))))
      (set_drq dd drq (record (dd.drqs drq) { rb_key = (dd.rqs drq).sector })) drq

unfoldable pub deadline_add_request : Kernel → DeadlineData → ℕ → Option DeadlineData
deadline_add_request k dd drq = do
  sorted ← deadline_add_drq_rb k dd drq
  let data_dir = dir_of dd drq
  let expires = (dd.jiffies + at dd.fifo_expire data_dir) % ulong_mod
  some (record (set_drq sorted drq (record (sorted.drqs drq) { expires = expires })) {
    fifo_list = put sorted.fifo_list data_dir (at sorted.fifo_list data_dir ++ (drq ∷ []));
  })
