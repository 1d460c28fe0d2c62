-- ===== src/Blk/Plug.antt =====
-- Plugging in ucsb-io/ucsb-io-2.5.67/drivers/block/ll_rw_blk.c: queues wait on a list, to gather
-- requests, until they are run.
pub mod Timers
pub mod Run
use ucsb_disk_profiling.Prelude.{
  ℕ, zero, suc, ◌+◌, ◌%◌, Option, none, some, Bool, true, false, not, ◌||◌, List, [], ◌∷◌, ◌++◌,
  ltb, ◌==◌, if◌then◌else◌, length, count, remove,
}
use ucsb_disk_profiling.Block.{update, ulong_mod}

-- `blk_plug_list` and the `local_plug_list` of the one call of blk_run_queues that is under way, the
-- expiry of each queue's `unplug_timer` where it is pending, whether its `unplug_work` is scheduled,
-- QUEUE_FLAG_STOPPED, and what the elevators and drivers hold.
pub record Plugs (D : Type 0) : Type 0 where
  pub plug_list : List ℕ
  pub local_list : List ℕ
  pub timer : ℕ → Option ℕ
  pub unplug_work : ℕ → Bool
  pub stopped : ℕ → Bool
  pub driver : D

-- The calls of a queue: `elv_queue_empty` and its `request_fn`, which may plug or stop queues itself.
pub record Strategy (D : Type 0) : Type 0 where
  pub elv_queue_empty : D → ℕ → Bool
  pub request_fn : ℕ → Plugs D → Plugs D
  pub unplug_delay : ℕ → ℕ

module _ {D : Type 0} where
  -- blk_queue_plugged: `plug_list` of the queue is on one of the lists.
  abbrev pub plugged : Plugs D → ℕ → Bool
  plugged s q = ltb 0 (count q s.plug_list + count q s.local_list)

  unfoldable pub blk_plug_device : Strategy D → ℕ → Plugs D → ℕ → Plugs D
  blk_plug_device k jiffies s q = if plugged s q then s else record s {
    plug_list = s.plug_list ++ (q ∷ []);
    timer = update s.timer q (some ((jiffies + k.unplug_delay q) % ulong_mod));
  }

  -- `list_del_init` takes the queue off the list that it is on.
  unfoldable pub blk_remove_plug : Plugs D → ℕ → Bool × Plugs D
  blk_remove_plug s q =
      if plugged s q
      then (
        true,
        record s {
          plug_list = remove q s.plug_list;
          local_list = remove q s.local_list;
          timer = update s.timer q none;
        },
      )
      else (false, s)

  -- The timer of a queue expires: it is pending no more, and the work is scheduled.
  unfoldable pub blk_unplug_timeout : Plugs D → ℕ → Plugs D
  blk_unplug_timeout s q = record s {
    timer = update s.timer q none;
    unplug_work = update s.unplug_work q true;
  }

  unfoldable pub blk_stop_queue : Plugs D → ℕ → Plugs D
  unfolding blk_remove_plug
  blk_stop_queue s q =
      let (removed, s') = blk_remove_plug s q in record s' { stopped = update s'.stopped q true }

  module _ (k : Strategy D) where
    -- The call of `request_fn` for a queue that has something to do.
    abbrev pub serve : Plugs D → ℕ → Plugs D
    serve s q = if k.elv_queue_empty s.driver q then s else k.request_fn q s

    -- `__generic_unplug_device`
    unfoldable pub generic_unplug_device : Plugs D → ℕ → Plugs D
    unfolding blk_remove_plug
    generic_unplug_device s q =
        let (removed, s') = blk_remove_plug s q in
        if not removed || s'.stopped q
        then s'
        else serve (record s' { timer = update s'.timer q none }) q

    -- The work runs, with `generic_unplug_device` as `unplug_fn`.
    unfoldable pub blk_unplug_work : Plugs D → ℕ → Plugs D
    unfolding generic_unplug_device
    blk_unplug_work s q =
        generic_unplug_device (record s { unplug_work = update s.unplug_work q false }) q

    unfoldable pub blk_start_queue : Plugs D → ℕ → Plugs D
    blk_start_queue s q =
        if s.stopped q then serve (record s { stopped = update s.stopped q false }) q else s

    -- `__blk_run_queue`
    unfoldable pub blk_run_queue : Plugs D → ℕ → Plugs D
    unfolding blk_remove_plug
    blk_run_queue s q = k.request_fn q (blk_remove_plug s q).1

    -- The loop of `blk_run_queues` on fuel, with `generic_unplug_device` as `unplug_fn`.
    unfoldable pub run_local : ℕ → Plugs D → Option (Plugs D)
    run_local zero s = none
    run_local (suc fuel) s = elim s.local_list [
      | [] ↦ some s
      | q ∷ qs ↦ run_local fuel (generic_unplug_device s q)
    ]

    -- `list_splice_init` moves the queues to the list of the call.
    unfoldable pub blk_run_queues : ℕ → Plugs D → Option (Plugs D)
    blk_run_queues fuel s = elim s.plug_list [
      | [] ↦ some s
      | q ∷ qs ↦ run_local fuel (record s { plug_list = []; local_list = s.plug_list })
    ]
