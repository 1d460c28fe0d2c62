-- ===== src/Blk/Plug/Timers.antt =====
-- No plugged queue is forgotten: what every sequence of the calls of plugging in
-- ucsb-io/ucsb-io-2.5.67/drivers/block/ll_rw_blk.c keeps, however they interleave.
use ucsb_disk_profiling.Prelude.{
  ℕ, ◌+◌, ◌≤◌, ◌≡◌, ◌⊎◌, inl, inr, ap, Option, none, some, Bool, true, false, [], ◌∷◌, arith, count,
  count-append, count-remove, ◌≢◌,
}
use ucsb_disk_profiling.Prelude.Tests.{Bool-cases}
use ucsb_disk_profiling.Block.{update}
use ucsb_disk_profiling.Blk.Plug.{
  Plugs, Strategy, serve, blk_plug_device, blk_remove_plug, generic_unplug_device,
  blk_unplug_timeout, blk_unplug_work, blk_start_queue, blk_stop_queue, blk_run_queue,
}

-- One queue: it is on one list at most; its timer is pending only while it is plugged; and while it is
-- plugged, its timer is pending or its work is scheduled.
pub record QueueAwaits (on_lists : ℕ) (timer : Option ℕ) (work : Bool) : Type 0 where
  pub once : on_lists ≤ 1
  pub waits : (timer ≡ none) ⊎ (on_lists ≡ 1)
  pub woken : (on_lists ≡ 0) ⊎ ((timer ≢ none) ⊎ (work ≡ true))

module _ {D : Type 0} where
  abbrev pub IsAwaited : Plugs D → Type 0
  IsAwaited s =
      (q : ℕ)
      → QueueAwaits (count q s.plug_list + count q s.local_list) (s.timer q) (s.unplug_work q)

  plug-IsAwaited :
      (k : Strategy D) (jiffies : ℕ) (s : Plugs D) (q : ℕ)
      → IsAwaited s
      → IsAwaited (blk_plug_device k jiffies s q)
  unfolding blk_plug_device
  plug-IsAwaited k jiffies s q a r = ground (arith, a r, count-append r s.plug_list (q ∷ []))

  -- A queue counts as awaited where its work is scheduled, or runs now.
  abbrev AwaitedAt : Plugs D → ℕ → Type 0
  AwaitedAt s q = IsAwaited (record s { unplug_work = update s.unplug_work q true })

  IsAwaited-at : (s : Plugs D) (q : ℕ) → IsAwaited s → AwaitedAt s q
  IsAwaited-at s q a r = ground (arith, a r)

  remove-IsAwaited : (s : Plugs D) (q : ℕ) → AwaitedAt s q → IsAwaited (blk_remove_plug s q).1
  unfolding blk_remove_plug
  remove-IsAwaited s q a r =
      ground (arith, a r, count-remove r q s.plug_list, count-remove r q s.local_list)

  timeout-IsAwaited : (s : Plugs D) (q : ℕ) → IsAwaited s → IsAwaited (blk_unplug_timeout s q)
  unfolding blk_unplug_timeout
  timeout-IsAwaited s q a r = ground (arith, a r)

  stop-IsAwaited : (s : Plugs D) (q : ℕ) → IsAwaited s → IsAwaited (blk_stop_queue s q)
  unfolding blk_stop_queue
  stop-IsAwaited s q a = remove-IsAwaited s q (IsAwaited-at s q a)

  -- The list of a call of blk_run_queues, as it begins.
  splice-IsAwaited :
      (s : Plugs D)
      → s.local_list ≡ []
      → IsAwaited s
      → IsAwaited (record s { plug_list = []; local_list = s.plug_list })
  splice-IsAwaited s e a r = ground (arith, a r, ap (count r) e)

  -- What a driver does in its `request_fn`: it works on what the elevators and drivers hold, and calls
  -- blk_plug_device, blk_remove_plug and blk_stop_queue, for any queues, as often as it likes.
  pub data Calls (k : Strategy D) (s : Plugs D) : Plugs D → Type 0 where
    begins : Calls k s s
    works : {t : Plugs D} (d : D) → Calls k s t → Calls k s (record t { driver = d })
    plugs : {t : Plugs D} (jiffies q : ℕ) → Calls k s t → Calls k s (blk_plug_device k jiffies t q)
    unplugs : {t : Plugs D} (q : ℕ) → Calls k s t → Calls k s (blk_remove_plug t q).1
    stops : {t : Plugs D} (q : ℕ) → Calls k s t → Calls k s (blk_stop_queue t q)

  Calls-IsAwaited : (k : Strategy D) (s t : Plugs D) → Calls k s t → IsAwaited s → IsAwaited t
  Calls-IsAwaited k s t begins a = a
  Calls-IsAwaited k s t (works {t = u} d c) a = Calls-IsAwaited k s u c a
  Calls-IsAwaited k s t (plugs {t = u} jiffies q c) a =
      plug-IsAwaited k jiffies u q (Calls-IsAwaited k s u c a)
  Calls-IsAwaited k s t (unplugs {t = u} q c) a =
      remove-IsAwaited u q (IsAwaited-at u q (Calls-IsAwaited k s u c a))
  Calls-IsAwaited k s t (stops {t = u} q c) a = stop-IsAwaited u q (Calls-IsAwaited k s u c a)

  module _ (k : Strategy D) (drives : (q : ℕ) (s : Plugs D) → Calls k s (k.request_fn q s)) where
    request_fn-IsAwaited : (q : ℕ) (s : Plugs D) → IsAwaited s → IsAwaited (k.request_fn q s)
    request_fn-IsAwaited q s = Calls-IsAwaited k s (k.request_fn q s) (drives q s)

    serve-IsAwaited : (s : Plugs D) (q : ℕ) → IsAwaited s → IsAwaited (serve k s q)
    serve-IsAwaited s q a = elim (Bool-cases (k.elv_queue_empty s.driver q)) [
      | inl idle ↦ rw idle a
      | inr busy ↦ rw busy (request_fn-IsAwaited q s a)
    ]

    -- The second `del_timer` finds the timer that is deleted already.
    unplugged : Plugs D → ℕ → Plugs D
    unplugged s q = let s' = (blk_remove_plug s q).1 in record s' { timer = update s'.timer q none }

    unplugged-IsAwaited :
        (s : Plugs D) (q : ℕ)
        → (blk_remove_plug s q).0 ≡ true
        → AwaitedAt s q
        → IsAwaited (unplugged s q)
    unfolding unplugged blk_remove_plug
    unplugged-IsAwaited s q removed a r =
        ground (arith, a r, removed, count-remove r q s.plug_list, count-remove r q s.local_list)

    unplug-IsAwaited :
        (s : Plugs D) (q : ℕ) → AwaitedAt s q → IsAwaited (generic_unplug_device k s q)
    unfolding generic_unplug_device unplugged
    unplug-IsAwaited s q a =
        let removed = blk_remove_plug s q in
        elim (Bool-cases removed.0) [
          | inl was ↦ elim (Bool-cases (removed.1.stopped q)) [
            | inl halted ↦ rw (was, halted) (remove-IsAwaited s q a)
            | inr going ↦
                rw (was, going) (serve-IsAwaited (unplugged s q) q (unplugged-IsAwaited s q was a))
          ]
          | inr not_there ↦ rw not_there (remove-IsAwaited s q a)
        ]

    work-IsAwaited : (s : Plugs D) (q : ℕ) → IsAwaited s → IsAwaited (blk_unplug_work k s q)
    unfolding blk_unplug_work
    work-IsAwaited s q a =
        unplug-IsAwaited (record s { unplug_work = update s.unplug_work q false }) q
          (λ r. ground (arith, a r))

    start-IsAwaited : (s : Plugs D) (q : ℕ) → IsAwaited s → IsAwaited (blk_start_queue k s q)
    unfolding blk_start_queue
    start-IsAwaited s q a = elim (Bool-cases (s.stopped q)) [
      | inl halted ↦
          rw halted (serve-IsAwaited (record s { stopped = update s.stopped q false }) q a)
      | inr going ↦ rw going a
    ]

    run-IsAwaited : (s : Plugs D) (q : ℕ) → IsAwaited s → IsAwaited (blk_run_queue k s q)
    unfolding blk_run_queue
    run-IsAwaited s q a =
        request_fn-IsAwaited q (blk_remove_plug s q).1 (remove-IsAwaited s q (IsAwaited-at s q a))

    -- The calls, in any order, and between the rounds of blk_run_queues, which gives up its lock for each
    -- queue.
    pub data Step (jiffies : ℕ) (s : Plugs D) : Plugs D → Type 0 where
      plug : (q : ℕ) → Step jiffies s (blk_plug_device k jiffies s q)
      unplug : (q : ℕ) → Step jiffies s (generic_unplug_device k s q)
      expire : (q expires : ℕ) → s.timer q ≡ some expires → Step jiffies s (blk_unplug_timeout s q)
      work : (q : ℕ) → s.unplug_work q ≡ true → Step jiffies s (blk_unplug_work k s q)
      start : (q : ℕ) → Step jiffies s (blk_start_queue k s q)
      stop : (q : ℕ) → Step jiffies s (blk_stop_queue s q)
      run : (q : ℕ) → Step jiffies s (blk_run_queue k s q)
      run_all :
          s.local_list ≡ [] → Step jiffies s (record s { plug_list = []; local_list = s.plug_list })

    pub data Reach (s : Plugs D) : Plugs D → Type 0 where
      here : Reach s s
      then_ : {t u : Plugs D} (jiffies : ℕ) → Reach s t → Step jiffies t u → Reach s u

    Step-IsAwaited : (jiffies : ℕ) (s t : Plugs D) → Step jiffies s t → IsAwaited s → IsAwaited t
    Step-IsAwaited jiffies s t (plug q) a = plug-IsAwaited k jiffies s q a
    Step-IsAwaited jiffies s t (unplug q) a = unplug-IsAwaited s q (IsAwaited-at s q a)
    Step-IsAwaited jiffies s t (expire q expires e) a = timeout-IsAwaited s q a
    Step-IsAwaited jiffies s t (work q e) a = work-IsAwaited s q a
    Step-IsAwaited jiffies s t (start q) a = start-IsAwaited s q a
    Step-IsAwaited jiffies s t (stop q) a = stop-IsAwaited s q a
    Step-IsAwaited jiffies s t (run q) a = run-IsAwaited s q a
    Step-IsAwaited jiffies s t (run_all e) a = splice-IsAwaited s e a

    -- For drivers whose `request_fn` touches the plugs by blk_plug_device, blk_remove_plug and
    -- blk_stop_queue only: if in a state no queue is on the lists twice, a timer is pending for plugged
    -- queues only, and for each plugged queue its timer is pending or its work is scheduled, then the same
    -- holds of every state that the calls reach from it, in any order.
    pub Reach-IsAwaited : (s t : Plugs D) → IsAwaited s → Reach s t → IsAwaited t
    Reach-IsAwaited s t a here = a
    Reach-IsAwaited s t a (then_ {t = u} jiffies r st) =
        Step-IsAwaited jiffies u t st (Reach-IsAwaited s u a r)
