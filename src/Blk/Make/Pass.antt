-- ===== src/Blk/Make/Pass.antt =====
-- A pass of `__make_request` in ucsb-io/ucsb-io-2.5.67/drivers/block/ll_rw_blk.c from its label `again`
-- to `out`: the bio joins a request, or gets one.
use ucsb_disk_profiling.Prelude.{
  ℕ, ◌+◌, ◌%◌, Option, none, some, Bool, true, false, not, [], ◌∷◌, ◌++◌, if◌then◌else◌, ◌>>=◌,
}
use ucsb_disk_profiling.Block.{update, ulong_mod}
use ucsb_disk_profiling.Deadline.Insert.{is_best_effort}
use ucsb_disk_profiling.Deadline.Ucsb.{ucsb_io_type}
use ucsb_disk_profiling.Segments.{StructBio, recount_if_stale}
use ucsb_disk_profiling.Blk.Merge.{
  StructRequest, sectors_of, ll_back_merge_fn, ll_front_merge_fn, attempt_merge,
}
use ucsb_disk_profiling.Blk.Free.{get_request, blk_put_request}
use ucsb_disk_profiling.Blk.Stats.{drive_stat_acct, account_join}
use ucsb_disk_profiling.Blk.Plug.{blk_plug_device}
use ucsb_disk_profiling.Blk.Make.{
  Place, nowhere, behind, before, Verdict, no_merge, back_merge, front_merge, Inner, Env, State,
  dir_of_bio, barrier_of, joined_back, joined_front, fresh, PassEnd, out, none_free, set_queued,
  set_inner, sched_bio,
}

module _ {E : Type 0} (k : Env E) where
  -- `attempt_merge` with all its effects: `next` leaves the elevator, and then its free list takes it.
  unfoldable pub join_requests : Inner E → ℕ → ℕ → Option (Bool × Inner E)
  join_requests i r next = do
    (joined, req) ← attempt_merge k.phys k.queue k.rq_mergeable (i.requests r) (i.requests next)
    if joined
        then (do
          lists ← blk_put_request k.sizes (set_queued i.lists next false) true next
          some (
            true,
            record i {
              requests = update i.requests r req;
              elv = k.elevator.elv_merge_requests i.elv r next;
              disks = account_join k.jiffies i.disks req;
              lists = lists;
            },
          ))
        else some (false, record i { requests = update i.requests r req })

  unfoldable pub attempt_back_merge : Inner E → ℕ → Option (Bool × Inner E)
  unfolding join_requests
  attempt_back_merge i r = elim (k.elevator.elv_latter_request i.elv r) [
    | none ↦ some (false, i)
    | some next ↦ join_requests i r next
  ]

  unfoldable pub attempt_front_merge : Inner E → ℕ → Option (Bool × Inner E)
  unfolding join_requests
  attempt_front_merge i r = elim (k.elevator.elv_former_request i.elv r) [
    | none ↦ some (false, i)
    | some prev ↦ join_requests i prev r
  ]

  -- `elv_merged_request`, where the request that grew did not join another.
  abbrev pub merged_request : Bool → Inner E → ℕ → Inner E
  merged_request joined i r =
      if joined then i else record i { elv = k.elevator.elv_merged_request i.elv r }

  -- A request has grown by a bio of `nr_sectors`.
  abbrev pub grown : Inner E → ℕ → StructRequest → ℕ → Inner E
  grown i r req nr_sectors = record i {
    requests = update i.requests r req;
    disks = drive_stat_acct k.jiffies i.disks req nr_sectors false;
  }

  -- The fields of a request that is made for a bio; get_request has cleared `special`.
  unfoldable pub new_request : StructBio → ℕ → StructBio → ℕ → StructRequest
  new_request orig cur_nr_sectors bio dev = record {
    sector = orig.bi_sector;
    nr_sectors = sectors_of orig;
    current_nr_sectors = cur_nr_sectors;
    hard_sector = orig.bi_sector;
    hard_nr_sectors = sectors_of orig;
    hard_cur_sectors = cur_nr_sectors;
    nr_phys_segments = bio.bi_phys_segments;
    nr_hw_segments = bio.bi_hw_segments;
    dir = dir_of_bio bio;
    nomerge = barrier_of bio;
    special = false;
    waiting = false;
    errors = 0;
    rq_disk = some (k.disk_of dev);
    bios = bio ∷ [];
  }

  -- The request is filled, and add_request adds it.
  unfoldable pub add_filled : State E → StructBio → StructRequest → Place → ℕ → State E
  add_filled s bio req place r =
      let i = s.driver in
      let commands = update i.commands r (record {
        rw_bits = bio.bi_rw % 8;
        cmd = true;
        hardbarrier = barrier_of bio;
        softbarrier = barrier_of bio;
        started = false;
        start_time = k.jiffies;
      }) in
      set_inner s (record i {
        requests = update i.requests r req;
        commands = commands;
        disks = drive_stat_acct k.jiffies i.disks req req.nr_sectors true;
        elv = k.elevator.elv_add_request_pos i.elv commands r place;
        lists = set_queued i.lists r true;
      })

  -- Behind `get_rq`, up to `out`.
  unfoldable pub fill_request : State E → StructBio → ℕ → StructBio → Place → ℕ → Option (PassEnd E)
  unfolding new_request add_filled
  fill_request s orig cur_nr_sectors bio place r = do
    counted ← recount_if_stale k.phys k.queue bio
    dev ← bio.bi_bdev
    let req = new_request orig cur_nr_sectors counted dev
    some (out (add_filled s bio req place r) (fresh r place) none)

  -- The label `get_rq`.
  unfoldable pub get_rq :
      State E → StructBio → ℕ → StructBio → Place → Option ℕ → Option (PassEnd E)
  unfolding fill_request
  get_rq s orig cur_nr_sectors bio place (some r) = fill_request s orig cur_nr_sectors bio place r
  get_rq s orig cur_nr_sectors bio place none =
      let (got, lists) = get_request k.sizes s.driver.lists (dir_of_bio orig) in
      let s' = set_inner s (record s.driver { lists = lists }) in
      elim got [
        | none ↦ some (none_free s' bio)
        | some r ↦ fill_request s' orig cur_nr_sectors bio place r
      ]

  -- ELEVATOR_BACK_MERGE; a request that is not mergeable is a BUG.
  unfoldable pub merge_back :
      State E → StructBio → ℕ → StructBio → Option ℕ → ℕ → Option (PassEnd E)
  merge_back s orig cur_nr_sectors bio freereq r =
      let i = s.driver in
      let old = i.requests r in
      if not (k.rq_mergeable old) then none else (do
        m ← ll_back_merge_fn k.phys k.queue old bio
        let total = (m.req.hard_nr_sectors + sectors_of orig) % ulong_mod
        let req = record m.req {
          bios = old.bios ++ (m.bio ∷ []);
          hard_nr_sectors = total;
          nr_sectors = total;
        }
        if m.merged
            then (do
              (joined, i') ← attempt_back_merge (grown i r req (sectors_of orig)) r
              some (out (set_inner s (merged_request joined i' r)) (joined_back r) freereq))
            else get_rq
                (set_inner s (record i {
                  requests = update i.requests r m.req;
                  elv = k.elevator.clear_last_merge i.elv;
                }))
                orig cur_nr_sectors m.bio (behind r) freereq)

  -- ELEVATOR_FRONT_MERGE
  unfoldable pub merge_front :
      State E → StructBio → ℕ → StructBio → Option ℕ → ℕ → Option (PassEnd E)
  merge_front s orig cur_nr_sectors bio freereq r =
      let i = s.driver in
      let old = i.requests r in
      if not (k.rq_mergeable old) then none else (do
        m ← ll_front_merge_fn k.phys k.queue old bio
        let total = (m.req.hard_nr_sectors + sectors_of orig) % ulong_mod
        let req = record m.req {
          bios = m.bio ∷ old.bios;
          current_nr_sectors = cur_nr_sectors;
          hard_cur_sectors = cur_nr_sectors;
          sector = orig.bi_sector;
          hard_sector = orig.bi_sector;
          hard_nr_sectors = total;
          nr_sectors = total;
        }
        if m.merged
            then (do
              (joined, i') ← attempt_front_merge (grown i r req (sectors_of orig)) r
              some (out (set_inner s (merged_request joined i' r)) (joined_front r) freereq))
            else get_rq
                (set_inner s (record i {
                  requests = update i.requests r m.req;
                  elv = k.elevator.clear_last_merge i.elv;
                }))
                orig cur_nr_sectors m.bio (before r) freereq)

  -- `switch (el_ret)`
  abbrev pub by_verdict :
      State E → StructBio → ℕ → StructBio → Option ℕ → Verdict → Option (PassEnd E)
  by_verdict s orig cur_nr_sectors bio freereq (no_merge place) =
      get_rq s orig cur_nr_sectors bio place freereq
  by_verdict s orig cur_nr_sectors bio freereq (back_merge r) =
      merge_back s orig cur_nr_sectors bio freereq r
  by_verdict s orig cur_nr_sectors bio freereq (front_merge r) =
      merge_front s orig cur_nr_sectors bio freereq r

  -- From the label `again` to `out`.
  unfoldable pub pass : State E → StructBio → ℕ → StructBio → Option ℕ → Option (PassEnd E)
  pass s orig cur_nr_sectors bio freereq =
      let i = s.driver in
      if k.elevator.elv_queue_empty i.elv
      then get_rq (blk_plug_device k.strategy k.jiffies s k.self) orig cur_nr_sectors bio nowhere
          freereq
      else if barrier_of bio
      then get_rq s orig cur_nr_sectors bio nowhere freereq
      else (do
        dev ← bio.bi_bdev
        type ← ucsb_io_type k.qos (sched_bio bio (k.disk_of dev))
        if not (is_best_effort type) then get_rq s orig cur_nr_sectors bio nowhere freereq else (do
          (verdict, elv) ← k.elevator.elv_merge i.elv i.requests i.commands bio
          by_verdict (set_inner s (record i { elv = elv })) orig cur_nr_sectors bio freereq
              verdict))
