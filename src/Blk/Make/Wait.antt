-- ===== src/Blk/Make/Wait.antt =====
-- `__make_request` of ucsb-io/ucsb-io-2.5.67/drivers/block/ll_rw_blk.c as a whole: its passes, the wait
-- for a request between them, and what follows `out`.
use ucsb_disk_profiling.Prelude.{
  ℕ, zero, suc, ◌+◌, ◌*◌, ◌/◌, ◌%◌, ◌^◌, Option, none, some, true, [], ◌∷◌, ◌++◌, ◌==◌,
  if◌then◌else◌, ◌>>=◌,
}
use ucsb_disk_profiling.Block.{Dir, uint_mod}
use ucsb_disk_profiling.Segments.{StructBio}
use ucsb_disk_profiling.Blk.Merge.{sectors_of}
use ucsb_disk_profiling.Blk.Complete.{bio_endio, vec_at}
use ucsb_disk_profiling.Blk.Free.{get_request, blk_put_request}
use ucsb_disk_profiling.Blk.Plug.{plugged, generic_unplug_device}
use ucsb_disk_profiling.Blk.Make.{
  Env, State, dir_of_bio, Outcome, PassEnd, out, none_free, set_inner,
}
use ucsb_disk_profiling.Blk.Make.Pass.{pass}

module _ {E : Type 0} (k : Env E) where
  -- A plugged queue with `unplug_thresh` requests is unplugged.
  unfoldable pub unplug_full : State E → State E
  unplug_full s =
      let free = s.driver.lists.count.reads + s.driver.lists.count.writes in
      if plugged s k.self
      then (if 2 * k.sizes.queue_nr_requests == k.queue.unplug_thresh + free
          then generic_unplug_device k.strategy s k.self
          else s)
      else s

  -- Behind `out`: a request that was waited for in vain goes back first.
  unfoldable pub after_out : State E → Option ℕ → Option (State E)
  after_out s none = some (unplug_full s)
  after_out s (some r) = do
    lists ← blk_put_request k.sizes s.driver.lists true r
    some (unplug_full (set_inner s (record s.driver { lists = lists })))

  -- The loop of `get_request_wait` on fuel, from round `n` on.
  unfoldable pub wait_loop : ℕ → ℕ → State E → Dir → Option (ℕ × State E)
  wait_loop zero n s rw = none
  wait_loop (suc fuel) n s rw =
      let slept = k.asleep n s in
      let (got, lists) = get_request k.sizes slept.driver.lists rw in
      let s' = set_inner slept (record slept.driver { lists = lists }) in
      let rest = wait_loop fuel (n + 1) s' rw in elim got [ none ↦ rest | some r ↦ some (r, s') ]

  unfoldable pub get_request_wait : ℕ → State E → Dir → Option (ℕ × State E)
  unfolding wait_loop
  get_request_wait fuel s rw = wait_loop fuel 0 (generic_unplug_device k.strategy s k.self) rw

  -- The pass with the request that was waited for, which does not wait again.
  unfoldable pub last_pass :
      StructBio → ℕ → StructBio → ℕ × State E → Option (Option Outcome × State E)
  last_pass orig cur_nr_sectors bio (r, woken) = do
    p ← pass k woken orig cur_nr_sectors bio (some r)
    elim p [
      | out s outcome freereq ↦ do t ← after_out s freereq; some (some outcome, t)
      | none_free s bio' ↦ none
    ]

  -- `__make_request` behind its first pass. The flag that is tested is bit 1 of `bi_flags`, BIO_RW_BLOCK,
  -- by the number of BIO_RW_AHEAD.
  unfoldable pub behind_pass : ℕ → StructBio → ℕ → PassEnd E → Option (Option Outcome × State E)
  behind_pass fuel orig cur_nr_sectors (out s outcome freereq) = do
    t ← after_out s freereq
    some (some outcome, t)
  behind_pass fuel orig cur_nr_sectors (none_free s bio) =
      if bio.rw_block
      then some (
        none,
        set_inner s (record s.driver {
          ended = s.driver.ended ++ (bio_endio bio (sectors_of orig * 2 ^ 9 % uint_mod) true ∷ []);
        }),
      )
      else (do
        waited ← get_request_wait fuel s (dir_of_bio orig)
        last_pass orig cur_nr_sectors bio waited)

  -- `__make_request`: where the bio is, or nowhere if it was ended.
  unfoldable pub make_request : ℕ → State E → StructBio → Option (Option Outcome × State E)
  make_request fuel s orig = do
    bv ← vec_at orig orig.bi_idx
    p ← pass k s orig (bv.bv_len / 2 ^ 9) (k.bounce orig) none
    behind_pass fuel orig (bv.bv_len / 2 ^ 9) p
