-- ===== src/Blk/Make/Exact.antt =====
-- A pass of `__make_request` in ucsb-io/ucsb-io-2.5.67/drivers/block/ll_rw_blk.c as a whole, for any
-- elevator that keeps to the contract of elv_merge.
use ucsb_disk_profiling.Prelude.{ℕ, ◌+◌, ◌<◌, ◌≡◌, inl, inr, Option, some, arith}
use ucsb_disk_profiling.Prelude.Tests.{Bool-cases}
use ucsb_disk_profiling.Block.{Qos, ulong_mod}
use ucsb_disk_profiling.Deadline.Insert.{is_best_effort}
use ucsb_disk_profiling.Deadline.Ucsb.{ucsb_io_type}
use ucsb_disk_profiling.Segments.{StructBio}
use ucsb_disk_profiling.Blk.Merge.{StructRequest, sectors_of}
use ucsb_disk_profiling.Blk.Plug.{blk_plug_device}
use ucsb_disk_profiling.Blk.Make.{
  CommandFlags, nowhere, Verdict, Env, State, barrier_of, PassEnd, set_inner, sched_bio,
}
use ucsb_disk_profiling.Blk.Make.Pass.{pass}
use ucsb_disk_profiling.Blk.Make.Merged.{AllWell}
use ucsb_disk_profiling.Blk.Make.Keeps.{Touches, IsReady, EndsWell, get_rq-EndsWell}
use ucsb_disk_profiling.Blk.Make.Joins.{by_verdict-EndsWell}

module _ {E : Type 0} (k : Env E) where
  -- For well-formed requests and a bio below the end of the sectors, elv_merge returns, and a request that
  -- it names is mergeable and touches the bio.
  abbrev pub NamesTouching : Type 0
  NamesTouching =
      (e : E) (requests : ℕ → StructRequest) (commands : ℕ → CommandFlags) (bio : StructBio)
      (dev : ℕ)
      → AllWell k requests
      → bio.bi_bdev ≡ some dev
      → bio.bi_sector + sectors_of bio < ulong_mod
      → (v : Verdict) × (e' : E) × (k.elevator.elv_merge e requests commands bio ≡ some (v, e'))
        × Touches k requests bio v

  plug_requests :
      (s : State E)
      → (blk_plug_device k.strategy k.jiffies s k.self).driver.requests ≡ s.driver.requests
  unfolding blk_plug_device
  plug_requests s = ground arith

  -- `__make_request`, from `again` to `out`, for a bio that fits the queue and carries a QoS pointer that
  -- can be read, with an elevator that names only mergeable requests that touch the bio: if the bios of
  -- every mergeable request lie one behind the other and make up its sectors, within the limits of the
  -- queue, the pass returns, the same holds of all requests behind it, and a bio that has to wait for a
  -- request is as fit as before.
  pub pass-EndsWell :
      (s : State E) (orig bio : StructBio) (cur : ℕ) (freereq : Option ℕ) (type : Qos)
      (y : IsReady k orig bio)
      → NamesTouching
      → ucsb_io_type k.qos (sched_bio bio (k.disk_of y.sound.dev)) ≡ some type
      → AllWell k s.driver.requests
      → (p : PassEnd E) × (pass k s orig cur bio freereq ≡ some p) × EndsWell k orig p
  unfolding pass
  pass-EndsWell s orig bio cur freereq type y names qos a =
      let plugged = blk_plug_device k.strategy k.jiffies s k.self in
      elim (Bool-cases (k.elevator.elv_queue_empty s.driver.elv)) [
        | inl idle ↦
            let (p, run, well) =
              get_rq-EndsWell k plugged orig bio cur nowhere freereq y (rw (plug_requests s) a) in
            (p, ground (arith, idle, run), well)
        | inr busy ↦
            let (p, run, well) = get_rq-EndsWell k s orig bio cur nowhere freereq y a in
            elim (Bool-cases (barrier_of bio)) [
              | inl barrier ↦ (p, ground (arith, busy, barrier, run), well)
              | inr plain ↦ elim (Bool-cases (is_best_effort type)) [
                | inr real_time ↦
                    (p, ground (arith, busy, plain, y.sound.at_dev, qos, real_time, run), well)
                | inl best_effort ↦
                    let i = s.driver in
                    let inside : bio.bi_sector + sectors_of bio < ulong_mod =
                      omega (arith, y.sector, y.size, y.inside) in
                    let (v, e, merges, touches) =
                      names i.elv i.requests i.commands bio y.sound.dev a y.sound.at_dev inside in
                    let (p', run', well') =
                      by_verdict-EndsWell k (set_inner s (record i { elv = e })) orig bio cur
                        freereq v y a touches in
                    (
                      p',
                      ground (arith, busy, plain, y.sound.at_dev, qos, best_effort, merges, run'),
                      well',
                    )
              ]
            ]
      ]
