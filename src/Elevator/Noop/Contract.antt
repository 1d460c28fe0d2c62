-- ===== src/Elevator/Noop/Contract.antt =====
-- The noop elevator of ucsb-io/ucsb-io-2.5.67/drivers/block/elevator.c behind `__make_request`: the
-- requests that it names.
use ucsb_disk_profiling.Prelude.{
  ℕ, ◌+◌, ◌-◌, ◌%◌, ◌<◌, ◌≡◌, ◌⊎◌, inl, inr, refl, ◌∙◌, ap, Option, none, some, Bool, true, false,
  not, ◌||◌, List, [], ◌∷◌, rejoin, if◌then◌else◌, arith,
}
use ucsb_disk_profiling.Prelude.Tests.{Bool-cases}
use ucsb_disk_profiling.Block.{Qos, ulong_mod}
use ucsb_disk_profiling.Kernel.{Kernel}
use ucsb_disk_profiling.Deadline.Ucsb.{ucsb_io_type}
use ucsb_disk_profiling.Segments.{StructBio}
use ucsb_disk_profiling.Blk.Merge.{StructRequest, sectors_of}
use ucsb_disk_profiling.Elevator.Merge.{Merge, elv_rq_merge_ok, elv_try_merge, elv_try_last_merge}
use ucsb_disk_profiling.Elevator.Noop.{
  NoopQueue, as_bio, as_request, named, scan, try_hint, elevator_noop_merge, elevator_noop,
}
use ucsb_disk_profiling.Blk.Make.{
  CommandFlags, nowhere, no_merge, Verdict, Env, State, PassEnd, sched_bio,
}
use ucsb_disk_profiling.Blk.Make.Pass.{pass}
use ucsb_disk_profiling.Blk.Make.Merged.{AllWell}
use ucsb_disk_profiling.Blk.Make.Keeps.{Touches, IsReady, EndsWell}
use ucsb_disk_profiling.Blk.Make.Joins.{open-IsWell}
use ucsb_disk_profiling.Blk.Make.Exact.{NamesTouching, pass-EndsWell}

Merge-cases :
    (m : Merge) → (m ≡ Merge.no_merge) ⊎ ((m ≡ Merge.back_merge) ⊎ (m ≡ Merge.front_merge))
Merge-cases Merge.no_merge = inl refl
Merge-cases Merge.back_merge = inr (inl refl)
Merge-cases Merge.front_merge = inr (inr refl)

-- What a merge test that succeeds has found.
back_found :
    (kernel : Kernel) (req : StructRequest) (flags : CommandFlags) (bio : StructBio) (disk : ℕ)
    → elv_try_merge kernel (as_request req flags) (as_bio disk bio) ≡ Merge.back_merge
    → (kernel.rq_mergeable (as_request req flags) ≡ true)
      × ((req.sector + req.nr_sectors) % ulong_mod ≡ bio.bi_sector)
unfolding elv_try_merge elv_rq_merge_ok
back_found kernel req flags bio disk e = (ground (arith, e), ground (arith, e))

front_found :
    (kernel : Kernel) (req : StructRequest) (flags : CommandFlags) (bio : StructBio) (disk : ℕ)
    → elv_try_merge kernel (as_request req flags) (as_bio disk bio) ≡ Merge.front_merge
    → (kernel.rq_mergeable (as_request req flags) ≡ true)
      × ((req.sector + ulong_mod - sectors_of bio) % ulong_mod ≡ bio.bi_sector)
unfolding elv_try_merge elv_rq_merge_ok
front_found kernel req flags bio disk e = (ground (arith, e), ground (arith, e))

module _ (kernel : Kernel) (k : Env NoopQueue)
    (covers : (req : StructRequest) (flags : CommandFlags)
      → kernel.rq_mergeable (as_request req flags) ≡ true
      → k.rq_mergeable req ≡ true)
    (requests : ℕ → StructRequest) (commands : ℕ → CommandFlags) (bio : StructBio) (disk : ℕ)
    (well : AllWell k requests) (inside : bio.bi_sector + sectors_of bio < ulong_mod) where
  named-Touches :
      (r : ℕ) (missed : Verdict × Option ℕ)
      → Touches k requests bio missed.0
      → Touches k requests bio
          (named
            (elv_try_merge kernel (as_request (requests r) (commands r)) (as_bio disk bio))
            r
            missed).0
  named-Touches r missed t =
      let req = requests r in
      let ret = elv_try_merge kernel (as_request req (commands r)) (as_bio disk bio) in
      elim (Merge-cases ret) [
        | inl neither ↦ rw neither t
        | inr (inl back) ↦
            let (mergeable, meets) = back_found kernel req (commands r) bio disk back in
            rw back (covers req (commands r) mergeable, meets)
        | inr (inr front) ↦
            let (mergeable, meets) = front_found kernel req (commands r) bio disk front in
            let open_now = covers req (commands r) mergeable in
            let w = open-IsWell k req open_now (well r) in
            rw front (open_now, omega (arith, meets, w.no_wrap, inside))
      ]

  either-Touches :
      (test : Bool) (x y : Verdict × Option ℕ)
      → Touches k requests bio x.0
      → Touches k requests bio y.0
      → Touches k requests bio (if test then x else y).0
  either-Touches true x y s t = s
  either-Touches false x y s t = t

  scan-Touches :
      (hint : Option ℕ) (rs : List ℕ)
      → Touches k requests bio
          (scan kernel (λ r. as_request (requests r) (commands r)) (as_bio disk bio) hint rs).0
  unfolding scan
  scan-Touches hint [] = tt
  scan-Touches hint (r ∷ rs) =
      let stop : Verdict × Option ℕ = (no_merge nowhere, hint) in
      let flags = commands r in
      let rest =
        scan kernel (λ n. as_request (requests n) (commands n)) (as_bio disk bio) hint rs in
      let tried =
        named (elv_try_merge kernel (as_request (requests r) flags) (as_bio disk bio)) r rest in
      let onward =
        either-Touches (not flags.cmd) rest tried (scan-Touches hint rs)
          (named-Touches r rest (scan-Touches hint rs)) in
      either-Touches (flags.softbarrier || flags.hardbarrier) stop _ tt
        (either-Touches flags.started stop _ tt onward)

  hint-Touches :
      (last_merge : Option ℕ) (scanned : Verdict × Option ℕ)
      → Touches k requests bio scanned.0
      → Touches k requests bio
          (try_hint kernel
            (elv_try_last_merge kernel
              (λ r. as_request (requests r) (commands r))
              last_merge
              (as_bio disk bio))
            scanned).0
  unfolding elv_try_last_merge
  hint-Touches none scanned t = t
  hint-Touches (some r) scanned t =
      elim (Bool-cases (not (kernel.rq_mergeable (as_request (requests r) (commands r))))) [
        | inl closed ↦ rw closed t
        | inr tried ↦ rw tried (named-Touches r scanned t)
      ]

  noop-Touches :
      (e : NoopQueue)
      → Touches k requests bio
          (elevator_noop_merge kernel e
            (λ r. as_request (requests r) (commands r))
            (as_bio disk bio)).0
  unfolding elevator_noop_merge
  noop-Touches e =
      let rqs = λ (r : ℕ). as_request (requests r) (commands r) in
      let last = elv_try_last_merge kernel rqs e.last_merge (as_bio disk bio) in
      hint-Touches e.last_merge (scan kernel rqs (as_bio disk bio) last.1 (rejoin e.queue_head []))
        (scan-Touches last.1 (rejoin e.queue_head []))

module _ (kernel : Kernel) (k : Env NoopQueue) (same : k.elevator ≡ elevator_noop kernel k.disk_of)
    (covers : (req : StructRequest) (flags : CommandFlags)
      → kernel.rq_mergeable (as_request req flags) ≡ true
      → k.rq_mergeable req ≡ true) where
  noop-NamesTouching : NamesTouching k
  noop-NamesTouching e requests commands bio dev well at_dev inside =
      let rqs = λ (r : ℕ). as_request (requests r) (commands r) in
      let found = elevator_noop_merge kernel e rqs (as_bio (k.disk_of dev) bio) in
      (
        found.0,
        found.1,
        ap (λ x. x.elv_merge e requests commands bio) same ∙ ground (arith, at_dev),
        noop-Touches kernel k covers requests commands bio (k.disk_of dev) well inside e,
      )

  -- `__make_request`, from `again` to `out`, on a queue with the noop elevator, for a bio that fits the
  -- queue and carries a QoS pointer that can be read, where the elevator's requests that can be merged are
  -- among those of the block layer: if the bios of every mergeable request lie one behind the other and
  -- make up its sectors, within the limits of the queue, the pass returns and the same holds of all
  -- requests behind it.
  pub noop_pass-EndsWell :
      (s : State NoopQueue) (orig bio : StructBio) (cur : ℕ) (freereq : Option ℕ) (type : Qos)
      (y : IsReady k orig bio)
      → ucsb_io_type k.qos (sched_bio bio (k.disk_of y.sound.dev)) ≡ some type
      → AllWell k s.driver.requests
      → (p : PassEnd NoopQueue) × (pass k s orig cur bio freereq ≡ some p) × EndsWell k orig p
  noop_pass-EndsWell s orig bio cur freereq type y qos a =
      pass-EndsWell k s orig bio cur freereq type y noop-NamesTouching qos a
