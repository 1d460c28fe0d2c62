-- ===== src/Blk/Make/Joins.antt =====
-- A pass of `__make_request` in ucsb-io/ucsb-io-2.5.67/drivers/block/ll_rw_blk.c where the elevator names
-- a request: the merge, or the way on to `get_rq`.
use ucsb_disk_profiling.Prelude.{
  ℕ, ◌+◌, ◌%◌, ◌≡◌, ◌⊎◌, inl, inr, refl, sym, ap, ◌∙◌, Option, some, Bool, true, false, [], ◌∷◌,
  ◌++◌, arith,
}
use ucsb_disk_profiling.Block.{update, ulong_mod}
use ucsb_disk_profiling.Blk.Queue.{RequestQueue}
use ucsb_disk_profiling.Segments.{StructBio}
use ucsb_disk_profiling.Blk.Merge.{StructRequest, MergeResult, sectors_of}
use ucsb_disk_profiling.Blk.Merge.Within.{WithinLimits}
use ucsb_disk_profiling.Blk.Make.{
  Place, behind, before, Verdict, no_merge, back_merge, front_merge, Inner, Env, State, joined_back,
  joined_front, PassEnd, out, set_inner,
}
use ucsb_disk_profiling.Blk.Make.Well.{IsWell}
use ucsb_disk_profiling.Blk.Make.Grow.{
  declined, allowed, back_end, front_end, behind-IsWell, before-IsWell,
}
use ucsb_disk_profiling.Blk.Make.Pass.{
  merged_request, grown, get_rq, merge_back, merge_front, by_verdict,
}
use ucsb_disk_profiling.Blk.Make.Merged.{
  WellOrClosed, AllWell, update-AllWell, back-AllWell, front-AllWell,
}
use ucsb_disk_profiling.Blk.Make.Keeps.{
  Touches, IsReady, EndsWell, at_out, counted-IsReady, get_rq-EndsWell,
}

closed-IsWell :
    (q : RequestQueue) (req : StructRequest)
    → IsWell q req
    → IsWell q (record req { nomerge = true })
closed-IsWell q req w = record {
  head = w.head;
  rest = w.rest;
  chain = w.chain;
  consecutive = w.consecutive;
  sectors = w.sectors;
  hard = w.hard;
  sectors_in = w.sectors_in;
  no_wrap = w.no_wrap;
  vectors = w.vectors;
  limits = record {
    phys_pos = w.limits.phys_pos;
    hw_pos = w.limits.hw_pos;
    phys_in = w.limits.phys_in;
    hw_in = w.limits.hw_in;
    phys_max = w.limits.phys_max;
    hw_max = w.limits.hw_max;
  };
}

WithinLimits-cong :
    (q : RequestQueue) (a b : StructRequest)
    → a.nr_phys_segments ≡ b.nr_phys_segments
    → a.nr_hw_segments ≡ b.nr_hw_segments
    → WithinLimits q b
    → WithinLimits q a
WithinLimits-cong q a b phys hw w = record {
  phys_pos = omega (arith, phys, w.phys_pos);
  hw_pos = omega (arith, hw, w.hw_pos);
  phys_in = omega (arith, phys, w.phys_in);
  hw_in = omega (arith, hw, w.hw_in);
  phys_max = w.phys_max;
  hw_max = w.hw_max;
}

module _ {E : Type 0} (k : Env E) where
  pub open-IsWell :
      (req : StructRequest) → k.rq_mergeable req ≡ true → WellOrClosed k req → IsWell k.queue req
  open-IsWell req e (inl closed) = absurd (cc)
  open-IsWell req e (inr w) = w

  -- The bio that a refused merge leaves is ready as before.
  left-IsReady :
      (orig bio after : StructBio) (y : IsReady k orig bio)
      → (after ≡ bio) ⊎ (after ≡ y.sound.counted)
      → IsReady k orig after
  left-IsReady orig bio after y (inl same) = rw same y
  left-IsReady orig bio after y (inr counted) = rw counted (counted-IsReady k orig bio y)

  -- A merge that is refused goes on to `get_rq`.
  declined-EndsWell :
      (s : State E) (orig bio : StructBio) (cur : ℕ) (place : Place) (freereq : Option ℕ) (r : ℕ)
      (m : MergeResult) (y : IsReady k orig bio)
      → AllWell k s.driver.requests
      → IsWell k.queue (s.driver.requests r)
      → m.req ≡ record (s.driver.requests r) { nomerge = true }
      → (m.bio ≡ bio) ⊎ (m.bio ≡ y.sound.counted)
      → (p : PassEnd E) × (get_rq k
            (set_inner s (record s.driver {
              requests = update s.driver.requests r m.req;
              elv = k.elevator.clear_last_merge s.driver.elv;
            }))
            orig
            cur
            m.bio
            place
            freereq
          ≡ some p)
        × EndsWell k orig p
  declined-EndsWell s orig bio cur place freereq r m y a w req left =
      let i = s.driver in
      let u = set_inner s (record i {
        requests = update i.requests r m.req;
        elv = k.elevator.clear_last_merge i.elv;
      }) in
      get_rq-EndsWell k u orig m.bio cur place freereq (left-IsReady orig bio m.bio y left) (
        update-AllWell k i.requests r m.req a
          (inr (rw req (closed-IsWell k.queue (i.requests r) w))))

  merged-AllWell :
      (joined : Bool) (after : Inner E) (r : ℕ)
      → AllWell k after.requests
      → AllWell k (merged_request k joined after r).requests
  merged-AllWell true after r a = a
  merged-AllWell false after r a = a

  merge_back-EndsWell :
      (s : State E) (orig bio : StructBio) (cur : ℕ) (freereq : Option ℕ) (r : ℕ)
      → IsReady k orig bio
      → AllWell k s.driver.requests
      → Touches k s.driver.requests bio (back_merge r)
      → (p : PassEnd E) × (merge_back k s orig cur bio freereq r ≡ some p) × EndsWell k orig p
  unfolding merge_back
  merge_back-EndsWell s orig bio cur freereq r y a (mergeable, fits) =
      let i = s.driver in
      let old = i.requests r in
      let w = open-IsWell old mergeable (a r) in
      let (m, run, end) = back_end k.phys k.queue old bio y.sound w in
      elim end [
        | declined stays req left ↦
            let (p, gets, well) =
              declined-EndsWell s orig bio cur (behind r) freereq r m y a w req left in
            (p, ground (arith, mergeable, run, stays, gets), well)
        | allowed phys hw yes_merged req bio_now limits fit ↦
            let total = (m.req.hard_nr_sectors + sectors_of orig) % ulong_mod in
            let new = record m.req {
              bios = old.bios ++ (m.bio ∷ []);
              hard_nr_sectors = total;
              nr_sectors = total;
            } in
            let well : IsWell k.queue new =
              behind-IsWell k.phys k.queue old new bio y.sound w fits
                (omega (arith, y.sector, y.size, y.inside))
                (WithinLimits-cong k.queue new
                  (record old { nr_phys_segments = phys; nr_hw_segments = hw })
                  (ap (λ x. x.nr_phys_segments) req) (ap (λ x. x.nr_hw_segments) req) limits)
                fit (ap (λ x. x.sector) req) (ap (λ b. old.bios ++ (b ∷ [])) bio_now)
                (ap (λ x. (x.hard_nr_sectors + sectors_of orig) % ulong_mod) req
                  ∙ ap (λ n. (old.hard_nr_sectors + n) % ulong_mod) (sym y.size))
                refl in
            let (joined, after, runs, all_well) =
              back-AllWell k (grown k i r new (sectors_of orig)) r
                (update-AllWell k i.requests r new a (inr well)) in
            (
              out (set_inner s (merged_request k joined after r)) (joined_back r) freereq,
              ground (arith, mergeable, run, yes_merged, runs),
              at_out (merged-AllWell joined after r all_well),
            )
      ]

  merge_front-EndsWell :
      (s : State E) (orig bio : StructBio) (cur : ℕ) (freereq : Option ℕ) (r : ℕ)
      → IsReady k orig bio
      → AllWell k s.driver.requests
      → Touches k s.driver.requests bio (front_merge r)
      → (p : PassEnd E) × (merge_front k s orig cur bio freereq r ≡ some p) × EndsWell k orig p
  unfolding merge_front
  merge_front-EndsWell s orig bio cur freereq r y a (mergeable, fits) =
      let i = s.driver in
      let old = i.requests r in
      let w = open-IsWell old mergeable (a r) in
      let (m, run, end) = front_end k.phys k.queue old bio y.sound w in
      elim end [
        | declined stays req left ↦
            let (p, gets, well) =
              declined-EndsWell s orig bio cur (before r) freereq r m y a w req left in
            (p, ground (arith, mergeable, run, stays, gets), well)
        | allowed phys hw yes_merged req bio_now limits fit ↦
            let total = (m.req.hard_nr_sectors + sectors_of orig) % ulong_mod in
            let new = record m.req {
              bios = m.bio ∷ old.bios;
              current_nr_sectors = cur;
              hard_cur_sectors = cur;
              sector = orig.bi_sector;
              hard_sector = orig.bi_sector;
              hard_nr_sectors = total;
              nr_sectors = total;
            } in
            let well : IsWell k.queue new =
              before-IsWell k.phys k.queue old new bio y.sound w fits
                (omega (arith, y.sector, y.size, y.inside))
                (WithinLimits-cong k.queue new
                  (record old { nr_phys_segments = phys; nr_hw_segments = hw })
                  (ap (λ x. x.nr_phys_segments) req) (ap (λ x. x.nr_hw_segments) req) limits)
                fit (sym y.sector) (ap (λ b. b ∷ old.bios) bio_now)
                (ap (λ x. (x.hard_nr_sectors + sectors_of orig) % ulong_mod) req
                  ∙ ap (λ n. (old.hard_nr_sectors + n) % ulong_mod) (sym y.size))
                refl in
            let (joined, after, runs, all_well) =
              front-AllWell k (grown k i r new (sectors_of orig)) r
                (update-AllWell k i.requests r new a (inr well)) in
            (
              out (set_inner s (merged_request k joined after r)) (joined_front r) freereq,
              ground (arith, mergeable, run, yes_merged, runs),
              at_out (merged-AllWell joined after r all_well),
            )
      ]

  pub by_verdict-EndsWell :
      (s : State E) (orig bio : StructBio) (cur : ℕ) (freereq : Option ℕ) (v : Verdict)
      → IsReady k orig bio
      → AllWell k s.driver.requests
      → Touches k s.driver.requests bio v
      → (p : PassEnd E) × (by_verdict k s orig cur bio freereq v ≡ some p) × EndsWell k orig p
  by_verdict-EndsWell s orig bio cur freereq (no_merge place) y a touches =
      get_rq-EndsWell k s orig bio cur place freereq y a
  by_verdict-EndsWell s orig bio cur freereq (back_merge r) y a touches =
      merge_back-EndsWell s orig bio cur freereq r y a touches
  by_verdict-EndsWell s orig bio cur freereq (front_merge r) y a touches =
      merge_front-EndsWell s orig bio cur freereq r y a touches
