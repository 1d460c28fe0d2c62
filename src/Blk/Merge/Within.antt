-- ===== src/Blk/Merge/Within.antt =====
-- Two requests become one within the limits of the queue: attempt_merge of
-- ucsb-io/ucsb-io-2.5.67/drivers/block/ll_rw_blk.c.
use ucsb_disk_profiling.Prelude.{
  ℕ, ◌+◌, ◌%◌, ◌≤◌, ◌<◌, ◌≡◌, ◌⊎◌, inl, inr, refl, some, Bool, true, false, not, ◌&&◌, ◌||◌, ◌++◌,
  ltb, ◌==◌, arith,
}
use ucsb_disk_profiling.Prelude.Tests.{Bool-cases}
use ucsb_disk_profiling.Block.{Dir, read, write, ulong_mod}
use ucsb_disk_profiling.Blk.Queue.{RequestQueue, ushort_mod}
use ucsb_disk_profiling.Segments.{
  BioVec, StructBio, PhysMap, first, bvec_end, bvec_start, blk_phys_contig_segment,
  blk_hw_contig_segment, phys_mergeable, virt_mergeable, fits_segment,
}
use ucsb_disk_profiling.Blk.Merge.{
  StructRequest, last_bio, ll_merge_requests_fn, attempt_merge, same_dir, same_disk, joint, stored,
}

-- The counts of a request are positive and fit the limits of its queue, which fit their fields.
pub record WithinLimits (q : RequestQueue) (req : StructRequest) : Type 0 where
  pub phys_pos : 1 ≤ req.nr_phys_segments
  pub hw_pos : 1 ≤ req.nr_hw_segments
  pub phys_in : req.nr_phys_segments ≤ q.max_phys_segments
  pub hw_in : req.nr_hw_segments ≤ q.max_hw_segments
  pub phys_max : q.max_phys_segments < ushort_mod
  pub hw_max : q.max_hw_segments < ushort_mod

-- The vectors that would touch are there.
pub record Touching (k : PhysMap) (q : RequestQueue) (req next : StructRequest) : Type 0 where
  pub tail : StructBio
  pub head : StructBio
  pub v1 : BioVec
  pub v2 : BioVec
  pub at_tail : last_bio req.bios ≡ some tail
  pub at_head : first next.bios ≡ some head
  pub at_v1 : bvec_end k q tail ≡ some v1
  pub at_v2 : bvec_start k q head ≡ some v2

-- `r` is `req` with `next` behind it.
pub record IsJoined (q : RequestQueue) (req next r : StructRequest) : Type 0 where
  pub adjacent : (req.sector + req.nr_sectors) % ulong_mod ≡ next.sector
  pub same_direction : req.dir ≡ next.dir
  pub sectors_in : (req.nr_sectors + next.nr_sectors) % ulong_mod ≤ q.max_sectors
  pub sector : r.sector ≡ req.sector
  pub nr_sectors : r.nr_sectors ≡ (req.hard_nr_sectors + next.hard_nr_sectors) % ulong_mod
  pub hard_nr_sectors : r.hard_nr_sectors ≡ r.nr_sectors
  pub bios : r.bios ≡ req.bios ++ next.bios
  pub within : WithinLimits q r

same_dir-eq : (a b : Dir) → same_dir a b ≡ true → a ≡ b
same_dir-eq read read e = refl
same_dir-eq write write e = refl
same_dir-eq read write e = absurd (cc)
same_dir-eq write read e = absurd (cc)

module _ (k : PhysMap) (q : RequestQueue) (req next : StructRequest)
    (t : Touching k q req next) where
  phys_contig_total : (b : Bool) × (blk_phys_contig_segment k q t.tail t.head ≡ some b)
  unfolding blk_phys_contig_segment
  phys_contig_total = elim (Bool-cases q.cluster) [
    | inl on ↦ (
      phys_mergeable k t.v1 t.v2 && fits_segment k q t.tail t.head t.v1 t.v2,
      rw (on, t.at_v1, t.at_v2) refl,
    )
    | inr off ↦ (false, rw off refl)
  ]

  pub hw_contig_total : (b : Bool) × (blk_hw_contig_segment k q t.tail t.head ≡ some b)
  unfolding blk_hw_contig_segment
  hw_contig_total = elim (Bool-cases q.cluster) [
    | inl on ↦ (
      virt_mergeable k t.v1 t.v2 && fits_segment k q t.tail t.head t.v1 t.v2,
      rw (on, t.at_v1, t.at_v2) refl,
    )
    | inr off ↦ (false, rw off refl)
  ]

  -- What `ll_merge_requests_fn` allows, and that it leaves the request alone otherwise.
  merge_requests_total :
      WithinLimits q req
      → WithinLimits q next
      → (ll_merge_requests_fn k q req next ≡ some (false, req))
        ⊎ ((phys hw : ℕ) × (ll_merge_requests_fn k q req next
              ≡ some (true, record req { nr_phys_segments = phys; nr_hw_segments = hw }))
            × ((req.nr_sectors + next.nr_sectors) % ulong_mod ≤ q.max_sectors)
            × (1 ≤ phys)
            × (phys ≤ q.max_phys_segments)
            × (1 ≤ hw)
            × (hw ≤ q.max_hw_segments))
  unfolding ll_merge_requests_fn
  merge_requests_total a b =
      let (c, p) = phys_contig_total in
      let (d, h) = hw_contig_total in
      let phys = req.nr_phys_segments + next.nr_phys_segments in
      let hw = req.nr_hw_segments + next.nr_hw_segments in
      elim (Bool-cases (req.special || next.special)) [
        | inl e ↦ inl (rw e refl)
        | inr e ↦
            elim (Bool-cases (ltb q.max_sectors ((req.nr_sectors + next.nr_sectors) % ulong_mod))) [
              | inl f ↦ inl (rw (e, f) refl)
              | inr f ↦ elim (Bool-cases (ltb q.max_phys_segments (joint phys c))) [
                | inl g ↦ inl (ground (arith, e, f, t.at_tail, t.at_head, p, g))
                | inr g ↦ elim (Bool-cases (ltb q.max_hw_segments (joint hw d))) [
                  | inl i ↦ inl (ground (arith, e, f, t.at_tail, t.at_head, p, g, h, i))
                  | inr i ↦ inr (
                    stored phys c,
                    stored hw d,
                    ground (arith, e, f, t.at_tail, t.at_head, p, g, h, i),
                    ground (arith, f),
                    ground (arith, g, a, b),
                    ground (arith, g, a, b),
                    ground (arith, i, a, b),
                    ground (arith, i, a, b),
                  )
                ]
              ]
            ]
      ]

  -- Requests within their limits, with their tables: attempt_merge does not fault. Either it refuses and
  -- leaves the request as it is, or `next` begins where the request ends, goes the same way, and the
  -- result has the bios and sectors of both, within the limits of the queue.
  pub attempt_merge-IsJoined :
      (rq_mergeable : StructRequest → Bool)
      → WithinLimits q req
      → WithinLimits q next
      → (attempt_merge k q rq_mergeable req next ≡ some (false, req))
        ⊎ ((r : StructRequest) × (attempt_merge k q rq_mergeable req next ≡ some (true, r))
            × IsJoined q req next r)
  unfolding attempt_merge
  attempt_merge-IsJoined rq_mergeable a b =
      elim (Bool-cases (not (rq_mergeable req) || not (rq_mergeable next))) [
        | inl e ↦ inl (rw e refl)
        | inr e ↦ elim (Bool-cases ((req.sector + req.nr_sectors) % ulong_mod == next.sector)) [
          | inr f ↦ inl (rw (e, f) refl)
          | inl f ↦
              elim (Bool-cases (
                ((not (same_dir req.dir next.dir) || not (same_disk req.rq_disk next.rq_disk))
                  || next.waiting)
                || next.special)) [
                  | inl g ↦ inl (rw (e, f, g) refl)
                  | inr g ↦ elim (merge_requests_total a b) [
                    | inl h ↦ inl (rw (e, f, g, h) refl)
                    | inr (phys, hw, h, s, p1, p2, h1, h2) ↦
                        let sectors = (req.hard_nr_sectors + next.hard_nr_sectors) % ulong_mod in
                        inr (
                          record req {
                            nr_phys_segments = phys;
                            nr_hw_segments = hw;
                            bios = req.bios ++ next.bios;
                            hard_nr_sectors = sectors;
                            nr_sectors = sectors;
                          },
                          rw (e, f, g, h) refl,
                          record {
                            adjacent = ground (arith, f);
                            same_direction = same_dir-eq req.dir next.dir (ground (arith, g));
                            sectors_in = s;
                            sector = refl;
                            nr_sectors = refl;
                            hard_nr_sectors = refl;
                            bios = refl;
                            within = record {
                              phys_pos = p1;
                              hw_pos = h1;
                              phys_in = p2;
                              hw_in = h2;
                              phys_max = a.phys_max;
                              hw_max = a.hw_max;
                            };
                          },
                        )
                  ]
                ]
        ]
      ]
