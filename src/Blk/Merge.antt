-- ===== src/Blk/Merge.antt =====
-- Merging in ucsb-io/ucsb-io-2.5.67/drivers/block/ll_rw_blk.c: whether a bio joins a request and two
-- requests become one, by the limits of the queue.
pub mod Within
pub mod Undercount
use ucsb_disk_profiling.Prelude.{
  ℕ, ◌+◌, ◌-◌, ◌/◌, ◌%◌, ◌^◌, Option, none, some, Bool, true, false, not, ◌&&◌, ◌||◌, List, [], ◌∷◌,
  ◌++◌, ltb, leb, ◌==◌, if◌then◌else◌, ◌>>=◌,
}
use ucsb_disk_profiling.Block.{Dir, read, write, uint_mod, ulong_mod}
use ucsb_disk_profiling.Blk.Queue.{RequestQueue, ushort_mod}
use ucsb_disk_profiling.Segments.{
  BioVec, StructBio, PhysMap, first, virt_mergeable, recount_if_stale, bvec_end, bvec_start,
  blk_phys_contig_segment, blk_hw_contig_segment,
}

-- `struct request`, with the fields that merging and completion use. `bios` is the chain from `bio` by
-- `bi_next` to `biotail`.
pub record StructRequest : Type 0 where
  pub sector : ℕ
  pub nr_sectors : ℕ
  pub current_nr_sectors : ℕ
  pub hard_sector : ℕ
  pub hard_nr_sectors : ℕ
  pub hard_cur_sectors : ℕ
  pub nr_phys_segments : ℕ
  pub nr_hw_segments : ℕ
  pub dir : Dir
  pub nomerge : Bool
  pub special : Bool
  pub waiting : Bool
  pub errors : ℕ
  pub rq_disk : Option ℕ
  pub bios : List StructBio

-- The result of a merge test, with the request, the queue's hint and the bio as it leaves them.
pub record MergeResult : Type 0 where
  pub merged : Bool
  pub req : StructRequest
  pub last_merge : Option ℕ
  pub bio : StructBio

-- bio_sectors
abbrev pub sectors_of : StructBio → ℕ
sectors_of bio = bio.bi_size / 2 ^ 9

-- `biotail`
abbrev pub last_bio : List StructBio → Option StructBio
last_bio [] = none
last_bio (b ∷ []) = some b
last_bio (b ∷ c ∷ cs) = last_bio (c ∷ cs)

abbrev pub same_dir : Dir → Dir → Bool
same_dir read read = true
same_dir write write = true
same_dir read write = false
same_dir write read = false

abbrev pub same_disk : Option ℕ → Option ℕ → Bool
same_disk none none = true
same_disk (some a) (some b) = a == b
same_disk none (some b) = false
same_disk (some a) none = false

unfoldable pub refuse : StructRequest → StructBio → MergeResult
refuse req bio = record {
  merged = false;
  req = record req { nomerge = true };
  last_merge = none;
  bio = bio;
}

-- One less where the last segment of the request and the first of the next are one. An `int` of -1
-- passes the test of the limit as 0 does, and is stored in 16 bits.
abbrev pub joint : ℕ → Bool → ℕ
joint total contig = if contig then total - 1 else total

abbrev pub stored : ℕ → Bool → ℕ
stored total contig = (if contig then total + ushort_mod - 1 else total) % ushort_mod

module _ (k : PhysMap) (q : RequestQueue) where
  unfoldable pub ll_new_mergeable : StructRequest → StructBio → Option MergeResult
  unfolding refuse
  ll_new_mergeable req bio = do
    counted ← recount_if_stale k q bio
    let phys = req.nr_phys_segments + counted.bi_phys_segments
    some (
        if ltb q.max_phys_segments phys then refuse req counted else record {
          merged = true;
          req = record req { nr_phys_segments = phys % ushort_mod };
          last_merge = q.last_merge;
          bio = counted;
        })

  unfoldable pub ll_new_hw_segment : StructRequest → StructBio → Option MergeResult
  unfolding refuse
  ll_new_hw_segment req bio = do
    counted ← recount_if_stale k q bio
    let hw = req.nr_hw_segments + counted.bi_hw_segments
    let phys = req.nr_phys_segments + counted.bi_phys_segments
    some (
        if ltb q.max_hw_segments hw || ltb q.max_phys_segments phys
        then refuse req counted
        else record {
          merged = true;
          req = record req {
            nr_hw_segments = hw % ushort_mod;
            nr_phys_segments = phys % ushort_mod;
          };
          last_merge = q.last_merge;
          bio = counted;
        })

  -- The two tests of a bio's size and of the vectors that would touch; a vector that is not there is a
  -- fault.
  unfoldable pub merge_at :
      StructRequest → StructBio → Option BioVec → Option BioVec → Option MergeResult
  unfolding ll_new_mergeable ll_new_hw_segment refuse
  merge_at req bio end start =
      if ltb q.max_sectors ((req.nr_sectors + sectors_of bio) % ulong_mod)
      then some (refuse req bio)
      else (do
        v1 ← end
        v2 ← start
        if virt_mergeable k v1 v2 then ll_new_mergeable req bio else ll_new_hw_segment req bio)

  unfoldable pub ll_back_merge_fn : StructRequest → StructBio → Option MergeResult
  unfolding merge_at
  ll_back_merge_fn req bio =
      merge_at req bio (do tail ← last_bio req.bios; bvec_end k q tail) (bvec_start k q bio)

  unfoldable pub ll_front_merge_fn : StructRequest → StructBio → Option MergeResult
  unfolding merge_at
  ll_front_merge_fn req bio =
      merge_at req bio (bvec_end k q bio) (do head ← first req.bios; bvec_start k q head)

  unfoldable pub ll_merge_requests_fn :
      StructRequest → StructRequest → Option (Bool × StructRequest)
  ll_merge_requests_fn req next =
      if req.special || next.special
      then some (false, req)
      else if ltb q.max_sectors ((req.nr_sectors + next.nr_sectors) % ulong_mod)
      then some (false, req)
      else (do
        tail ← last_bio req.bios
        head ← first next.bios
        phys_contig ← blk_phys_contig_segment k q tail head
        let phys = req.nr_phys_segments + next.nr_phys_segments
        if ltb q.max_phys_segments (joint phys phys_contig) then some (false, req) else (do
          hw_contig ← blk_hw_contig_segment k q tail head
          let hw = req.nr_hw_segments + next.nr_hw_segments
          some (
              if ltb q.max_hw_segments (joint hw hw_contig) then (false, req) else (
                true,
                record req {
                  nr_phys_segments = stored phys phys_contig;
                  nr_hw_segments = stored hw hw_contig;
                },
              ))))

  -- `attempt_merge`, with `rq_mergeable` of <linux/blkdev.h> as a parameter. The statistics, the
  -- elevator's call and the release of `next` are their callers' parts of the model.
  unfoldable pub attempt_merge :
      (StructRequest → Bool) → StructRequest → StructRequest → Option (Bool × StructRequest)
  unfolding ll_merge_requests_fn
  attempt_merge rq_mergeable req next =
      if not (rq_mergeable req) || not (rq_mergeable next)
      then some (false, req)
      else if not ((req.sector + req.nr_sectors) % ulong_mod == next.sector)
      then some (false, req)
      else if ((not (same_dir req.dir next.dir) || not (same_disk req.rq_disk next.rq_disk))
            || next.waiting)
          || next.special
      then some (false, req)
      else (do
        (fits, merged) ← ll_merge_requests_fn req next
        let sectors = (req.hard_nr_sectors + next.hard_nr_sectors) % ulong_mod
        some (
            if fits
            then (
              true,
              record merged {
                bios = req.bios ++ next.bios;
                hard_nr_sectors = sectors;
                nr_sectors = sectors;
              },
            )
            else (false, merged)))
