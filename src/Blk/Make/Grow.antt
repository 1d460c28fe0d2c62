-- ===== src/Blk/Make/Grow.antt =====
-- A bio joins a request in `__make_request` of ucsb-io/ucsb-io-2.5.67/drivers/block/ll_rw_blk.c: what
-- ll_back_merge_fn and ll_front_merge_fn leave of the request.
use ucsb_disk_profiling.Prelude.{
  ℕ, ◌+◌, ◌-◌, ◌%◌, ◌≤◌, ◌<◌, ◌≡◌, ◌⊎◌, inl, inr, refl, ap, ◌∙◌, some, true, false, [], ◌∷◌, ◌++◌,
  ◌==◌, ltb, ◌||◌, arith,
}
use ucsb_disk_profiling.Prelude.Tests.{Bool-cases}
use ucsb_disk_profiling.Block.{ulong_mod}
use ucsb_disk_profiling.Blk.Queue.{RequestQueue, ushort_mod}
use ucsb_disk_profiling.Segments.{
  BioVec, StructBio, PhysMap, first, skip, virt_mergeable, recount_if_stale,
}
use ucsb_disk_profiling.Blk.Merge.{
  StructRequest, MergeResult, sectors_of, refuse, ll_new_mergeable, ll_new_hw_segment, merge_at,
  ll_back_merge_fn, ll_front_merge_fn,
}
use ucsb_disk_profiling.Blk.Merge.Within.{WithinLimits}
use ucsb_disk_profiling.Blk.Make.Well.{
  Consecutive-append, Consecutive-cong, total_sectors, total_sectors-append, AllVectors-append,
  AllVectors-cong, HasVectors, IsWell, last_of, first_of, bvec_end_total, bvec_start_total,
}

module _ (k : PhysMap) (q : RequestQueue) where
  -- What a recount leaves of a bio.
  pub record Recounted (bio counted : StructBio) : Type 0 where
    pub runs : recount_if_stale k q bio ≡ some counted
    pub again : recount_if_stale k q counted ≡ some counted
    pub sector : counted.bi_sector ≡ bio.bi_sector
    pub size : counted.bi_size ≡ bio.bi_size
    pub device : counted.bi_bdev ≡ bio.bi_bdev
    pub table : counted.bi_io_vec ≡ bio.bi_io_vec
    pub vcnt : counted.bi_vcnt ≡ bio.bi_vcnt

  -- A bio that a queue can take: on a device, with vectors, and with segments within the limits.
  pub record IsSound (bio : StructBio) : Type 0 where
    pub dev : ℕ
    pub at_dev : bio.bi_bdev ≡ some dev
    pub vectors : HasVectors bio
    pub counted : StructBio
    pub recount : Recounted bio counted
    pub phys_pos : 1 ≤ counted.bi_phys_segments
    pub hw_pos : 1 ≤ counted.bi_hw_segments
    pub phys_in : counted.bi_phys_segments ≤ q.max_phys_segments
    pub hw_in : counted.bi_hw_segments ≤ q.max_hw_segments

  -- A merge that is refused, or that is allowed with new counts and sectors within the limits.
  pub data MergeEnd (old : StructRequest) (bio counted : StructBio) (m : MergeResult) : Type 0 where
    declined :
        m.merged ≡ false
        → m.req ≡ record old { nomerge = true }
        → (m.bio ≡ bio) ⊎ (m.bio ≡ counted)
        → MergeEnd old bio counted m
    allowed :
        (phys hw : ℕ)
        → m.merged ≡ true
        → m.req ≡ record old { nr_phys_segments = phys; nr_hw_segments = hw }
        → m.bio ≡ counted
        → WithinLimits q (record old { nr_phys_segments = phys; nr_hw_segments = hw })
        → (old.nr_sectors + sectors_of bio) % ulong_mod ≤ q.max_sectors
        → MergeEnd old bio counted m

  mergeable_end :
      (old : StructRequest) (bio : StructBio) (s : IsSound bio)
      → WithinLimits q old
      → (old.nr_sectors + sectors_of bio) % ulong_mod ≤ q.max_sectors
      → (m : MergeResult) × (ll_new_mergeable k q old bio ≡ some m) × MergeEnd old bio s.counted m
  unfolding ll_new_mergeable refuse
  mergeable_end old bio s w fit =
      let phys = old.nr_phys_segments + s.counted.bi_phys_segments in
      elim (Bool-cases (ltb q.max_phys_segments phys)) [
        | inl over ↦ (
          refuse old s.counted,
          ground (arith, s.recount.runs, over),
          declined refl refl (inr refl),
        )
        | inr ok ↦ (
          record {
            merged = true;
            req = record old { nr_phys_segments = phys % ushort_mod };
            last_merge = q.last_merge;
            bio = s.counted;
          },
          ground (arith, s.recount.runs, ok),
          allowed (phys % ushort_mod) old.nr_hw_segments refl refl refl
              (record {
                phys_pos = ground (arith, w.phys_pos, w.phys_max, ok);
                hw_pos = w.hw_pos;
                phys_in = ground (arith, ok, w.phys_max);
                hw_in = w.hw_in;
                phys_max = w.phys_max;
                hw_max = w.hw_max;
              })
              fit,
        )
      ]

  hw_segment_end :
      (old : StructRequest) (bio : StructBio) (s : IsSound bio)
      → WithinLimits q old
      → (old.nr_sectors + sectors_of bio) % ulong_mod ≤ q.max_sectors
      → (m : MergeResult) × (ll_new_hw_segment k q old bio ≡ some m) × MergeEnd old bio s.counted m
  unfolding ll_new_hw_segment refuse
  hw_segment_end old bio s w fit =
      let phys = old.nr_phys_segments + s.counted.bi_phys_segments in
      let hw = old.nr_hw_segments + s.counted.bi_hw_segments in
      elim (Bool-cases (ltb q.max_hw_segments hw || ltb q.max_phys_segments phys)) [
        | inl over ↦ (
          refuse old s.counted,
          ground (arith, s.recount.runs, over),
          declined refl refl (inr refl),
        )
        | inr ok ↦ (
          record {
            merged = true;
            req = record old {
              nr_hw_segments = hw % ushort_mod;
              nr_phys_segments = phys % ushort_mod;
            };
            last_merge = q.last_merge;
            bio = s.counted;
          },
          ground (arith, s.recount.runs, ok),
          allowed (phys % ushort_mod) (hw % ushort_mod) refl refl refl
              (record {
                phys_pos = ground (arith, w.phys_pos, w.phys_max, ok);
                hw_pos = ground (arith, w.hw_pos, w.hw_max, ok);
                phys_in = ground (arith, ok, w.phys_max);
                hw_in = ground (arith, ok, w.hw_max);
                phys_max = w.phys_max;
                hw_max = w.hw_max;
              })
              fit,
        )
      ]

  merge_at_end :
      (old : StructRequest) (bio : StructBio) (s : IsSound bio) (v1 v2 : BioVec)
      → WithinLimits q old
      → (m : MergeResult) × (merge_at k q old bio (some v1) (some v2) ≡ some m)
        × MergeEnd old bio s.counted m
  unfolding merge_at refuse
  merge_at_end old bio s v1 v2 w =
      elim (Bool-cases (ltb q.max_sectors ((old.nr_sectors + sectors_of bio) % ulong_mod))) [
        | inl long ↦ (refuse old bio, rw long refl, declined refl refl (inl refl))
        | inr short ↦ elim (Bool-cases (virt_mergeable k v1 v2)) [
          | inl virt ↦
              let (m, run, end) = mergeable_end old bio s w (ground (arith, short)) in
              (m, ground (arith, short, virt, run), end)
          | inr apart ↦
              let (m, run, end) = hw_segment_end old bio s w (ground (arith, short)) in
              (m, ground (arith, short, apart, run), end)
        ]
      ]

  pub back_end :
      (old : StructRequest) (bio : StructBio) (s : IsSound bio)
      → IsWell q old
      → (m : MergeResult) × (ll_back_merge_fn k q old bio ≡ some m) × MergeEnd old bio s.counted m
  unfolding ll_back_merge_fn
  back_end old bio s w =
      let (tail, at_tail, h) = last_of old.bios w.head w.rest w.chain w.vectors in
      let (m, run, end) = merge_at_end old bio s h.v2 s.vectors.v1 w.limits in
      (m, rw (at_tail, bvec_end_total k q tail h, bvec_start_total k q bio s.vectors) run, end)

  pub front_end :
      (old : StructRequest) (bio : StructBio) (s : IsSound bio)
      → IsWell q old
      → (m : MergeResult) × (ll_front_merge_fn k q old bio ≡ some m) × MergeEnd old bio s.counted m
  unfolding ll_front_merge_fn
  front_end old bio s w =
      let (head, at_head, h) = first_of old.bios w.head w.rest w.chain w.vectors in
      let (m, run, end) = merge_at_end old bio s s.vectors.v2 h.v1 w.limits in
      (m, rw (at_head, bvec_end_total k q bio s.vectors, bvec_start_total k q head h) run, end)

  pub counted-HasVectors : (bio : StructBio) (s : IsSound bio) → HasVectors s.counted
  counted-HasVectors bio s = record {
    table = s.vectors.table;
    v1 = s.vectors.v1;
    v2 = s.vectors.v2;
    at_table = s.recount.table ∙ s.vectors.at_table;
    at_first = s.vectors.at_first;
    at_last = ap (λ n. first (skip (n - 1) s.vectors.table)) s.recount.vcnt ∙ s.vectors.at_last;
    not_empty = ap (λ n. n == 0) s.recount.vcnt ∙ s.vectors.not_empty;
  }

  -- A request with the bio behind it.
  pub behind-IsWell :
      (old req : StructRequest) (bio : StructBio) (s : IsSound bio)
      → IsWell q old
      → (old.sector + old.nr_sectors) % ulong_mod ≡ bio.bi_sector
      → bio.bi_sector + sectors_of bio < ulong_mod
      → WithinLimits q req
      → (old.nr_sectors + sectors_of bio) % ulong_mod ≤ q.max_sectors
      → req.sector ≡ old.sector
      → req.bios ≡ old.bios ++ (s.counted ∷ [])
      → req.nr_sectors ≡ (old.hard_nr_sectors + sectors_of bio) % ulong_mod
      → req.hard_nr_sectors ≡ req.nr_sectors
      → IsWell q req
  behind-IsWell old req bio s w fits inside limits fit sector bios nr hard =
      let place : s.counted.bi_sector ≡ old.sector + total_sectors old.bios =
        omega (arith, s.recount.sector, fits, w.sectors, w.no_wrap) in
      let total : total_sectors req.bios ≡ total_sectors old.bios + sectors_of bio =
        ap total_sectors bios
        ∙ omega (arith, total_sectors-append old.bios (s.counted ∷ []), s.recount.size) in
      let room : old.sector + (total_sectors old.bios + sectors_of bio) < ulong_mod =
        omega (arith, fits, w.sectors, w.no_wrap, inside) in
      let sum : req.nr_sectors ≡ total_sectors old.bios + sectors_of bio =
        omega (arith, nr, w.hard, w.sectors, room) in
      record {
        head = w.head;
        rest = w.rest ++ (s.counted ∷ []);
        chain = bios ∙ ap (λ l. l ++ (s.counted ∷ [])) w.chain;
        consecutive =
            Consecutive-cong req.sector old.sector req.bios (old.bios ++ (s.counted ∷ [])) sector
              bios
              (Consecutive-append old.sector old.bios (s.counted ∷ []) w.consecutive (place, tt));
        sectors = omega (arith, sum, total);
        hard = hard;
        no_wrap = omega (arith, sector, total, room);
        vectors =
            AllVectors-cong req.bios (old.bios ++ (s.counted ∷ [])) bios (
              AllVectors-append old.bios (s.counted ∷ []) w.vectors (counted-HasVectors bio s, tt));
        sectors_in = omega (arith, sum, w.sectors, room, fit);
        limits = limits;
      }

  pub before-IsWell :
      (old req : StructRequest) (bio : StructBio) (s : IsSound bio)
      → IsWell q old
      → (bio.bi_sector + sectors_of bio) % ulong_mod ≡ old.sector
      → bio.bi_sector + sectors_of bio < ulong_mod
      → WithinLimits q req
      → (old.nr_sectors + sectors_of bio) % ulong_mod ≤ q.max_sectors
      → req.sector ≡ bio.bi_sector
      → req.bios ≡ s.counted ∷ old.bios
      → req.nr_sectors ≡ (old.hard_nr_sectors + sectors_of bio) % ulong_mod
      → req.hard_nr_sectors ≡ req.nr_sectors
      → IsWell q req
  before-IsWell old req bio s w fits inside limits fit sector bios nr hard =
      let meets : old.sector ≡ s.counted.bi_sector + sectors_of s.counted =
        omega (arith, s.recount.sector, s.recount.size, fits, inside) in
      let total : total_sectors req.bios ≡ total_sectors old.bios + sectors_of bio =
        ap total_sectors bios ∙ omega (arith, s.recount.size) in
      let room : bio.bi_sector + (total_sectors old.bios + sectors_of bio) < ulong_mod =
        omega (arith, fits, inside, w.no_wrap) in
      let sum : req.nr_sectors ≡ total_sectors old.bios + sectors_of bio =
        omega (arith, nr, w.hard, w.sectors, room) in
      record {
        head = s.counted;
        rest = old.bios;
        chain = bios;
        consecutive =
            Consecutive-cong req.sector s.counted.bi_sector req.bios (s.counted ∷ old.bios)
              (omega (arith, sector, s.recount.sector)) bios
              (
                refl,
                Consecutive-cong (s.counted.bi_sector + sectors_of s.counted) old.sector old.bios
                    old.bios (omega (arith, meets)) refl w.consecutive,
              );
        sectors = omega (arith, sum, total);
        hard = hard;
        no_wrap = omega (arith, sector, total, room);
        vectors =
            AllVectors-cong req.bios (s.counted ∷ old.bios) bios
              (counted-HasVectors bio s, w.vectors);
        sectors_in = omega (arith, sum, w.sectors, room, fit);
        limits = limits;
      }

  -- A request of the bio alone.
  pub alone-IsWell :
      (req : StructRequest) (bio : StructBio) (s : IsSound bio)
      → bio.bi_sector + sectors_of bio < ulong_mod
      → WithinLimits q req
      → sectors_of bio ≤ q.max_sectors
      → req.sector ≡ bio.bi_sector
      → req.bios ≡ s.counted ∷ []
      → req.nr_sectors ≡ sectors_of bio
      → req.hard_nr_sectors ≡ req.nr_sectors
      → IsWell q req
  alone-IsWell req bio s inside limits fit sector bios nr hard =
      let total : total_sectors req.bios ≡ sectors_of bio =
        ap total_sectors bios ∙ omega (arith, s.recount.size) in
      record {
        head = s.counted;
        rest = [];
        chain = bios;
        consecutive =
            Consecutive-cong req.sector s.counted.bi_sector req.bios (s.counted ∷ [])
              (omega (arith, sector, s.recount.sector)) bios (refl, tt);
        sectors = omega (arith, nr, total);
        hard = hard;
        no_wrap = omega (arith, sector, total, inside);
        vectors = AllVectors-cong req.bios (s.counted ∷ []) bios (counted-HasVectors bio s, tt);
        sectors_in = omega (arith, nr, fit);
        limits = limits;
      }
