-- ===== src/Blk/Merge/Undercount.antt =====
-- Where two merges count one segment too few, in
-- ucsb-io/ucsb-io-2.5.67/drivers/block/ll_rw_blk.c.
use ucsb_disk_profiling.Prelude.{
  ℕ, ◌+◌, ◌%◌, ◌≤◌, ◌<◌, ◌≡◌, refl, some, true, false, List, [], ◌∷◌, arith, length,
}
use ucsb_disk_profiling.Block.{ulong_mod, uint_mod}
use ucsb_disk_profiling.Blk.Queue.{RequestQueue, ushort_mod}
use ucsb_disk_profiling.Segments.{
  BioVec, StructBio, PhysMap, Scatter, bvec_end, bvec_start, blk_phys_contig_segment,
  phys_mergeable, seg_boundary, fits_segment, blk_rq_map_sg, map_bios, map_vecs, map_step,
  extend_scatter, new_scatter, joins, pending_segments, segments_from,
}
use ucsb_disk_profiling.Blk.Merge.{StructRequest, ll_merge_requests_fn, stored}
use ucsb_disk_profiling.Blk.Merge.Within.{Touching, hw_contig_total}

-- A bio of one vector.
pub record SingleVec (bio : StructBio) (bv : BioVec) : Type 0 where
  pub table : bio.bi_io_vec ≡ some (bv ∷ [])
  pub one : bio.bi_vcnt ≡ 1
  pub at_start : bio.bi_idx ≡ 0
  pub size : bio.bi_size ≡ bv.bv_len

-- A request of one bio with one segment.
pub record SingleSegment (req : StructRequest) (bio : StructBio) : Type 0 where
  pub bios : req.bios ≡ bio ∷ []
  pub phys : req.nr_phys_segments ≡ 1
  pub hw : req.nr_hw_segments ≡ 1
  pub usual : req.special ≡ false

-- `v2` continues `v1` in memory and within the boundary, and the two fit one segment.
pub record Continues (k : PhysMap) (q : RequestQueue) (v1 v2 : BioVec) : Type 0 where
  pub follows : phys_mergeable k v1 v2 ≡ true
  pub inside : seg_boundary k q v1 v2 ≡ true
  pub fits : v1.bv_len + v2.bv_len ≤ q.max_segment_size
  pub small : v1.bv_len + v2.bv_len < uint_mod

module _ (k : PhysMap) (q : RequestQueue) (on : q.cluster ≡ true) where
  single_end : (bio : StructBio) (bv : BioVec) → SingleVec bio bv → bvec_end k q bio ≡ some bv
  unfolding bvec_end
  single_end bio bv s = ground (arith, s.table, s.one)

  single_start : (bio : StructBio) (bv : BioVec) → SingleVec bio bv → bvec_start k q bio ≡ some bv
  unfolding bvec_start
  single_start bio bv s = ground (arith, s.table)

  single_pending :
      (bio : StructBio) (bv : BioVec) → SingleVec bio bv → pending_segments bio ≡ some (bv ∷ [])
  unfolding pending_segments segments_from
  single_pending bio bv s = rw (s.table, s.one, s.at_start) refl

  contig :
      (b1 b2 : StructBio) (v1 v2 : BioVec)
      → SingleVec b1 v1
      → SingleVec b2 v2
      → Continues k q v1 v2
      → blk_phys_contig_segment k q b1 b2 ≡ some true
  unfolding blk_phys_contig_segment fits_segment
  contig b1 b2 v1 v2 s t c = ground (
    arith,
    on,
    single_end b1 v1 s,
    single_start b2 v2 t,
    s.size,
    t.size,
    c.follows,
    c.inside,
    c.fits,
    c.small,
  )

  -- Two requests of one physical segment become one of one segment.
  merge_one :
      (req next : StructRequest) (t : Touching k q req next)
      → blk_phys_contig_segment k q t.tail t.head ≡ some true
      → req.special ≡ false
      → next.special ≡ false
      → req.nr_phys_segments ≡ 1
      → next.nr_phys_segments ≡ 1
      → 1 ≤ q.max_phys_segments
      → q.max_hw_segments < ushort_mod
      → 1 ≤ req.nr_hw_segments + next.nr_hw_segments
      → req.nr_hw_segments + next.nr_hw_segments ≤ q.max_hw_segments
      → (req.nr_sectors + next.nr_sectors) % ulong_mod ≤ q.max_sectors
      → (hw : ℕ) × (ll_merge_requests_fn k q req next
          ≡ some (true, record req { nr_phys_segments = 1; nr_hw_segments = hw }))
        × (hw ≤ req.nr_hw_segments + next.nr_hw_segments)
  unfolding ll_merge_requests_fn
  merge_one req next t c u v p r max_p max_w positive max_h l =
      let (d, h) = hw_contig_total k q req next t in
      (
        stored (req.nr_hw_segments + next.nr_hw_segments) d,
        ground (arith, u, v, p, r, t.at_tail, t.at_head, c, h, max_p, max_w, max_h, l),
        ground (arith, max_w, positive),
      )

  map_three :
      (a b c : StructBio) (u v w : BioVec)
      → SingleVec a u
      → SingleVec b v
      → SingleVec c w
      → Continues k q u v
      → q.max_segment_size < u.bv_len + v.bv_len + w.bv_len
      → u.bv_len + v.bv_len + w.bv_len < uint_mod
      → (sg : List Scatter) × (blk_rq_map_sg k q (a ∷ b ∷ c ∷ []) ≡ some sg) × (length sg ≡ 2)
  unfolding blk_rq_map_sg map_bios map_vecs map_step extend_scatter new_scatter joins
  map_three a b c u v w s t r uv over small =
      let one : Scatter = record {
        page = u.bv_page;
        length = (u.bv_len + v.bv_len) % uint_mod;
        offset = u.bv_offset;
      } in
      let two : Scatter = record { page = w.bv_page; length = w.bv_len; offset = w.bv_offset } in
      (
        one ∷ two ∷ [],
        ground (
          arith,
          on,
          single_pending a u s,
          single_pending b v t,
          single_pending c w r,
          uv.follows,
          uv.inside,
          uv.fits,
          uv.small,
          over,
          small,
        ),
        refl,
      )

  -- Three requests of one vector each, every one continuing the one before, where each two fit a segment
  -- but not all three: both merges are allowed and leave a request that claims one physical segment, but
  -- its scatter table has two entries.
  pub merges-undercount :
      (head next last : StructRequest) (a b c : StructBio) (u v w : BioVec) (sectors : ℕ)
      → SingleVec a u
      → SingleVec b v
      → SingleVec c w
      → SingleSegment head a
      → SingleSegment next b
      → SingleSegment last c
      → Continues k q u v
      → Continues k q v w
      → q.max_segment_size < u.bv_len + v.bv_len + w.bv_len
      → u.bv_len + v.bv_len + w.bv_len < uint_mod
      → 1 ≤ q.max_phys_segments
      → 3 ≤ q.max_hw_segments
      → q.max_hw_segments < ushort_mod
      → (head.nr_sectors + next.nr_sectors) % ulong_mod ≤ q.max_sectors
      → (sectors + last.nr_sectors) % ulong_mod ≤ q.max_sectors
      → (r r' : StructRequest) × (sg : List Scatter) × (ll_merge_requests_fn k q head next
          ≡ some (true, r))
        × (ll_merge_requests_fn k q (record r { bios = a ∷ b ∷ []; nr_sectors = sectors }) last
            ≡ some (true, r'))
        × (r'.nr_phys_segments ≡ 1)
        × (blk_rq_map_sg k q (a ∷ b ∷ c ∷ []) ≡ some sg)
        × (length sg ≡ 2)
  merges-undercount head next last a b c u v w sectors sa sb sc ha hb hc uv vw over small p h hm l
        m =
      let t : Touching k q head next = record {
        tail = a;
        head = b;
        v1 = u;
        v2 = v;
        at_tail = rw ha.bios refl;
        at_head = rw hb.bios refl;
        at_v1 = single_end a u sa;
        at_v2 = single_start b v sb;
      } in
      let (hw, e, f) =
        merge_one head next t (contig a b u v sa sb uv) ha.usual hb.usual ha.phys hb.phys p hm
          (omega (arith, ha.hw, hb.hw)) (omega (arith, ha.hw, hb.hw, h)) l in
      let r : StructRequest = record head { nr_phys_segments = 1; nr_hw_segments = hw } in
      let two : StructRequest = record r { bios = a ∷ b ∷ []; nr_sectors = sectors } in
      let t' : Touching k q two last = record {
        tail = b;
        head = c;
        v1 = v;
        v2 = w;
        at_tail = refl;
        at_head = rw hc.bios refl;
        at_v1 = single_end b v sb;
        at_v2 = single_start c w sc;
      } in
      let (hw', e', f') =
        merge_one two last t' (contig b c v w sb sc vw) ha.usual hc.usual refl hc.phys p hm
          (omega (arith, hc.hw)) (omega (arith, f, ha.hw, hb.hw, hc.hw, h)) m in
      let (sg, g, n) = map_three a b c u v w sa sb sc uv over small in
      (r, record two { nr_phys_segments = 1; nr_hw_segments = hw' }, sg, e, e', refl, g, n)
