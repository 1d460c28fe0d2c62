-- ===== src/Segments.antt =====
-- Bios and their segments: `struct bio` of ucsb-io/ucsb-io-2.5.67/include/linux/bio.h, and the counting
-- and mapping of segments in drivers/block/ll_rw_blk.c.
pub mod Bytes
pub mod Count
pub mod Table
use Prim.Native.Nat.{bit_or, bit_and}
use ucsb_disk_profiling.Prelude.{
  ℕ, zero, suc, ◌+◌, ◌-◌, ◌%◌, ◌/◌, ◌^◌, Option, none, some, Bool, true, false, ◌&&◌, not, List, [],
  ◌∷◌, leb, ◌==◌, if◌then◌else◌, ◌>>=◌, rejoin,
}
use ucsb_disk_profiling.Block.{uint_mod, ulong_mod}
use ucsb_disk_profiling.Blk.Queue.{RequestQueue, ushort_mod}

pub record BioVec : Type 0 where
  pub bv_page : Option ℕ
  pub bv_len : ℕ
  pub bv_offset : ℕ

-- `struct bio`. The flag bits are Booleans, with the pool's index of the top bits; `bi_io_vec` is the
-- table that the pointer leads to.
pub record StructBio : Type 0 where
  pub bi_sector : ℕ
  pub bi_bdev : Option ℕ
  pub uptodate : Bool
  pub rw_block : Bool
  pub eof : Bool
  pub seg_valid : Bool
  pub cloned : Bool
  pub bounced : Bool
  pub pool_idx : ℕ
  pub bi_rw : ℕ
  pub bi_vcnt : ℕ
  pub bi_idx : ℕ
  pub bi_phys_segments : ℕ
  pub bi_hw_segments : ℕ
  pub bi_size : ℕ
  pub bi_max_vecs : ℕ
  pub bi_io_vec : Option (List BioVec)
  pub bi_end_io : Option ℕ
  pub bi_cnt : ℕ
  pub bi_private : Option ℕ
  pub bi_qos : Option ℕ

-- What the architecture gives: `page_to_phys` and BIO_VMERGE_BOUNDARY.
pub record PhysMap : Type 0 where
  pub page_to_phys : Option ℕ → ℕ
  pub vmerge_boundary : ℕ

-- The entries of a table from an index on, as many as are asked for; past its end is a fault.
abbrev pub entries {ℓ} : {A : Type ℓ} → ℕ → List A → Option (List A)
entries zero xs = some []
entries (suc n) [] = none
entries (suc n) (x ∷ xs) = do ys ← entries n xs; some (x ∷ ys)

abbrev pub skip {ℓ} : {A : Type ℓ} → ℕ → List A → List A
skip zero xs = xs
skip (suc n) [] = []
skip (suc n) (x ∷ xs) = skip n xs

abbrev pub first {ℓ} : {A : Type ℓ} → List A → Option A
first [] = none
first (x ∷ xs) = some x

-- `__bio_for_each_segment` from `start_idx`: the entries that the loop visits.
unfoldable pub segments_from : StructBio → ℕ → Option (List BioVec)
segments_from bio start_idx = do
  table ← bio.bi_io_vec
  entries (bio.bi_vcnt - start_idx) (skip start_idx table)

-- bio_for_each_segment
unfoldable pub pending_segments : StructBio → Option (List BioVec)
unfolding segments_from
pending_segments bio = segments_from bio bio.bi_idx

module _ (k : PhysMap) where
  unfoldable pub bvec_to_phys : BioVec → ℕ
  bvec_to_phys bv = (k.page_to_phys bv.bv_page + bv.bv_offset) % ulong_mod

  -- BIOVEC_PHYS_MERGEABLE
  unfoldable pub phys_mergeable : BioVec → BioVec → Bool
  unfolding bvec_to_phys
  phys_mergeable vec1 vec2 = (bvec_to_phys vec1 + vec1.bv_len) % ulong_mod == bvec_to_phys vec2

  -- BIOVEC_VIRT_MERGEABLE. A boundary of 0 makes a mask of all ones.
  unfoldable pub virt_mergeable : BioVec → BioVec → Bool
  unfolding bvec_to_phys
  virt_mergeable vec1 vec2 =
      bit_and (bit_or ((bvec_to_phys vec1 + vec1.bv_len) % ulong_mod) (bvec_to_phys vec2))
        ((k.vmerge_boundary + ulong_mod - 1) % ulong_mod)
      == 0

  -- BIOVEC_SEG_BOUNDARY
  unfoldable pub seg_boundary : RequestQueue → BioVec → BioVec → Bool
  unfolding bvec_to_phys
  seg_boundary q b1 b2 =
      bit_or (bvec_to_phys b1) q.seg_boundary_mask
      == bit_or ((bvec_to_phys b2 + b2.bv_len + ulong_mod - 1) % ulong_mod) q.seg_boundary_mask

  -- The three tests by which an entry joins the segment before it.
  unfoldable pub joins : RequestQueue → BioVec → ℕ → BioVec → Bool
  unfolding phys_mergeable seg_boundary
  joins q bvprv seg_size bv =
      (leb ((seg_size + bv.bv_len) % uint_mod) q.max_segment_size && phys_mergeable bvprv bv)
      && seg_boundary q bvprv bv

-- The variables of the loop of `blk_recount_segments`.
pub record Scan : Type 0 where
  pub bvprv : Option BioVec
  pub seg_size : ℕ
  pub nr_phys_segs : ℕ
  pub nr_hw_segs : ℕ

-- An entry of the table that `blk_rq_map_sg` fills.
pub record Scatter : Type 0 where
  pub page : Option ℕ
  pub length : ℕ
  pub offset : ℕ

-- The entries so far, the latest first, and the vector before.
pub record Mapped : Type 0 where
  pub bvprv : Option BioVec
  pub sg : List Scatter

module _ (k : PhysMap) (q : RequestQueue) where
  -- The label `new_segment`.
  unfoldable pub new_segment : Scan → Bool → BioVec → Scan
  new_segment s virtual bv = record {
    bvprv = some bv;
    seg_size = bv.bv_len;
    nr_phys_segs = s.nr_phys_segs + 1;
    nr_hw_segs = if virtual then s.nr_hw_segs else s.nr_hw_segs + 1;
  }

  unfoldable pub recount_step : Scan → BioVec → Scan
  unfolding new_segment
  recount_step s bv = elim s.bvprv [
    | none ↦ new_segment s false bv
    | some bvprv ↦
        if q.cluster && joins k q bvprv s.seg_size bv
        then record s { seg_size = (s.seg_size + bv.bv_len) % uint_mod; bvprv = some bv }
        else new_segment s (virt_mergeable k bvprv bv) bv
  ]

  unfoldable pub recount_vecs : Scan → List BioVec → Scan
  unfolding recount_step
  recount_vecs s [] = s
  recount_vecs s (bv ∷ bvs) = recount_vecs (recount_step s bv) bvs

  -- A bio without a table is left alone; the counts are stored in 16 bits.
  unfoldable pub blk_recount_segments : StructBio → Option StructBio
  unfolding recount_vecs
  blk_recount_segments bio = elim bio.bi_io_vec [
    | none ↦ some bio
    | some table ↦ do
      bvs ← pending_segments bio
      let counted =
          recount_vecs (record { bvprv = none; seg_size = 0; nr_phys_segs = 0; nr_hw_segs = 0 }) bvs
      some (record bio {
        bi_phys_segments = counted.nr_phys_segs % ushort_mod;
        bi_hw_segments = counted.nr_hw_segs % ushort_mod;
        seg_valid = true;
      })
  ]

  -- The recount that `bio_phys_segments` and `bio_hw_segments` make before they read their field.
  unfoldable pub recount_if_stale : StructBio → Option StructBio
  unfolding blk_recount_segments
  recount_if_stale bio = if bio.seg_valid then some bio else blk_recount_segments bio

  unfoldable pub new_scatter : List Scatter → BioVec → Mapped
  new_scatter sg bvec = record {
    bvprv = some bvec;
    sg = record { page = bvec.bv_page; length = bvec.bv_len; offset = bvec.bv_offset } ∷ sg;
  }

  -- The body of the loop, with the entry `sg[nsegs - 1]` at hand; where there is a vector before, there
  -- is such an entry.
  unfoldable pub extend_scatter : BioVec → List Scatter → BioVec → Mapped
  unfolding new_scatter
  extend_scatter bvprv [] bvec = new_scatter [] bvec
  extend_scatter bvprv (last ∷ sg) bvec =
      if q.cluster && joins k q bvprv last.length bvec
      then record {
        bvprv = some bvec;
        sg = record last { length = (last.length + bvec.bv_len) % uint_mod } ∷ sg;
      }
      else new_scatter (last ∷ sg) bvec

  unfoldable pub map_step : Mapped → BioVec → Mapped
  unfolding extend_scatter new_scatter
  map_step m bvec = elim m.bvprv [
    | none ↦ new_scatter m.sg bvec
    | some bvprv ↦ extend_scatter bvprv m.sg bvec
  ]

  unfoldable pub map_vecs : Mapped → List BioVec → Mapped
  unfolding map_step
  map_vecs m [] = m
  map_vecs m (bvec ∷ bvecs) = map_vecs (map_step m bvec) bvecs

  -- rq_for_each_bio
  unfoldable pub map_bios : Mapped → List StructBio → Option Mapped
  unfolding map_vecs
  map_bios m [] = some m
  map_bios m (bio ∷ bios) =
      let rest = λ (m' : Mapped). map_bios m' bios in
      do bvecs ← pending_segments bio; rest (map_vecs m bvecs)

  -- The table in its order; `nsegs` is its length.
  unfoldable pub blk_rq_map_sg : List StructBio → Option (List Scatter)
  unfolding map_bios
  blk_rq_map_sg bios = do
    m ← map_bios (record { bvprv = none; sg = [] }) bios
    some (rejoin m.sg [])

  -- __BVEC_END and __BVEC_START
  unfoldable pub bvec_end : StructBio → Option BioVec
  bvec_end bio = do
    table ← bio.bi_io_vec
    if bio.bi_vcnt == 0 then none else first (skip (bio.bi_vcnt - 1) table)

  unfoldable pub bvec_start : StructBio → Option BioVec
  bvec_start bio = do table ← bio.bi_io_vec; first table

  -- What the two contiguity tests share behind their test of the two vectors.
  unfoldable pub fits_segment : StructBio → StructBio → BioVec → BioVec → Bool
  fits_segment bio nxt b1 b2 =
      leb ((bio.bi_size + nxt.bi_size) % uint_mod) q.max_segment_size && seg_boundary k q b1 b2

  unfoldable pub blk_phys_contig_segment : StructBio → StructBio → Option Bool
  unfolding fits_segment bvec_end bvec_start
  blk_phys_contig_segment bio nxt =
      if q.cluster
      then (do
        b1 ← bvec_end bio
        b2 ← bvec_start nxt
        some (phys_mergeable k b1 b2 && fits_segment bio nxt b1 b2))
      else some false

  unfoldable pub blk_hw_contig_segment : StructBio → StructBio → Option Bool
  unfolding fits_segment bvec_end bvec_start
  blk_hw_contig_segment bio nxt =
      if q.cluster
      then (do
        b1 ← bvec_end bio
        b2 ← bvec_start nxt
        some (virt_mergeable k b1 b2 && fits_segment bio nxt b1 b2))
      else some false
