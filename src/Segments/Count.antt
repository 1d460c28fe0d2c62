-- ===== src/Segments/Count.antt =====
-- The number of segments of a run of vectors, and how the loops of
-- ucsb-io/ucsb-io-2.5.67/drivers/block/ll_rw_blk.c count it.
use ucsb_disk_profiling.Prelude.{
  ℕ, suc, ◌+◌, ◌%◌, ◌≤◌, ◌<◌, ◌≡◌, none, some, ◌&&◌, List, [], ◌∷◌, ◌++◌, if◌then◌else◌, length,
  arith, inl, inr,
}
use ucsb_disk_profiling.Prelude.Tests.{Bool-cases}
use ucsb_disk_profiling.Block.{uint_mod}
use ucsb_disk_profiling.Blk.Queue.{RequestQueue}
use ucsb_disk_profiling.Segments.{
  BioVec, PhysMap, Scan, Scatter, joins, recount_step, recount_vecs, new_segment, map_step,
  map_vecs, extend_scatter, new_scatter,
}

abbrev pub total_len : List BioVec → ℕ
total_len [] = 0
total_len (bv ∷ bvs) = bv.bv_len + total_len bvs

module _ (k : PhysMap) (q : RequestQueue) where
  -- The segments that begin in `bvs`, behind a vector whose segment has `size` bytes.
  unfoldable pub segments_behind : BioVec → ℕ → List BioVec → ℕ
  segments_behind p size [] = 0
  segments_behind p size (bv ∷ bvs) =
      let joined = segments_behind bv ((size + bv.bv_len) % uint_mod) bvs in
      let apart = suc (segments_behind bv bv.bv_len bvs) in
      if q.cluster && joins k q p size bv then joined else apart

  unfoldable pub segments : List BioVec → ℕ
  unfolding segments_behind
  segments [] = 0
  segments (bv ∷ bvs) = suc (segments_behind bv bv.bv_len bvs)

  pub recount-segments_behind :
      (s : Scan) (p : BioVec) (bvs : List BioVec)
      → s.bvprv ≡ some p
      → (recount_vecs k q s bvs).nr_phys_segs ≡ s.nr_phys_segs + segments_behind p s.seg_size bvs
  unfolding recount_vecs recount_step new_segment segments_behind
  recount-segments_behind s p [] e = omega arith
  recount-segments_behind s p (bv ∷ bvs) e =
      elim (Bool-cases (q.cluster && joins k q p s.seg_size bv)) [
        | inl join ↦ ground (arith, e, join, recount-segments_behind (recount_step k q s bv) bv bvs)
        | inr apart ↦
            ground (arith, e, apart, recount-segments_behind (recount_step k q s bv) bv bvs)
      ]

  pub recount-segments :
      (s : Scan) (bvs : List BioVec)
      → s.bvprv ≡ none
      → (recount_vecs k q s bvs).nr_phys_segs ≡ s.nr_phys_segs + segments bvs
  unfolding recount_vecs recount_step new_segment segments
  recount-segments s [] e = omega arith
  recount-segments s (bv ∷ bvs) e =
      ground (arith, e, recount-segments_behind (recount_step k q s bv) bv bvs)

  pub map-segments_behind :
      (p : BioVec) (top : Scatter) (sg : List Scatter) (bvs : List BioVec)
      → length (map_vecs k q (record { bvprv = some p; sg = top ∷ sg }) bvs).sg
        ≡ suc (length sg) + segments_behind p top.length bvs
  unfolding map_vecs map_step extend_scatter new_scatter segments_behind
  map-segments_behind p top sg [] = omega arith
  map-segments_behind p top sg (bv ∷ bvs) =
      let longer = record top { length = (top.length + bv.bv_len) % uint_mod } in
      let next : Scatter = record {
        page = bv.bv_page;
        length = bv.bv_len;
        offset = bv.bv_offset;
      } in
      elim (Bool-cases (q.cluster && joins k q p top.length bv)) [
        | inl join ↦ ground (arith, join, map-segments_behind bv longer sg bvs)
        | inr apart ↦ ground (arith, apart, map-segments_behind bv next (top ∷ sg) bvs)
      ]

  -- A longer segment before makes at most one segment more, and no fewer.
  behind_mono :
      (p : BioVec) (a b : ℕ) (bvs : List BioVec)
      → a ≤ b
      → b + total_len bvs < uint_mod
      → (segments_behind p a bvs ≤ segments_behind p b bvs)
        × (segments_behind p b bvs ≤ suc (segments_behind p a bvs))
  unfolding segments_behind joins
  behind_mono p a b [] h l = omega arith
  behind_mono p a b (bv ∷ bvs) h l = ground (
    arith,
    behind_mono bv (a + bv.bv_len) (b + bv.bv_len) bvs (omega (arith, h)) (omega (arith, l)),
    behind_mono bv bv.bv_len (b + bv.bv_len) bvs (omega arith) (omega (arith, l)),
    behind_mono bv bv.bv_len (a + bv.bv_len) bvs (omega arith) (omega (arith, l, h)),
  )

  behind-le-segments :
      (p : BioVec) (size : ℕ) (bvs : List BioVec)
      → size + total_len bvs < uint_mod
      → segments_behind p size bvs ≤ segments bvs
  unfolding segments_behind segments
  behind-le-segments p size [] l = omega arith
  behind-le-segments p size (bv ∷ bvs) l =
      ground
        (arith, behind_mono bv bv.bv_len (size + bv.bv_len) bvs (omega arith) (omega (arith, l)))

  behind-append :
      (p : BioVec) (size : ℕ) (bvs cs : List BioVec)
      → size + total_len (bvs ++ cs) < uint_mod
      → segments_behind p size (bvs ++ cs) ≤ segments_behind p size bvs + segments cs
  unfolding segments_behind
  behind-append p size [] cs l = omega (arith, behind-le-segments p size cs l)
  behind-append p size (bv ∷ bvs) cs l = ground (
    arith,
    behind-append bv (size + bv.bv_len) bvs cs (omega (arith, l)),
    behind-append bv bv.bv_len bvs cs (omega (arith, l)),
  )

  -- Runs that are mapped as one have no more segments than the runs by themselves.
  pub segments-append :
      (bvs cs : List BioVec)
      → total_len (bvs ++ cs) < uint_mod
      → segments (bvs ++ cs) ≤ segments bvs + segments cs
  unfolding segments
  segments-append [] cs l = omega arith
  segments-append (bv ∷ bvs) cs l = omega (arith, behind-append bv bv.bv_len bvs cs l)

  behind-le-length :
      (p : BioVec) (size : ℕ) (bvs : List BioVec) → segments_behind p size bvs ≤ length bvs
  unfolding segments_behind
  behind-le-length p size [] = omega arith
  behind-le-length p size (bv ∷ bvs) = ground (
    arith,
    behind-le-length bv bv.bv_len bvs,
    behind-le-length bv ((size + bv.bv_len) % uint_mod) bvs,
  )

  pub segments-le-length : (bvs : List BioVec) → segments bvs ≤ length bvs
  unfolding segments
  segments-le-length [] = omega arith
  segments-le-length (bv ∷ bvs) = omega (arith, behind-le-length bv bv.bv_len bvs)
