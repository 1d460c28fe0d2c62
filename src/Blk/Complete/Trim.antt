-- ===== src/Blk/Complete/Trim.antt =====
-- Where a completion ends inside a vector that is not the current one, in
-- ucsb-io/ucsb-io-2.5.67/drivers/block/ll_rw_blk.c.
use ucsb_disk_profiling.Prelude.{
  ℕ, ◌+◌, ◌-◌, ◌%◌, ◌<◌, ◌≡◌, refl, some, Bool, false, [], ◌∷◌, if◌then◌else◌, arith,
}
use ucsb_disk_profiling.Block.{uint_mod}
use ucsb_disk_profiling.Segments.{BioVec, StructBio, pending_segments, segments_from}
use ucsb_disk_profiling.Blk.Complete.{
  Partial, Ended, end_vecs, end_bios, end_left, end_partial, trim_current, bio_endio,
}

-- A bio of two vectors, of which nothing is done yet.
pub record TwoVecs (bio : StructBio) (v w : BioVec) : Type 0 where
  pub table : bio.bi_io_vec ≡ some (v ∷ w ∷ [])
  pub two : bio.bi_vcnt ≡ 2
  pub at_start : bio.bi_idx ≡ 0
  pub size : bio.bi_size ≡ v.bv_len + w.bv_len

-- A completion that ends inside the second vector of a bio cuts the first one: the bytes that it takes of
-- the second vector are added to the offset of the first, and taken off its length, modulo 2^32. The bio
-- that is left stands at the second vector, whole, which is longer than the bytes that the bio has left.
pub end-cuts_first :
    (error : Bool) (n : ℕ) (bio : StructBio) (v w : BioVec)
    → TwoVecs bio v w
    → v.bv_len < n
    → n < v.bv_len + w.bv_len
    → (r : Ended) × (left : StructBio) × (end_bios error 0 n (bio ∷ []) ≡ some r)
      × (end_left error r ≡ left ∷ [])
      × (left.bi_io_vec
          ≡ some (
              record v {
                bv_offset = (v.bv_offset + (n - v.bv_len)) % uint_mod;
                bv_len = (v.bv_len + uint_mod - (n - v.bv_len)) % uint_mod;
              }
              ∷ w
              ∷ []))
      × (left.bi_size ≡ v.bv_len + w.bv_len - n)
      × (pending_segments left ≡ some (w ∷ []))
      × (left.bi_size < w.bv_len)
unfolding end_bios end_left end_partial end_vecs trim_current bio_endio pending_segments
    segments_from
end-cuts_first error n bio v w t after before =
    let cut : StructBio = record bio {
      bi_io_vec = some (
          record v {
            bv_offset = (v.bv_offset + (n - v.bv_len)) % uint_mod;
            bv_len = (v.bv_len + uint_mod - (n - v.bv_len)) % uint_mod;
          }
          ∷ w
          ∷ []);
    } in
    let stopped : Partial = record { bio = cut; next_idx = 1; bio_nbytes = n; total_bytes = n } in
    let r : Ended = record {
      completed = [];
      left = cut ∷ [];
      total_bytes = n;
      in_bio = some stopped;
    } in
    let left : StructBio = record cut {
      uptodate = if error then false else bio.uptodate;
      bi_size = v.bv_len + w.bv_len - n;
      bi_idx = 1;
    } in
    (
      r,
      left,
      rw (t.two, t.at_start, t.table, t.size) (ground (arith, after, before)),
      ground (arith, t.at_start, t.size, after, before),
      refl,
      refl,
      rw t.two refl,
      omega (arith, after),
    )
