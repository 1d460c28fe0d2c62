-- ===== src/Bio/Add.antt =====
-- What bio_add_page of ucsb-io/ucsb-io-2.5.67/fs/bio.c keeps of a bio.
use ucsb_disk_profiling.Prelude.{
  ℕ, ◌+◌, ◌/◌, ◌%◌, ◌^◌, ◌≤◌, ◌<◌, ◌≡◌, inl, inr, refl, ◌∙◌, Option, some, true, false, List, [],
  ◌∷◌, ltb, leb, arith,
}
use ucsb_disk_profiling.Prelude.Tests.{Bool-cases}
use ucsb_disk_profiling.Block.{uint_mod}
use ucsb_disk_profiling.Blk.Queue.{RequestQueue, ushort_mod}
use ucsb_disk_profiling.Segments.{
  BioVec, StructBio, PhysMap, pending_segments, segments_from, recount_if_stale,
}
use ucsb_disk_profiling.Segments.Count.{segments, segments-append}
use ucsb_disk_profiling.Segments.Table.{recounted, recount-counts, total_len-append}
use ucsb_disk_profiling.Blk.Complete.{set_vec}
use ucsb_disk_profiling.Bio.Filled.{
  IsFilled, Added, no_vec, too_long, full_segments, declined, refused, appended, recount-IsFilled,
  restale, length-set_vec, entries-set_vec, entries-enter,
}
use ucsb_disk_profiling.Bio.{segments_full, enter_page, bio_add_page, empty_vec, accepts}

module _ (k : PhysMap) (q : RequestQueue) where
  -- The entry is written, and taken back where `merge_bvec_fn` does not accept it.
  enter-Added :
      (merge_bvec : Option (StructBio → BioVec → ℕ)) (before bio : StructBio) (used : List BioVec)
      (bvec : BioVec)
      → recount_if_stale k q before ≡ some bio
      → IsFilled k q bio used
      → bio.bi_vcnt < bio.bi_max_vecs
      → bio.bi_size + bvec.bv_len < uint_mod
      → (bio.bi_size + bvec.bv_len) / 2 ^ 9 ≤ q.max_sectors
      → q.max_phys_segments < ushort_mod
      → segments_full q bio ≡ false
      → (n : ℕ) × (after : StructBio) × (enter_page merge_bvec bio bvec ≡ some (n, after))
        × Added k q merge_bvec before used bvec n after
  unfolding enter_page segments_full segments
  enter-Added merge_bvec before bio used bvec recounting f more small fit limit free =
      let entered = set_vec f.table bio.bi_vcnt bvec in
      let written = record bio { bi_io_vec = some entered } in
      let appending : StructBio = record written {
        bi_vcnt = (bio.bi_vcnt + 1) % ushort_mod;
        bi_phys_segments = (bio.bi_phys_segments + 1) % ushort_mod;
        bi_hw_segments = (bio.bi_hw_segments + 1) % ushort_mod;
        bi_size = (bio.bi_size + bvec.bv_len) % uint_mod;
      } in
      let cleared = set_vec entered bio.bi_vcnt empty_vec in
      let count : bio.bi_vcnt + 1 ≡ (bio.bi_vcnt + 1) % ushort_mod =
        omega (arith, more, f.within_count) in
      elim (Bool-cases (accepts merge_bvec written bvec)) [
        | inl accepted ↦ (
          bvec.bv_len,
          appending,
          ground (arith, f.at_table, accepted),
          appended {after = appending}
              (record {
                table = entered;
                at_table = refl;
                in_use = rw (← count) (
                    entries-enter bio.bi_vcnt f.table used bvec f.in_use
                      (omega (arith, more, f.room)));
                room = omega (arith, f.room, length-set_vec f.table bio.bi_vcnt bvec);
                within_count = f.within_count;
                from_start = f.from_start;
                owned = f.owned;
                size = omega (arith, small, f.size, total_len-append used (bvec ∷ []));
                sectors = omega (arith, small, fit);
                counted = elim f.counted [
                  | inl stale ↦ inl stale
                  | inr (enough, fits) ↦ inr (
                    ground (
                      arith,
                      enough,
                      free,
                      limit,
                      segments-append k q used (bvec ∷ [])
                          (omega (arith, small, f.size, total_len-append used (bvec ∷ []))),
                    ),
                    omega (arith),
                  )
                ];
              })
              (ground (arith, free)) (ground (arith, free)),
        )
        | inr d ↦ (
          0,
          record bio { bi_io_vec = some cleared },
          ground (arith, f.at_table, d),
          refused {after = record bio { bi_io_vec = some cleared }}
              (record {
                table = cleared;
                at_table = refl;
                in_use =
                    entries-set_vec bio.bi_vcnt entered used empty_vec
                      (entries-set_vec bio.bi_vcnt f.table used bvec f.in_use);
                room = ground (
                  arith,
                  f.room,
                  length-set_vec f.table bio.bi_vcnt bvec,
                  length-set_vec entered bio.bi_vcnt empty_vec,
                );
                within_count = f.within_count;
                from_start = f.from_start;
                owned = f.owned;
                size = f.size;
                sectors = f.sectors;
                counted = f.counted;
              })
              (declined bio recounting written (ground (arith, f.at_table)) d),
        )
      ]

  -- bio_add_page on an open bio: past the tests of the vectors and the sectors.
  module _ (merge_bvec : Option (StructBio → BioVec → ℕ)) (bio counted : StructBio)
      (used : List BioVec) (bvec : BioVec) (f : IsFilled k q bio used)
      (more : leb bio.bi_max_vecs bio.bi_vcnt ≡ false)
      (fits : ltb q.max_sectors ((bio.bi_size + bvec.bv_len) % uint_mod / 2 ^ 9) ≡ false)
      (recounting : recount_if_stale k q bio ≡ some counted) where
    add_free :
        segments_full q counted ≡ false
        → bio_add_page k q merge_bvec bio bvec ≡ enter_page merge_bvec counted bvec
    unfolding bio_add_page
    add_free free = ground (arith, f.owned, more, fits, recounting, free)

    -- With the segments full as they are counted first, the page is not taken, whatever the recount says.
    add_full :
        (again : StructBio)
        → segments_full q counted ≡ true
        → recount_if_stale k q (record counted { seg_valid = false }) ≡ some again
        → bio_add_page k q merge_bvec bio bvec ≡ some (0, again)
    unfolding bio_add_page
    add_full again full e = ground (arith, f.owned, more, fits, recounting, full, e)

    add_open :
        bvec.bv_len < 2 ^ 31
        → q.max_sectors < ushort_mod
        → q.max_phys_segments < ushort_mod
        → counted.bi_vcnt ≡ bio.bi_vcnt
        → counted.bi_max_vecs ≡ bio.bi_max_vecs
        → counted.bi_size ≡ bio.bi_size
        → IsFilled k q counted used
        → (n : ℕ) × (after : StructBio) × (bio_add_page k q merge_bvec bio bvec ≡ some (n, after))
          × Added k q merge_bvec bio used bvec n after
    add_open len max limit v m s g = elim (Bool-cases (segments_full q counted)) [
      | inl full ↦
          let (again, e, _, _, _, _, h) =
            recount-IsFilled k q (record counted { seg_valid = false }) used (restale k q g)
              (ground (arith, more, v, f.within_count)) in
          (0, again, add_full again full e, refused h (full_segments counted recounting full))
      | inr free ↦
          let (n, after, e, added) =
            enter-Added merge_bvec bio counted used bvec recounting g (ground (arith, more, v, m))
              (ground (arith, s, f.sectors, len, max))
              (ground (arith, fits, s, f.sectors, len, max)) limit free in
          (n, after, add_free free ∙ e, added)
    ]

  -- bio_add_page on a bio that is being filled, for a queue with its limits in 16 bits: it returns the
  -- length and leaves the page behind the vectors in use, with segments within the limits, or it returns
  -- 0 for one of the reasons, and leaves the vectors in use as they are.
  pub bio_add_page-Added :
      (merge_bvec : Option (StructBio → BioVec → ℕ)) (bio : StructBio) (used : List BioVec)
      (bvec : BioVec)
      → IsFilled k q bio used
      → bvec.bv_len < 2 ^ 31
      → q.max_sectors < ushort_mod
      → q.max_phys_segments < ushort_mod
      → (n : ℕ) × (after : StructBio) × (bio_add_page k q merge_bvec bio bvec ≡ some (n, after))
        × Added k q merge_bvec bio used bvec n after
  unfolding bio_add_page
  bio_add_page-Added merge_bvec bio used bvec f len max limit =
      let small : bio.bi_size + bvec.bv_len < uint_mod = omega (arith, f.sectors, len, max) in
      elim (Bool-cases (leb bio.bi_max_vecs bio.bi_vcnt)) [
        | inl none_left ↦ (
          0,
          bio,
          ground (arith, f.owned, none_left),
          refused f (no_vec (ground (arith, none_left))),
        )
        | inr more ↦
            elim (Bool-cases (ltb q.max_sectors ((bio.bi_size + bvec.bv_len) % uint_mod / 2 ^ 9))) [
              | inl long ↦ (
                0,
                bio,
                ground (arith, f.owned, more, long),
                refused f (too_long (ground (arith, long, small))),
              )
              | inr fits ↦
                  let (counted, e, _, v, m, s, g) =
                    recount-IsFilled k q bio used f (ground (arith, more, f.within_count)) in
                  add_open merge_bvec bio counted used bvec f more fits e len max limit v m s g
            ]
      ]

  -- On a bio with room whose cached counts are full, bio_add_page returns 0 and leaves the physical
  -- segments counted anew, whether or not that count is within the limits.
  pub add_page-gives_up :
      (merge_bvec : Option (StructBio → BioVec → ℕ)) (bio : StructBio) (used : List BioVec)
      (bvec : BioVec)
      → IsFilled k q bio used
      → bio.seg_valid ≡ true
      → segments_full q bio ≡ true
      → bio.bi_vcnt < bio.bi_max_vecs
      → (bio.bi_size + bvec.bv_len) / 2 ^ 9 ≤ q.max_sectors
      → (again : StructBio) × (bio_add_page k q merge_bvec bio bvec ≡ some (0, again))
        × (again.bi_phys_segments ≡ segments k q used)
  unfolding recount_if_stale pending_segments segments_from
  add_page-gives_up merge_bvec bio used bvec f valid full more fits =
      let stale = record bio { seg_valid = false } in
      let (e, counted) =
        recount-counts k q stale used (ground (arith, f.at_table, f.from_start, f.in_use))
          (omega (arith, more, f.within_count)) in
      (
        recounted k q stale used,
        add_full merge_bvec bio bio used bvec f (ground (arith, more)) (ground (arith, fits))
            (ground (arith, valid)) (recounted k q stale used) full (ground (arith, e)),
        counted,
      )
