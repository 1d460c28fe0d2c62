-- ===== src/Bio/Filled.antt =====
-- A bio that bio_add_page of ucsb-io/ucsb-io-2.5.67/fs/bio.c fills, and what it leaves of it.
use ucsb_disk_profiling.Prelude.{
  ℕ, zero, suc, ◌+◌, ◌/◌, ◌^◌, ◌≤◌, ◌<◌, ◌≡◌, ◌⊎◌, inl, inr, refl, Option, some, true, false, List,
  [], ◌∷◌, ◌++◌, arith, length, ap, Option-cases,
}
use ucsb_disk_profiling.Prelude.Tests.{Bool-cases}
use ucsb_disk_profiling.Blk.Queue.{RequestQueue, ushort_mod}
use ucsb_disk_profiling.Segments.{
  BioVec, StructBio, PhysMap, entries, pending_segments, segments_from, recount_if_stale,
}
use ucsb_disk_profiling.Segments.Count.{total_len, segments}
use ucsb_disk_profiling.Segments.Table.{recounted, recount-counts}
use ucsb_disk_profiling.Blk.Complete.{set_vec}
use ucsb_disk_profiling.Bio.{overlay, segments_full, write_vec, accepts}

pub length-set_vec : (xs : List BioVec) (i : ℕ) (bv : BioVec) → length (set_vec xs i bv) ≡ length xs
length-set_vec [] i bv = refl
length-set_vec (x ∷ xs) zero bv = refl
length-set_vec (x ∷ xs) (suc i) bv = ap suc (length-set_vec xs i bv)

-- A write behind the entries in use leaves them.
pub entries-set_vec :
    (n : ℕ) (table used : List BioVec) (bv : BioVec)
    → entries n table ≡ some used
    → entries n (set_vec table n bv) ≡ some used
entries-set_vec zero table used bv e = e
entries-set_vec (suc n) [] used bv e = e
entries-set_vec (suc n) (x ∷ xs) used bv e = elim (Option-cases (entries n xs)) [
  | inl f ↦ absurd (ground (arith, e, f))
  | inr (ys, f) ↦ ground (arith, e, f, entries-set_vec n xs ys bv f)
]

-- With the count one higher, the entry is the last in use.
pub entries-enter :
    (n : ℕ) (table used : List BioVec) (bv : BioVec)
    → entries n table ≡ some used
    → n < length table
    → entries (n + 1) (set_vec table n bv) ≡ some (used ++ (bv ∷ []))
entries-enter n [] used bv e l = absurd (omega (arith, l))
entries-enter zero (x ∷ xs) used bv e l = ground (arith, e)
entries-enter (suc n) (x ∷ xs) used bv e l = elim (Option-cases (entries n xs)) [
  | inl f ↦ absurd (ground (arith, e, f))
  | inr (ys, f) ↦ ground (arith, e, f, entries-enter n xs ys bv f (omega (arith, l)))
]

pub entries-overlay :
    (n : ℕ) (cs table : List BioVec)
    → length cs ≡ n
    → n ≤ length table
    → entries n (overlay cs table) ≡ some cs
entries-overlay zero [] table e l = refl
entries-overlay zero (c ∷ cs) table e l = absurd (omega (arith, e))
entries-overlay (suc n) [] table e l = absurd (omega (arith, e))
entries-overlay (suc n) (c ∷ cs) [] e l = absurd (omega (arith, l))
entries-overlay (suc n) (c ∷ cs) (v ∷ vs) e l =
    ground (arith, entries-overlay n cs vs (omega (arith, e)) (omega (arith, l)))

module _ (k : PhysMap) (q : RequestQueue) where
  -- A bio that is being filled, with the vectors of its table that are in use: it owns its table, with
  -- the room that it claims; its bytes are those of the vectors, within the sectors of the queue; and its
  -- physical segments, where they are counted, are not below what the vectors need.
  pub record IsFilled (bio : StructBio) (used : List BioVec) : Type 0 where
    pub table : List BioVec
    pub at_table : bio.bi_io_vec ≡ some table
    pub in_use : entries bio.bi_vcnt table ≡ some used
    pub room : length table ≡ bio.bi_max_vecs
    pub within_count : bio.bi_max_vecs < ushort_mod
    pub from_start : bio.bi_idx ≡ 0
    pub owned : bio.cloned ≡ false
    pub size : bio.bi_size ≡ total_len used
    pub sectors : bio.bi_size / 2 ^ 9 ≤ q.max_sectors
    pub counted :
        (bio.seg_valid ≡ false)
        ⊎ ((segments k q used ≤ bio.bi_phys_segments) × (bio.bi_phys_segments < ushort_mod))

  -- Why bio_add_page does not take a page: there is no vector left, the bio would exceed the sectors of
  -- the queue, the segments first counted are full, or `merge_bvec_fn` declines.
  pub data Blocked (merge_bvec : Option (StructBio → BioVec → ℕ)) (bio : StructBio) (bvec : BioVec)
      : Type 0 where
    no_vec : bio.bi_max_vecs ≤ bio.bi_vcnt → Blocked merge_bvec bio bvec
    too_long : q.max_sectors < (bio.bi_size + bvec.bv_len) / 2 ^ 9 → Blocked merge_bvec bio bvec
    full_segments :
        (counted : StructBio)
        → recount_if_stale k q bio ≡ some counted
        → segments_full q counted ≡ true
        → Blocked merge_bvec bio bvec
    declined :
        (counted : StructBio)
        → recount_if_stale k q bio ≡ some counted
        → (entered : StructBio) → write_vec counted bvec ≡ some entered
        → accepts merge_bvec entered bvec ≡ false
        → Blocked merge_bvec bio bvec

  -- What bio_add_page leaves, by what it returns: the vectors as they were, for a reason, or with the page
  -- behind them and segments within the limits.
  pub data Added (merge_bvec : Option (StructBio → BioVec → ℕ)) (bio : StructBio)
      (used : List BioVec) (bvec : BioVec) : ℕ → StructBio → Type 0 where
    refused :
        {after : StructBio}
        → IsFilled after used
        → Blocked merge_bvec bio bvec
        → Added merge_bvec bio used bvec 0 after
    appended :
        {after : StructBio}
        → IsFilled after (used ++ (bvec ∷ []))
        → after.bi_phys_segments ≤ q.max_phys_segments
        → after.bi_hw_segments ≤ q.max_hw_segments
        → Added merge_bvec bio used bvec bvec.bv_len after

  -- A recount, where there is none yet, keeps the bio as it should be.
  pub recount-IsFilled :
      (bio : StructBio) (used : List BioVec)
      → IsFilled bio used
      → bio.bi_vcnt < ushort_mod
      → (counted : StructBio) × (recount_if_stale k q bio ≡ some counted)
        × (counted.seg_valid ≡ true)
        × (counted.bi_vcnt ≡ bio.bi_vcnt)
        × (counted.bi_max_vecs ≡ bio.bi_max_vecs)
        × (counted.bi_size ≡ bio.bi_size)
        × IsFilled counted used
  unfolding recount_if_stale pending_segments segments_from
  recount-IsFilled bio used f l = elim (Bool-cases bio.seg_valid) [
    | inl valid ↦ (bio, ground (arith, valid), valid, refl, refl, refl, f)
    | inr stale ↦
        let pending : pending_segments bio ≡ some used =
          ground (arith, f.at_table, f.from_start, f.in_use) in
        let (p, r) = recount-counts k q bio used pending l in
        (
          recounted k q bio used,
          ground (arith, stale, p),
          refl,
          refl,
          refl,
          refl,
          record {
            table = f.table;
            at_table = f.at_table;
            in_use = f.in_use;
            room = f.room;
            within_count = f.within_count;
            from_start = f.from_start;
            owned = f.owned;
            size = f.size;
            sectors = f.sectors;
            counted = inr (omega (arith, r), omega (arith));
          },
        )
  ]

  pub restale :
      {bio : StructBio} {used : List BioVec}
      → IsFilled bio used
      → IsFilled (record bio { seg_valid = false }) used
  restale f = record {
    table = f.table;
    at_table = f.at_table;
    in_use = f.in_use;
    room = f.room;
    within_count = f.within_count;
    from_start = f.from_start;
    owned = f.owned;
    size = f.size;
    sectors = f.sectors;
    counted = inl refl;
  }
