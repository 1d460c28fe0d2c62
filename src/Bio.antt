-- ===== src/Bio.antt =====
-- The life of a bio in ucsb-io/ucsb-io-2.5.67/fs/bio.c: allocation, references, clones and copies, and
-- the pages that are added to it.
pub mod Table
pub mod Add
pub mod Clone
pub mod Dirty
pub mod Filled
use ucsb_disk_profiling.Prelude.{
  ℕ, zero, suc, ◌+◌, ◌-◌, ◌*◌, ◌/◌, ◌%◌, ◌^◌, Option, none, some, Bool, true, false, not, ◌&&◌,
  ◌||◌, List, [], ◌∷◌, ltb, leb, ◌==◌, if◌then◌else◌, ◌>>=◌,
}
use ucsb_disk_profiling.Block.{uint_mod, update}
use ucsb_disk_profiling.Blk.Queue.{RequestQueue, ushort_mod, Machine, page_size}
use ucsb_disk_profiling.Segments.{
  BioVec, StructBio, PhysMap, recount_if_stale, blk_recount_segments, segments_from, skip, entries,
}
use ucsb_disk_profiling.Blk.Complete.{set_vec}

-- The switch of `bvec_alloc`: the index of the pool for `nr` vectors.
unfoldable pub bvec_pool : ℕ → Option ℕ
bvec_pool nr =
    if nr == 0
    then none
    else if leb nr 1
    then some 0
    else if leb nr 4
    then some 1
    else if leb nr 16
    then some 2
    else if leb nr 64
    then some 3
    else if leb nr 128
    then some 4
    else if leb nr 256
    then some 5
    else none

-- `bvec_array[idx].nr_vecs`; BIO_MAX_PAGES is 256.
unfoldable pub pool_vecs : ℕ → ℕ
pool_vecs idx =
    if idx == 0
    then 1
    else if idx == 1
    then 4
    else if idx == 2
    then 16
    else if idx == 3
    then 64
    else if idx == 4
    then 128
    else 256

abbrev pub empty_vec : BioVec
empty_vec = record { bv_page = none; bv_len = 0; bv_offset = 0 }

abbrev pub replicate {ℓ} : {A : Type ℓ} → ℕ → A → List A
replicate zero a = []
replicate (suc n) a = a ∷ replicate n a

-- `bvec_alloc`: the pool's index and a table of empty vectors. `given` says that the pool has memory.
unfoldable pub bvec_alloc : Bool → ℕ → Option (ℕ × List BioVec)
unfolding bvec_pool pool_vecs
bvec_alloc given nr = do
  idx ← bvec_pool nr
  if given then some (idx, replicate (pool_vecs idx) empty_vec) else none

-- `bio_init` leaves `bi_sector`, `bi_bdev` and `bi_io_vec` as they are.
unfoldable pub bio_init : StructBio → StructBio
bio_init bio = record bio {
  uptodate = true;
  rw_block = false;
  eof = false;
  seg_valid = false;
  cloned = false;
  bounced = false;
  pool_idx = 0;
  bi_rw = 0;
  bi_vcnt = 0;
  bi_idx = 0;
  bi_phys_segments = 0;
  bi_hw_segments = 0;
  bi_size = 0;
  bi_max_vecs = 0;
  bi_end_io = none;
  bi_qos = none;
  bi_cnt = 1;
  bi_private = none;
}

-- `bio_alloc`: `memory` is what the pool of bios gives, and `given` says that the pool of vectors has
-- memory. NULL is `none`.
unfoldable pub bio_alloc : Option StructBio → Bool → ℕ → Option StructBio
unfolding bio_init bvec_alloc
bio_alloc memory given nr_iovecs = do
  garbage ← memory
  let bio = bio_init garbage
  if nr_iovecs == 0 then some (record bio { bi_io_vec = none }) else (do
    (idx, bvl) ← bvec_alloc given nr_iovecs
    some (record bio { pool_idx = idx; bi_max_vecs = pool_vecs idx; bi_io_vec = some bvl }))

-- What `bio_put` does to its bio: it lives on, or it is freed, with its table to a pool unless it is a
-- clone.
pub data Put : Type 0 where
  kept : StructBio → Put
  freed : Option ℕ → Put

-- The end of the last reference in `bio_destructor`; an index of no pool is a BUG.
unfoldable pub bio_destructor : StructBio → Option Put
bio_destructor bio =
    if leb 6 bio.pool_idx
    then none
    else some (freed (if bio.cloned then none else some bio.pool_idx))

-- `bio_put`; a bio without references is a BUG.
unfoldable pub bio_put : StructBio → Option Put
unfolding bio_destructor
bio_put bio =
    if bio.bi_cnt == 0
    then none
    else if bio.bi_cnt == 1
    then bio_destructor (record bio { bi_cnt = 0 })
    else some (kept (record bio { bi_cnt = bio.bi_cnt - 1 }))

-- `__bio_clone`: the flag that it tests is the new bio's. The flags keep all but the pool's bits.
unfoldable pub clone_into : StructBio → StructBio → StructBio
clone_into bio bio_src =
    let shared = record bio {
      bi_io_vec = bio_src.bi_io_vec;
      bi_sector = bio_src.bi_sector;
      bi_bdev = bio_src.bi_bdev;
      cloned = true;
      bi_rw = bio_src.bi_rw;
      bi_vcnt = bio_src.bi_vcnt;
      bi_idx = bio_src.bi_idx;
      bi_size = bio_src.bi_size;
      bi_max_vecs = 0;
      pool_idx = 0;
    } in
    if bio.seg_valid
    then record shared {
      bi_phys_segments = bio_src.bi_phys_segments;
      bi_hw_segments = bio_src.bi_hw_segments;
    }
    else shared

unfoldable pub bio_clone : Option StructBio → StructBio → Option StructBio
unfolding bio_alloc clone_into
bio_clone memory bio = do b ← bio_alloc memory true 0; some (clone_into b bio)

-- The pages of a copy: a page for each vector from round `i` on, as `alloc_page` gives them, or those to
-- free again, the latest first.
pub data Pages : Type 0 where
  copied : List BioVec → Pages
  oom : List ℕ → Pages

-- A vector of the copy, before those of the later rounds.
unfoldable pub with_page : BioVec → ℕ → Pages → Pages
with_page bv page (copied cs) = copied (record bv { bv_page = some page } ∷ cs)
with_page bv page (oom pages) = oom pages

unfoldable pub copy_vecs : (ℕ → Option ℕ) → ℕ → List ℕ → List BioVec → Pages
copy_vecs alloc_page i taken [] = copied []
copy_vecs alloc_page i taken (bv ∷ bvs) =
    let rest = λ (page : ℕ). copy_vecs alloc_page (i + 1) (page ∷ taken) bvs in
    elim (alloc_page i) [ none ↦ oom taken | some page ↦ with_page bv page (rest page) ]

-- The table of a copy: the copied vectors at its head.
abbrev pub overlay : List BioVec → List BioVec → List BioVec
overlay [] table = table
overlay (c ∷ cs) [] = []
overlay (c ∷ cs) (v ∷ vs) = c ∷ overlay cs vs

-- The end of `bio_copy`, and its label `oom`: without pages, the bio goes back to its pool, and its table
-- does not.
unfoldable pub copy_onto : StructBio → StructBio → Pages → Option (Option StructBio × List ℕ)
copy_onto b bio (oom pages) = some (none, pages)
copy_onto b bio (copied cs) = do
  table ← b.bi_io_vec
  some (
    some (record b {
      bi_io_vec = some (overlay cs table);
      bi_sector = bio.bi_sector;
      bi_bdev = bio.bi_bdev;
      bi_rw = bio.bi_rw;
      bi_vcnt = bio.bi_vcnt;
      bi_size = bio.bi_size;
    }),
    [],
  )

-- `bio_copy` up to the bytes of the pages: a copy, or NULL with the pages that it frees.
unfoldable pub bio_copy :
    Option StructBio → Bool → (ℕ → Option ℕ) → StructBio → Option (Option StructBio × List ℕ)
bio_copy memory given alloc_page bio = elim (bio_alloc memory given bio.bi_vcnt) [
  | none ↦ some (none, [])
  | some b ↦ do bvs ← segments_from bio 0; copy_onto b bio (copy_vecs alloc_page 0 [] bvs)
]

-- The smaller of two limits, by `if (nr_pages > limit) nr_pages = limit`.
abbrev pub capped : ℕ → ℕ → ℕ
capped nr_pages limit = if ltb limit nr_pages then limit else nr_pages

unfoldable pub bio_get_nr_vecs : Machine → RequestQueue → ℕ
bio_get_nr_vecs machine q =
    capped
      (capped ((q.max_sectors * 2 ^ 9 + page_size machine - 1) / page_size machine)
        q.max_phys_segments)
      q.max_hw_segments

-- The write of an entry of the table; without a table it is a fault.
abbrev pub write_vec : StructBio → BioVec → Option StructBio
write_vec bio bv = do
  table ← bio.bi_io_vec
  some (record bio { bi_io_vec = some (set_vec table bio.bi_vcnt bv) })

-- `bi_phys_segments` or `bi_hw_segments` has reached the limit of the queue.
unfoldable pub segments_full : RequestQueue → StructBio → Bool
segments_full q bio =
    leb q.max_phys_segments bio.bi_phys_segments || leb q.max_hw_segments bio.bi_hw_segments

-- `merge_bvec_fn`, where the queue has one, takes the whole entry.
unfoldable pub accepts : Option (StructBio → BioVec → ℕ) → StructBio → BioVec → Bool
accepts none bio bvec = true
accepts (some f) bio bvec = leb bvec.bv_len (f bio bvec)

-- `bio_add_page` behind the test of the segments.
unfoldable pub enter_page :
    Option (StructBio → BioVec → ℕ) → StructBio → BioVec → Option (ℕ × StructBio)
unfolding accepts
enter_page merge_bvec bio bvec = do
  entered ← write_vec bio bvec
  let allowed : Bool = elim merge_bvec [ none ↦ true | some f ↦ leb bvec.bv_len (f entered bvec) ]
  if allowed
      then some (
        bvec.bv_len,
        record entered {
          bi_vcnt = (bio.bi_vcnt + 1) % ushort_mod;
          bi_phys_segments = (bio.bi_phys_segments + 1) % ushort_mod;
          bi_hw_segments = (bio.bi_hw_segments + 1) % ushort_mod;
          bi_size = (bio.bi_size + bvec.bv_len) % uint_mod;
        },
      )
      else (do cleared ← write_vec entered empty_vec; some (0, cleared))

module _ (k : PhysMap) (q : RequestQueue) where
  -- `bio_add_page`: the bytes that it takes. Once the segments are full, `fail_segments` stays set, so
  -- that behind the recount the second round returns 0 whatever it finds.
  unfoldable pub bio_add_page :
      Option (StructBio → BioVec → ℕ) → StructBio → BioVec → Option (ℕ × StructBio)
  bio_add_page merge_bvec bio bvec =
      if bio.cloned
      then some (0, bio)
      else if leb bio.bi_max_vecs bio.bi_vcnt
      then some (0, bio)
      else if ltb q.max_sectors ((bio.bi_size + bvec.bv_len) % uint_mod / 2 ^ 9)
      then some (0, bio)
      else (do
        counted ← recount_if_stale k q bio
        if segments_full q counted
            then (do
              recounted ← recount_if_stale k q (record counted { seg_valid = false })
              some (0, recounted))
            else enter_page merge_bvec counted bvec)
