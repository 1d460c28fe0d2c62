-- ===== src/Bio/Clone.antt =====
-- Clones and copies of a bio in ucsb-io/ucsb-io-2.5.67/fs/bio.c.
use ucsb_disk_profiling.Prelude.{
  ℕ, suc, ◌+◌, ◌-◌, ◌≤◌, ◌<◌, ◌≡◌, inl, inr, refl, ap, Option, none, some, true, false, List, [],
  ◌∷◌, arith, length, Option-cases,
}
use ucsb_disk_profiling.Blk.Queue.{RequestQueue}
use ucsb_disk_profiling.Segments.{BioVec, StructBio, PhysMap, pending_segments, segments_from}
use ucsb_disk_profiling.Segments.Table.{length-entries}
use ucsb_disk_profiling.Bio.{
  bio_init, bio_alloc, bio_clone, clone_into, bio_put, bio_destructor, freed, bio_add_page, Pages,
  copied, oom, copy_vecs, with_page, overlay, copy_onto, bio_copy,
}
use ucsb_disk_profiling.Bio.Filled.{entries-overlay}
use ucsb_disk_profiling.Bio.Table.{alloc_room}

-- With memory for a bio, bio_clone gives a bio with one reference that has the table, the vectors left
-- and the place of the source: it takes no page, whatever queue it is for, and its last bio_put gives no
-- table back. It has no QoS parameters and no valid segment counts, whatever the source has.
pub clone-shares :
    (k : PhysMap) (q : RequestQueue) (merge_bvec : Option (StructBio → BioVec → ℕ))
    (garbage bio : StructBio) (bvec : BioVec)
    → (clone : StructBio) × (bio_clone (some garbage) bio ≡ some clone)
      × (pending_segments clone ≡ pending_segments bio)
      × (clone.bi_sector ≡ bio.bi_sector)
      × (clone.bi_bdev ≡ bio.bi_bdev)
      × (clone.bi_size ≡ bio.bi_size)
      × (clone.bi_rw ≡ bio.bi_rw)
      × (bio_add_page k q merge_bvec clone bvec ≡ some (0, clone))
      × (bio_put clone ≡ some (freed none))
      × (clone.bi_qos ≡ none)
      × (clone.seg_valid ≡ false)
unfolding bio_clone bio_alloc bio_init clone_into pending_segments segments_from bio_add_page
    bio_put bio_destructor
clone-shares k q merge_bvec garbage bio bvec =
    (clone_into (bio_init garbage) bio, refl, refl, refl, refl, refl, refl, refl, refl, refl, refl)

length-segments :
    (bio : StructBio) (bvs : List BioVec)
    → segments_from bio 0 ≡ some bvs
    → length bvs ≡ bio.bi_vcnt
unfolding segments_from
length-segments bio bvs e = elim (Option-cases bio.bi_io_vec) [
  | inl f ↦ absurd (ground (arith, e, f))
  | inr (table, f) ↦ length-entries bio.bi_vcnt table bvs (ground (arith, e, f))
]

module _ (alloc_page : ℕ → Option ℕ) where
  -- The vectors of a copy from round `i` on: pages of their own, with the lengths and offsets of the
  -- source.
  pub data CopyOf : ℕ → List BioVec → List BioVec → Type 0 where
    end : {i : ℕ} → CopyOf i [] []
    next :
        {i page : ℕ} {bv : BioVec} {bvs cs : List BioVec}
        → alloc_page i ≡ some page
        → CopyOf (i + 1) bvs cs
        → CopyOf i (bv ∷ bvs) (record bv { bv_page = some page } ∷ cs)

  -- The pages of the rounds before `n`, the latest first.
  pub data GivenBefore : ℕ → List ℕ → Type 0 where
    nothing : GivenBefore 0 []
    one_more :
        {n page : ℕ} {pages : List ℕ}
        → alloc_page n ≡ some page
        → GivenBefore n pages
        → GivenBefore (n + 1) (page ∷ pages)

  -- What the loop over the vectors from round `i` on ends with.
  data Loop (i : ℕ) (bvs : List BioVec) : Pages → Type 0 where
    through : {cs : List BioVec} → CopyOf i bvs cs → Loop i bvs (copied cs)
    short :
        {pages : List ℕ} (n : ℕ)
        → n < i + length bvs
        → alloc_page n ≡ none
        → GivenBefore n pages
        → Loop i bvs (oom pages)

  longer :
      (i page : ℕ) (bv : BioVec) (bvs : List BioVec) (rest : Pages)
      → alloc_page i ≡ some page
      → Loop (i + 1) bvs rest
      → Loop i (bv ∷ bvs) (with_page bv page rest)
  unfolding with_page
  longer i page bv bvs rest e (through copy) = through (next e copy)
  longer i page bv bvs rest e (short n l f g) = short n (omega (arith, l)) f g

  copy_vecs-Loop :
      (i : ℕ) (taken : List ℕ) (bvs : List BioVec)
      → GivenBefore i taken
      → Loop i bvs (copy_vecs alloc_page i taken bvs)
  unfolding copy_vecs
  copy_vecs-Loop i taken [] g = through end
  copy_vecs-Loop i taken (bv ∷ bvs) g = elim (Option-cases (alloc_page i)) [
    | inl e ↦
        let stop : copy_vecs alloc_page i taken (bv ∷ bvs) ≡ oom taken = ground (arith, e) in
        rw stop (short i (omega arith) e g)
    | inr (page, e) ↦
        let rest = copy_vecs alloc_page (i + 1) (page ∷ taken) bvs in
        let loop = copy_vecs-Loop (i + 1) (page ∷ taken) bvs (one_more e g) in
        let on : copy_vecs alloc_page i taken (bv ∷ bvs) ≡ with_page bv page rest =
          ground (arith, e) in
        rw on (longer i page bv bvs rest e loop)
  ]

  length-CopyOf : (i : ℕ) (bvs cs : List BioVec) → CopyOf i bvs cs → length cs ≡ length bvs
  length-CopyOf i bvs cs end = refl
  length-CopyOf i bvs cs (next {bvs = bvs'} {cs = cs'} e copy) =
      ap suc (length-CopyOf (i + 1) bvs' cs' copy)

  -- What bio_copy ends with: a copy with its own pages, in the place of the source, with one reference and
  -- no QoS parameters; or NULL after round `n` found no page, with all pages before freed.
  pub data Copying (bio : StructBio) (bvs : List BioVec) : Option StructBio → List ℕ → Type 0 where
    made :
        {copy : StructBio} {cs : List BioVec}
        → segments_from copy 0 ≡ some cs
        → CopyOf 0 bvs cs
        → copy.bi_sector ≡ bio.bi_sector
        → copy.bi_bdev ≡ bio.bi_bdev
        → copy.bi_size ≡ bio.bi_size
        → copy.bi_cnt ≡ 1
        → copy.bi_qos ≡ none
        → Copying bio bvs (some copy) []
    failed :
        {pages : List ℕ} (n : ℕ)
        → n < length bvs
        → alloc_page n ≡ none
        → GivenBefore n pages
        → Copying bio bvs none pages

  copy_onto-Copying :
      (b bio : StructBio) (table bvs : List BioVec) (pages : Pages)
      → b.bi_io_vec ≡ some table
      → bio.bi_vcnt ≤ length table
      → b.bi_cnt ≡ 1
      → b.bi_qos ≡ none
      → length bvs ≡ bio.bi_vcnt
      → Loop 0 bvs pages
      → (result : Option StructBio) × (freed_pages : List ℕ) × (copy_onto b bio pages
          ≡ some (result, freed_pages))
        × Copying bio bvs result freed_pages
  unfolding copy_onto segments_from
  copy_onto-Copying b bio table bvs pages t room cnt qos vecs (through {cs} copy) = (
    some (record b {
      bi_io_vec = some (overlay cs table);
      bi_sector = bio.bi_sector;
      bi_bdev = bio.bi_bdev;
      bi_rw = bio.bi_rw;
      bi_vcnt = bio.bi_vcnt;
      bi_size = bio.bi_size;
    }),
    [],
    ground (arith, t),
    made
        (entries-overlay (bio.bi_vcnt - 0) cs table
          (omega (arith, length-CopyOf 0 bvs cs copy, vecs)) (omega (arith, room)))
        copy refl refl refl cnt qos,
  )
  copy_onto-Copying b bio table bvs pages t room cnt qos vecs (short {pages = taken} n l f g) =
      (none, taken, refl, failed n (omega (arith, l)) f g)

  -- With memory for a bio and its table, bio_copy of a bio of 1 to 256 vectors does not fault: it gives a
  -- copy with one reference, its own pages of the same lengths and offsets, and no QoS parameters, or
  -- NULL, where there is no page for a vector, with exactly the pages before freed.
  pub bio_copy-Copying :
      (garbage bio : StructBio) (bvs : List BioVec)
      → segments_from bio 0 ≡ some bvs
      → 1 ≤ bio.bi_vcnt
      → bio.bi_vcnt ≤ 256
      → (result : Option StructBio) × (freed_pages : List ℕ) × (bio_copy
            (some garbage)
            true
            alloc_page
            bio
          ≡ some (result, freed_pages))
        × Copying bio bvs result freed_pages
  unfolding bio_copy
  bio_copy-Copying garbage bio bvs e h l =
      let (b, table, made_bio, t, long, room, _, _, _, _, cnt, _, _, qos) =
        alloc_room garbage bio.bi_vcnt h l in
      let loop = copy_vecs-Loop 0 [] bvs nothing in
      let (result, freed_pages, p, copying) =
        copy_onto-Copying b bio table bvs (copy_vecs alloc_page 0 [] bvs) t
          (omega (arith, long, room)) cnt qos (length-segments bio bvs e) loop in
      (result, freed_pages, ground (arith, made_bio, e, p), copying)
