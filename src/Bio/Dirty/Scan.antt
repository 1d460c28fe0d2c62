-- ===== src/Bio/Dirty/Scan.antt =====
-- What the loop of bio_check_pages_dirty in ucsb-io/ucsb-io-2.5.67/fs/bio.c leaves of the vectors.
use ucsb_disk_profiling.Prelude.{
  ℕ, suc, ◌+◌, ◌<◌, ◌≡◌, ◌⊎◌, inl, inr, refl, none, some, Bool, true, List, [], ◌∷◌, if◌then◌else◌,
  arith, length, ap, Option-cases,
}
use ucsb_disk_profiling.Prelude.Tests.{Bool-cases}
use ucsb_disk_profiling.Block.{update}
use ucsb_disk_profiling.Segments.{BioVec, StructBio, entries}
use ucsb_disk_profiling.Bio.Dirty.{Checked, set_vecs_dirty, check_vecs}

-- The vectors have these pages, in order.
pub data HasPages : List BioVec → List ℕ → Type 0 where
  no_pages : HasPages [] []
  a_page :
      {bv : BioVec} {page : ℕ} {bvs : List BioVec} {pages : List ℕ}
      → bv.bv_page ≡ some page
      → HasPages bvs pages
      → HasPages (bv ∷ bvs) (page ∷ pages)

-- The pages with their dirty bit set.
abbrev pub dirty_of : (ℕ → Bool) → List ℕ → List ℕ
dirty_of dirty [] = []
dirty_of dirty (page ∷ pages) =
    let rest = dirty_of dirty pages in if dirty page then page ∷ rest else rest

pub data AllDirty (dirty : ℕ → Bool) : List ℕ → Type 0 where
  none_left : AllDirty dirty []
  one_dirty :
      {page : ℕ} {pages : List ℕ}
      → dirty page ≡ true
      → AllDirty dirty pages
      → AllDirty dirty (page ∷ pages)

-- The vectors that are left: those of dirty pages without a page, the others as they were.
pub data Kept (dirty : ℕ → Bool) : List ℕ → List BioVec → Type 0 where
  kept_all : Kept dirty [] []
  was_dirty :
      {page : ℕ} {bv : BioVec} {pages : List ℕ} {vecs : List BioVec}
      → dirty page ≡ true
      → bv.bv_page ≡ none
      → Kept dirty pages vecs
      → Kept dirty (page ∷ pages) (bv ∷ vecs)
  was_clean :
      {page : ℕ} {bv : BioVec} {pages : List ℕ} {vecs : List BioVec}
      → bv.bv_page ≡ some page
      → Kept dirty pages vecs
      → Kept dirty (page ∷ pages) (bv ∷ vecs)

pub record Scanned (dirty : ℕ → Bool) (bvs : List BioVec) (pages : List ℕ) (c : Checked)
    : Type 0 where
  pub runs : check_vecs dirty bvs ≡ some c
  pub frees : c.released ≡ dirty_of dirty pages
  pub kept : Kept dirty pages c.vecs
  pub same_length : length c.vecs ≡ length bvs
  pub clean : (0 < c.nr_clean_pages) ⊎ AllDirty dirty pages

pub scanned :
    (dirty : ℕ → Bool) (bvs : List BioVec) (pages : List ℕ)
    → HasPages bvs pages
    → (c : Checked) × Scanned dirty bvs pages c
unfolding check_vecs
scanned dirty bvs pages no_pages = (
  record { vecs = []; nr_clean_pages = 0; released = [] },
  record { runs = refl; frees = refl; kept = kept_all; same_length = refl; clean = inr none_left },
)
scanned dirty bvs pages (a_page {bv} {page} {bvs = bvs'} {pages = pages'} e more) =
    let (c, s) = scanned dirty bvs' pages' more in
    elim (Bool-cases (dirty page)) [
      | inl d ↦ (
        record {
          vecs = record bv { bv_page = none } ∷ c.vecs;
          nr_clean_pages = c.nr_clean_pages;
          released = page ∷ c.released;
        },
        record {
          runs = ground (arith, e, s.runs, d);
          frees = ground (arith, s.frees, d);
          kept = was_dirty d refl s.kept;
          same_length = ap suc s.same_length;
          clean = elim s.clean [ inl l ↦ inl l | inr a ↦ inr (one_dirty d a) ];
        },
      )
      | inr d ↦ (
        record { vecs = bv ∷ c.vecs; nr_clean_pages = c.nr_clean_pages + 1; released = c.released },
        record {
          runs = ground (arith, e, s.runs, d);
          frees = ground (arith, s.frees, d);
          kept = was_clean e s.kept;
          same_length = ap suc s.same_length;
          clean = inl (omega arith);
        },
      )
    ]

set_vecs_dirty_mono :
    (dirty : ℕ → Bool) (bvs : List BioVec) (page : ℕ)
    → dirty page ≡ true
    → set_vecs_dirty dirty bvs page ≡ true
unfolding set_vecs_dirty
set_vecs_dirty_mono dirty [] page d = d
set_vecs_dirty_mono dirty (bv ∷ bvs) page d = elim (Option-cases bv.bv_page) [
  | inl e ↦ ground (arith, e, set_vecs_dirty_mono dirty bvs page d)
  | inr (p, e) ↦
      ground (arith, e, set_vecs_dirty_mono (update dirty p true) bvs page (ground (arith, d)))
]

skip_vec :
    (dirty : ℕ → Bool) (bv : BioVec) (bvs : List BioVec)
    → bv.bv_page ≡ none
    → set_vecs_dirty dirty (bv ∷ bvs) ≡ set_vecs_dirty dirty bvs
unfolding set_vecs_dirty
skip_vec dirty bv bvs e = rw e refl

mark_vec :
    (dirty : ℕ → Bool) (bv : BioVec) (bvs : List BioVec) (page : ℕ)
    → bv.bv_page ≡ some page
    → set_vecs_dirty dirty (bv ∷ bvs) ≡ set_vecs_dirty (update dirty page true) bvs
unfolding set_vecs_dirty
mark_vec dirty bv bvs page e = rw e refl

-- After the deferred work, the pages are dirty that were, or that still have their vector.
pub Kept-AllDirty :
    (dirty later : ℕ → Bool) (pages : List ℕ) (vecs : List BioVec)
    → ((page : ℕ) → dirty page ≡ true → later page ≡ true)
    → Kept dirty pages vecs
    → AllDirty (set_vecs_dirty later vecs) pages
Kept-AllDirty dirty later pages vecs h kept_all = none_left
Kept-AllDirty dirty later pages vecs h (was_dirty {page} {bv} {pages = ps} {vecs = vs} d e k) =
    one_dirty (set_vecs_dirty_mono later (bv ∷ vs) page (h page d))
      (rw (skip_vec later bv vs e) (Kept-AllDirty dirty later ps vs h k))
Kept-AllDirty dirty later pages vecs h (was_clean {page} {bv} {pages = ps} {vecs = vs} e k) =
    let marked = update later page true in
    one_dirty (rw (mark_vec later bv vs page e) (set_vecs_dirty_mono marked vs page (ground arith)))
      (rw (mark_vec later bv vs page e)
        (Kept-AllDirty dirty marked ps vs (λ p d. ground (arith, h p d)) k))

-- A bio with one reference, a table from a pool, and a page in each of its vectors.
pub record IsMapped (bio : StructBio) (pages : List ℕ) : Type 0 where
  pub table : List BioVec
  pub bvs : List BioVec
  pub at_table : bio.bi_io_vec ≡ some table
  pub in_use : entries bio.bi_vcnt table ≡ some bvs
  pub mapped : HasPages bvs pages
  pub last_reference : bio.bi_cnt ≡ 1
  pub from_pool : bio.pool_idx < 6
