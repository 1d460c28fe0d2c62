-- ===== src/Bio/Dirty.antt =====
-- The pages of a bio and their dirty bits in ucsb-io/ucsb-io-2.5.67/fs/bio.c: bio_set_pages_dirty,
-- bio_check_pages_dirty with its deferred work, and bio_unmap_user.
pub mod Released
pub mod Scan
pub mod Unmapped
use ucsb_disk_profiling.Prelude.{
  ℕ, zero, suc, ◌+◌, Option, none, some, Bool, true, false, List, [], ◌∷◌, ◌++◌, ◌==◌,
  if◌then◌else◌, ◌>>=◌,
}
use ucsb_disk_profiling.Block.{update}
use ucsb_disk_profiling.Segments.{BioVec, StructBio, entries}
use ucsb_disk_profiling.Bio.{Put, bio_put, overlay}

-- What the code leaves behind: the dirty bits of the pages, the calls of `page_cache_release`, the bios
-- of `bio_dirty_list`, and the outcomes of `bio_put`.
pub record PageState : Type 0 where
  pub dirty : ℕ → Bool
  pub released : List ℕ
  pub bio_dirty_list : List StructBio
  pub puts : List Put

-- The first `bi_vcnt` vectors; the table is not read where there are none.
abbrev pub vecs_of : StructBio → Option (List BioVec)
vecs_of bio = elim bio.bi_io_vec [
  | none ↦ if bio.bi_vcnt == 0 then some [] else none
  | some table ↦ entries bio.bi_vcnt table
]

unfoldable pub set_vecs_dirty : (ℕ → Bool) → List BioVec → ℕ → Bool
set_vecs_dirty dirty [] = dirty
set_vecs_dirty dirty (bv ∷ bvs) =
    let rest = λ (d : ℕ → Bool). set_vecs_dirty d bvs in
    elim bv.bv_page [ none ↦ rest dirty | some page ↦ rest (update dirty page true) ]

unfoldable pub bio_set_pages_dirty : PageState → StructBio → Option PageState
bio_set_pages_dirty s bio = do
  bvs ← vecs_of bio
  some (record s { dirty = set_vecs_dirty s.dirty bvs })

-- What the loop of `bio_check_pages_dirty` makes of the vectors.
pub record Checked : Type 0 where
  pub vecs : List BioVec
  pub nr_clean_pages : ℕ
  pub released : List ℕ

abbrev pub check_vec : (ℕ → Bool) → BioVec → ℕ → Checked → Checked
check_vec dirty bv page c =
    if dirty page
    then record {
      vecs = record bv { bv_page = none } ∷ c.vecs;
      nr_clean_pages = c.nr_clean_pages;
      released = page ∷ c.released;
    }
    else record { vecs = bv ∷ c.vecs; nr_clean_pages = c.nr_clean_pages + 1; released = c.released }

-- A vector without a page is a fault.
unfoldable pub check_vecs : (ℕ → Bool) → List BioVec → Option Checked
check_vecs dirty [] = some (record { vecs = []; nr_clean_pages = 0; released = [] })
check_vecs dirty (bv ∷ bvs) =
    let rest = check_vecs dirty bvs in
    do page ← bv.bv_page; c ← rest; some (check_vec dirty bv page c)

abbrev pub put_bio : PageState → StructBio → Option PageState
put_bio s bio = do p ← bio_put bio; some (record s { puts = s.puts ++ (p ∷ []) })

unfoldable pub bio_check_pages_dirty : PageState → StructBio → Option PageState
bio_check_pages_dirty s bio = do
  bvs ← vecs_of bio
  c ← check_vecs s.dirty bvs
  let table = elim bio.bi_io_vec as (λ _. Option (List BioVec)) [
    | none ↦ none
    | some vs ↦ some (overlay c.vecs vs)
  ]
  let checked = record bio { bi_io_vec = table }
  let after = record s { released = s.released ++ c.released }
  if c.nr_clean_pages == 0
      then put_bio after checked
      else some (record after { bio_dirty_list = checked ∷ s.bio_dirty_list })

unfoldable pub dirty_bios : PageState → List StructBio → Option PageState
dirty_bios s [] = some s
dirty_bios s (bio ∷ bios) =
    let rest = λ (next : PageState). dirty_bios next bios in
    do dirtied ← bio_set_pages_dirty s bio; after ← put_bio dirtied bio; rest after

unfoldable pub bio_dirty_fn : PageState → Option PageState
unfolding dirty_bios
bio_dirty_fn s = dirty_bios (record s { bio_dirty_list = [] }) s.bio_dirty_list

-- The loop of `bio_unmap_user`.
unfoldable pub unmap_vecs : PageState → Bool → List BioVec → Option PageState
unmap_vecs s write_to_vm [] = some s
unmap_vecs s write_to_vm (bv ∷ bvs) =
    let rest = λ (next : PageState). unmap_vecs next write_to_vm bvs in
    do
      page ← bv.bv_page
      rest (record s {
        dirty = if write_to_vm then update s.dirty page true else s.dirty;
        released = s.released ++ (page ∷ []);
      })

-- `bio_at` is what the pointer `bi_private` leads to; a bio that is not bounced and has one is a BUG.
unfoldable pub bio_unmap_user : (ℕ → StructBio) → PageState → StructBio → Bool → Option PageState
unfolding unmap_vecs
bio_unmap_user bio_at s bio write_to_vm = do
  original ← (elim bio.bi_private [
    | none ↦ some bio
    | some p ↦ if bio.bounced then some (bio_at p) else none
  ])
  bvs ← vecs_of original
  after ← unmap_vecs s write_to_vm bvs
  put_bio after original
