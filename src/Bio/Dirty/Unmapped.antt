-- ===== src/Bio/Dirty/Unmapped.antt =====
-- What bio_unmap_user of ucsb-io/ucsb-io-2.5.67/fs/bio.c does with the pages of a bio.
use ucsb_disk_profiling.Prelude.{
  ℕ, suc, ◌≡◌, ◌⊎◌, inl, inr, refl, none, some, Bool, true, false, List, [], ◌∷◌, ◌++◌,
  if◌then◌else◌, arith, length, length-append,
}
use mathlib.Core.List.{append-nil, append_assoc}
use ucsb_disk_profiling.Prelude.Tests.{Bool-cases}
use ucsb_disk_profiling.Block.{update}
use ucsb_disk_profiling.Segments.{BioVec, StructBio}
use ucsb_disk_profiling.Bio.{freed, bio_put, bio_destructor}
use ucsb_disk_profiling.Bio.Dirty.Scan.{
  HasPages, no_pages, a_page, AllDirty, none_left, one_dirty, IsMapped,
}
use ucsb_disk_profiling.Bio.Dirty.{PageState, unmap_vecs, bio_unmap_user}

-- The dirty bits after each of the pages is set.
abbrev marked : (ℕ → Bool) → List ℕ → ℕ → Bool
marked dirty [] = dirty
marked dirty (page ∷ pages) = marked (update dirty page true) pages

marked_mono :
    (dirty : ℕ → Bool) (pages : List ℕ) (page : ℕ)
    → dirty page ≡ true
    → marked dirty pages page ≡ true
marked_mono dirty [] page d = d
marked_mono dirty (p ∷ pages) page d =
    marked_mono (update dirty p true) pages page (ground (arith, d))

marked-AllDirty : (dirty : ℕ → Bool) (pages : List ℕ) → AllDirty (marked dirty pages) pages
marked-AllDirty dirty [] = none_left
marked-AllDirty dirty (page ∷ pages) =
    let set = update dirty page true in
    one_dirty (marked_mono set pages page (ground arith)) (marked-AllDirty set pages)

written-AllDirty :
    (write_to_vm : Bool) (dirty : ℕ → Bool) (pages : List ℕ)
    → (write_to_vm ≡ false) ⊎ AllDirty (if write_to_vm then marked dirty pages else dirty) pages
written-AllDirty true dirty pages = inr (marked-AllDirty dirty pages)
written-AllDirty false dirty pages = inl refl

-- The state behind the loop.
abbrev unmapped : PageState → Bool → List ℕ → PageState
unmapped s write_to_vm pages = record s {
  dirty = if write_to_vm then marked s.dirty pages else s.dirty;
  released = s.released ++ pages;
}

unmap_vecs-unmapped :
    (s : PageState) (write_to_vm : Bool) (bvs : List BioVec) (pages : List ℕ)
    → HasPages bvs pages
    → unmap_vecs s write_to_vm bvs ≡ some (unmapped s write_to_vm pages)
unfolding unmap_vecs
unmap_vecs-unmapped s write_to_vm bvs pages no_pages =
    ground (arith, append-nil s.released, Bool-cases write_to_vm)
unmap_vecs-unmapped s write_to_vm bvs pages (a_page {bv} {page} {bvs = bs} {pages = ps} e more) =
    let next : PageState = record s {
      dirty = if write_to_vm then update s.dirty page true else s.dirty;
      released = s.released ++ (page ∷ []);
    } in
    ground (
      arith,
      e,
      unmap_vecs-unmapped next write_to_vm bs ps more,
      append_assoc s.released (page ∷ []) ps,
      Bool-cases write_to_vm,
    )

-- bio_unmap_user of a bio that was not bounced: the bio is put once, page_cache_release has run once for
-- each page, in order, and all the pages are dirty if they were written to.
pub unmap-releases_all :
    (bio_at : ℕ → StructBio) (s : PageState) (bio : StructBio) (write_to_vm : Bool) (pages : List ℕ)
    → IsMapped bio pages
    → bio.bi_private ≡ none
    → (final : PageState) × (bio_unmap_user bio_at s bio write_to_vm ≡ some final)
      × (final.released ≡ s.released ++ pages)
      × (length final.puts ≡ suc (length s.puts))
      × ((write_to_vm ≡ false) ⊎ AllDirty final.dirty pages)
unfolding bio_unmap_user bio_put bio_destructor
unmap-releases_all bio_at s bio write_to_vm pages m e =
    let put = freed (if bio.cloned then none else some bio.pool_idx) in
    let after = unmapped s write_to_vm pages in
    (
      record after { puts = s.puts ++ (put ∷ []) },
      ground (
        arith,
        e,
        m.at_table,
        m.in_use,
        unmap_vecs-unmapped s write_to_vm m.bvs pages m.mapped,
        m.last_reference,
        m.from_pool,
      ),
      refl,
      omega (arith, length-append {0} s.puts (put ∷ [])),
      written-AllDirty write_to_vm s.dirty pages,
    )
