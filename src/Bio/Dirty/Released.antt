-- ===== src/Bio/Dirty/Released.antt =====
-- Which pages ucsb-io/ucsb-io-2.5.67/fs/bio.c releases after direct I/O.
use ucsb_disk_profiling.Prelude.{
  ℕ, zero, suc, ◌≤◌, ◌<◌, ◌≡◌, inl, inr, refl, ◌∙◌, none, some, List, [], ◌∷◌, ◌++◌, ◌==◌,
  if◌then◌else◌, arith, length, length-append, ap, Option-cases,
}
use ucsb_disk_profiling.Prelude.Tests.{Bool-cases}
use ucsb_disk_profiling.Segments.{BioVec, StructBio, entries}
use ucsb_disk_profiling.Segments.Table.{length-entries}
use ucsb_disk_profiling.Bio.{freed, bio_put, bio_destructor, overlay}
use ucsb_disk_profiling.Bio.Filled.{entries-overlay}
use ucsb_disk_profiling.Bio.Dirty.Scan.{
  dirty_of, AllDirty, Scanned, scanned, Kept-AllDirty, IsMapped,
}
use ucsb_disk_profiling.Bio.Dirty.{
  PageState, Checked, vecs_of, set_vecs_dirty, bio_set_pages_dirty, bio_check_pages_dirty,
  dirty_bios, bio_dirty_fn, put_bio,
}

entries-room : (n : ℕ) (table bvs : List BioVec) → entries n table ≡ some bvs → n ≤ length table
entries-room zero table bvs e = omega arith
entries-room (suc n) [] bvs e = absurd (ground (arith, e))
entries-room (suc n) (x ∷ xs) bvs e = elim (Option-cases (entries n xs)) [
  | inl f ↦ absurd (ground (arith, e, f))
  | inr (ys, f) ↦ omega (arith, entries-room n xs ys f)
]

module _ (s : PageState) (bio : StructBio) (pages : List ℕ) (m : IsMapped bio pages) (c : Checked)
    (scan : Scanned s.dirty m.bvs pages c) where
  -- The bio behind the check, whose vectors are those that the scan leaves.
  checked : StructBio
  checked = record bio { bi_io_vec = some (overlay c.vecs m.table) }

  -- With no clean page, the bio is put at once.
  check_all_dirty :
      c.nr_clean_pages ≡ 0
      → bio_check_pages_dirty s bio
        ≡ some (record s {
          released = s.released ++ c.released;
          puts = s.puts ++ (freed (if bio.cloned then none else some bio.pool_idx) ∷ []);
        })
  unfolding bio_check_pages_dirty bio_put bio_destructor
  check_all_dirty z =
      ground (arith, m.at_table, m.in_use, scan.runs, z, m.last_reference, m.from_pool)

  -- With a clean page, the bio waits for the deferred work.
  check_some_clean :
      0 < c.nr_clean_pages
      → bio_check_pages_dirty s bio
        ≡ some (record s {
          released = s.released ++ c.released;
          bio_dirty_list = checked ∷ s.bio_dirty_list;
        })
  unfolding bio_check_pages_dirty checked
  check_some_clean z = ground (arith, m.at_table, m.in_use, scan.runs, z)

  checked_vecs : vecs_of checked ≡ some c.vecs
  unfolding checked
  checked_vecs =
      let n = length-entries bio.bi_vcnt m.table m.bvs m.in_use in
      entries-overlay bio.bi_vcnt c.vecs m.table (omega (arith, n, scan.same_length))
        (entries-room bio.bi_vcnt m.table m.bvs m.in_use)

  put_checked :
      (w : PageState)
      → put_bio w checked
        ≡ some (record w {
          puts = w.puts ++ (freed (if bio.cloned then none else some bio.pool_idx) ∷ []);
        })
  unfolding bio_put bio_destructor checked
  put_checked w = ground (arith, m.last_reference, m.from_pool)

  set_checked :
      (w : PageState)
      → bio_set_pages_dirty w checked ≡ some (record w { dirty = set_vecs_dirty w.dirty c.vecs })
  unfolding bio_set_pages_dirty
  set_checked w = ground (arith, checked_vecs)

  -- The deferred work marks the pages that are left, and puts the bio.
  dirty_checked :
      (w : PageState)
      → dirty_bios w (checked ∷ [])
        ≡ some (record w {
          dirty = set_vecs_dirty w.dirty c.vecs;
          puts = w.puts ++ (freed (if bio.cloned then none else some bio.pool_idx) ∷ []);
        })
  unfolding dirty_bios
  dirty_checked w =
      ground
        (arith, set_checked w, put_checked (record w { dirty = set_vecs_dirty w.dirty c.vecs }))

work_on :
    (w : PageState) (bios : List StructBio)
    → w.bio_dirty_list ≡ bios
    → bio_dirty_fn w ≡ dirty_bios (record w { bio_dirty_list = [] }) bios
unfolding bio_dirty_fn
work_on w bios e = ap (dirty_bios (record w { bio_dirty_list = [] })) e

no_work :
    (w : PageState)
    → w.bio_dirty_list ≡ []
    → bio_dirty_fn w ≡ some (record w { bio_dirty_list = [] })
unfolding dirty_bios
no_work w e = work_on w [] e

-- bio_check_pages_dirty for such a bio, with no bio waiting, and then the deferred work: the bio is put
-- once, all its pages are dirty, and page_cache_release has run for exactly the pages that were dirty at
-- the check, in their order.
pub check-releases_dirty :
    (s : PageState) (bio : StructBio) (pages : List ℕ)
    → IsMapped bio pages
    → s.bio_dirty_list ≡ []
    → (after final : PageState) × (bio_check_pages_dirty s bio ≡ some after)
      × (bio_dirty_fn after ≡ some final)
      × (final.released ≡ s.released ++ dirty_of s.dirty pages)
      × AllDirty final.dirty pages
      × (final.bio_dirty_list ≡ [])
      × (length final.puts ≡ suc (length s.puts))
check-releases_dirty s bio pages m e =
    let (c, scan) = scanned s.dirty m.bvs pages m.mapped in
    let put = freed (if bio.cloned then none else some bio.pool_idx) in
    elim (Bool-cases (c.nr_clean_pages == 0)) [
      | inl z ↦
          let final : PageState = record s {
            released = s.released ++ c.released;
            puts = s.puts ++ (put ∷ []);
          } in
          (
            final,
            record final { bio_dirty_list = [] },
            check_all_dirty s bio pages m c scan (ground (arith, z)),
            no_work final e,
            ap (λ r. s.released ++ r) scan.frees,
            elim scan.clean [ inl l ↦ absurd (ground (arith, l, z)) | inr a ↦ a ],
            refl,
            omega (arith, length-append {0} s.puts (put ∷ [])),
          )
      | inr z ↦
          let w = checked s bio pages m c scan in
          let after : PageState = record s {
            released = s.released ++ c.released;
            bio_dirty_list = w ∷ s.bio_dirty_list;
          } in
          (
            after,
            record after {
              dirty = set_vecs_dirty s.dirty c.vecs;
              puts = s.puts ++ (put ∷ []);
              bio_dirty_list = [];
            },
            check_some_clean s bio pages m c scan (ground (arith, z)),
            work_on after (w ∷ []) (ap (λ l. w ∷ l) e)
                ∙ dirty_checked s bio pages m c scan (record after { bio_dirty_list = [] }),
            ap (λ r. s.released ++ r) scan.frees,
            Kept-AllDirty s.dirty s.dirty pages c.vecs (λ p d. d) scan.kept,
            refl,
            omega (arith, length-append {0} s.puts (put ∷ [])),
          )
    ]
