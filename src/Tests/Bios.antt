-- ===== src/Tests/Bios.antt =====
-- The theorems about the life of a bio, each at a concrete state.
use ucsb_disk_profiling.Prelude.{
  ◌==◌, ◌⊎◌, ℕ, ◌*◌, ◌≤◌, ◌<◌, ◌≡◌, refl, Option, none, some, true, false, List, [], ◌∷◌, ltb, inr,
  arith, length, if◌then◌else◌,
}
use ucsb_disk_profiling.Blk.Queue.{RequestQueue}
use ucsb_disk_profiling.Segments.{BioVec, StructBio, segments_from}
use ucsb_disk_profiling.Segments.Count.{segments, segments_behind}
use ucsb_disk_profiling.Bio.{
  pool_vecs, bio_alloc, freed, bio_put, bio_copy, bio_add_page, empty_vec,
}
use ucsb_disk_profiling.Bio.Table.{alloc_room}
use ucsb_disk_profiling.Bio.Filled.{IsFilled, Added}
use ucsb_disk_profiling.Bio.Add.{bio_add_page-Added}
use ucsb_disk_profiling.Bio.Clone.{Copying, bio_copy-Copying}
use ucsb_disk_profiling.Bio.Dirty.{PageState, bio_check_pages_dirty, bio_dirty_fn, bio_unmap_user}
use ucsb_disk_profiling.Bio.Dirty.Scan.{no_pages, a_page, AllDirty, IsMapped}
use ucsb_disk_profiling.Bio.Dirty.Released.{check-releases_dirty}
use ucsb_disk_profiling.Bio.Dirty.Unmapped.{unmap-releases_all}
use ucsb_disk_profiling.Tests.Queues.{queue, phys, page, two_pages}

alloc_room_example :
    (bio : StructBio) × (table : List BioVec) × (bio_alloc (some two_pages) true 17 ≡ some bio)
    × (bio.bi_io_vec ≡ some table)
    × (length table ≡ bio.bi_max_vecs)
    × (17 ≤ bio.bi_max_vecs)
    × (bio.bi_max_vecs < 17 * 4)
    × (bio.bi_max_vecs ≤ 256)
    × (pool_vecs bio.pool_idx ≡ bio.bi_max_vecs)
    × (bio_put bio ≡ some (freed (some bio.pool_idx)))
    × (bio.bi_cnt ≡ 1)
    × (bio.bi_vcnt ≡ 0)
    × (bio.bi_size ≡ 0)
    × (bio.bi_qos ≡ none)
alloc_room_example = alloc_room two_pages 17 (omega arith) (omega arith)

-- Two of four vectors are in use; their pages are one segment, counted as two.
abbrev filling : StructBio
filling = record two_pages {
  bi_io_vec = some (page 1 ∷ page 2 ∷ empty_vec ∷ empty_vec ∷ []);
  bi_phys_segments = 2;
  bi_hw_segments = 2;
}

filling-IsFilled :
    (q : RequestQueue) → 16 ≤ q.max_sectors → IsFilled phys q filling (page 1 ∷ page 2 ∷ [])
unfolding segments segments_behind
filling-IsFilled q h = record {
  table = page 1 ∷ page 2 ∷ empty_vec ∷ empty_vec ∷ [];
  at_table = refl;
  in_use = refl;
  room = refl;
  within_count = omega arith;
  from_start = refl;
  owned = refl;
  size = refl;
  sectors = omega (arith, h);
  counted = inr (ground arith, omega arith);
}

bio_add_page-Added_example :
    (n : ℕ) × (after : StructBio) × (bio_add_page phys queue none filling (page 7)
      ≡ some (n, after))
    × Added phys queue none filling (page 1 ∷ page 2 ∷ []) (page 7) n after
bio_add_page-Added_example =
    bio_add_page-Added phys queue none filling (page 1 ∷ page 2 ∷ []) (page 7)
      (filling-IsFilled queue (omega arith)) (omega arith) (omega arith) (omega arith)

filling_vecs : segments_from filling 0 ≡ some (page 1 ∷ page 2 ∷ [])
unfolding segments_from
filling_vecs = refl

-- There is a page for the first vector only.
abbrev one_left : ℕ → Option ℕ
one_left i = if ltb i 1 then some 40 else none

bio_copy-Copying_example :
    (result : Option StructBio) × (freed_pages : List ℕ) × (bio_copy
        (some two_pages)
        true
        one_left
        filling
      ≡ some (result, freed_pages))
    × Copying one_left filling (page 1 ∷ page 2 ∷ []) result freed_pages
bio_copy-Copying_example =
    bio_copy-Copying one_left two_pages filling (page 1 ∷ page 2 ∷ []) filling_vecs (omega arith)
      (omega arith)

filling-IsMapped : IsMapped filling (1 ∷ 2 ∷ [])
filling-IsMapped = record {
  table = page 1 ∷ page 2 ∷ empty_vec ∷ empty_vec ∷ [];
  bvs = page 1 ∷ page 2 ∷ [];
  at_table = refl;
  in_use = refl;
  mapped = a_page refl (a_page refl no_pages);
  last_reference = refl;
  from_pool = omega arith;
}

-- Only page 1 is dirty.
abbrev one_dirty_page : PageState
one_dirty_page = record { dirty = λ p. p == 1; released = []; bio_dirty_list = []; puts = [] }

check-releases_dirty_example :
    (after final : PageState) × (bio_check_pages_dirty one_dirty_page filling ≡ some after)
    × (bio_dirty_fn after ≡ some final)
    × (final.released ≡ 1 ∷ [])
    × AllDirty final.dirty (1 ∷ 2 ∷ [])
    × (final.bio_dirty_list ≡ [])
    × (length final.puts ≡ 1)
check-releases_dirty_example =
    check-releases_dirty one_dirty_page filling (1 ∷ 2 ∷ []) filling-IsMapped refl

unmap-releases_all_example :
    (final : PageState) × (bio_unmap_user (λ p. filling) one_dirty_page filling true ≡ some final)
    × (final.released ≡ 1 ∷ 2 ∷ [])
    × (length final.puts ≡ 1)
    × ((true ≡ false) ⊎ AllDirty final.dirty (1 ∷ 2 ∷ []))
unmap-releases_all_example =
    unmap-releases_all (λ p. filling) one_dirty_page filling true (1 ∷ 2 ∷ []) filling-IsMapped refl
