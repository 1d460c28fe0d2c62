-- ===== src/Tests/Queues.antt =====
-- The theorems about request queues, segments and completion, each at a concrete state.
use ucsb_disk_profiling.Prelude.{
  ℕ, ◌+◌, ◌-◌, ◌*◌, ◌^◌, ◌≤◌, ◌<◌, ◌≡◌, refl, Option, none, some, true, false, not, List, [], ◌∷◌,
  ◌⊎◌, arith, length,
}
use ucsb_disk_profiling.Block.{read}
use ucsb_disk_profiling.Blk.Queue.{Machine, RequestQueue, blk_init_limits}
use ucsb_disk_profiling.Blk.Queue.Limits.{
  sectors, hw_segments, boundary, AdmitsPage, apply_settings, settings-AdmitsPage_init,
}
use ucsb_disk_profiling.Segments.{
  BioVec, StructBio, PhysMap, Scatter, blk_rq_map_sg, blk_recount_segments, pending_segments,
  segments_from, phys_mergeable, seg_boundary, bvec_to_phys, bvec_end, bvec_start,
}
use ucsb_disk_profiling.Segments.Bytes.{scatter_bytes, vec_bytes}
use ucsb_disk_profiling.Segments.Count.{total_len}
use ucsb_disk_profiling.Segments.Table.{
  pending_all, phys_segments, total_scatter, map_sg-fits, map_sg-recount,
}
use ucsb_disk_profiling.Blk.Merge.{StructRequest, attempt_merge, ll_merge_requests_fn}
use ucsb_disk_profiling.Blk.Merge.Within.{WithinLimits, Touching, IsJoined, attempt_merge-IsJoined}
use ucsb_disk_profiling.Blk.Merge.Undercount.{
  SingleVec, SingleSegment, Continues, merges-undercount,
}
use ucsb_disk_profiling.Blk.Complete.{Ended, end_bios, end_left}
use ucsb_disk_profiling.Blk.Complete.Bytes.{IsConsistent, Accounts, total_size, end_bios-Accounts}
use ucsb_disk_profiling.Blk.Complete.Trim.{TwoVecs, end-cuts_first}

-- Pages of 4 kB.
abbrev machine : Machine
machine = record {
  page_shift = 12;
  default_phys_segments = 128;
  default_hw_segments = 128;
  default_sectors = 255;
  default_segment_size = 65536;
  max_readahead = 128;
  hz = 1000;
  bounce_high = 2 ^ 40;
  bounce_isa = 2 ^ 24;
  max_low_pfn = 2 ^ 18;
}

abbrev pub queue : RequestQueue
queue = record {
  cluster = true;
  stopped = false;
  max_sectors = 255;
  max_phys_segments = 128;
  max_hw_segments = 128;
  max_segment_size = 8192;
  hardsect_size = 512;
  seg_boundary_mask = 2 ^ 32 - 1;
  dma_alignment = 511;
  bounce_pfn = 2 ^ 28;
  bounce_dma = false;
  ra_pages = 32;
  unplug_thresh = 4;
  unplug_delay = 3;
  last_merge = none;
}

abbrev pub page_address : Option ℕ → ℕ
page_address none = 0
page_address (some page) = page * 4096

abbrev pub phys : PhysMap
phys = record { page_to_phys = page_address; vmerge_boundary = 0 }

abbrev pub page : ℕ → BioVec
page n = record { bv_page = some n; bv_len = 4096; bv_offset = 0 }

abbrev pub bio_of : List BioVec → StructBio
bio_of table = record {
  bi_sector = 0;
  bi_bdev = some 0;
  uptodate = true;
  rw_block = false;
  eof = false;
  seg_valid = true;
  cloned = false;
  bounced = false;
  pool_idx = 0;
  bi_rw = 0;
  bi_vcnt = length table;
  bi_idx = 0;
  bi_phys_segments = 1;
  bi_hw_segments = 1;
  bi_size = total_len table;
  bi_max_vecs = 4;
  bi_io_vec = some table;
  bi_end_io = none;
  bi_cnt = 1;
  bi_private = none;
  bi_qos = none;
}

abbrev one_page : ℕ → StructBio
one_page n = bio_of (page n ∷ [])

abbrev pub two_pages : StructBio
two_pages = bio_of (page 1 ∷ page 2 ∷ [])

-- A request of the page `n`, from its own sector on.
abbrev request_of : ℕ → StructRequest
request_of n = record {
  sector = n * 8;
  nr_sectors = 8;
  current_nr_sectors = 8;
  hard_sector = n * 8;
  hard_nr_sectors = 8;
  hard_cur_sectors = 8;
  nr_phys_segments = 1;
  nr_hw_segments = 1;
  dir = read;
  nomerge = false;
  special = false;
  waiting = false;
  errors = 0;
  rq_disk = some 0;
  bios = one_page n ∷ [];
}

settings-AdmitsPage_init_example :
    (made : RequestQueue) × (blk_init_limits machine queue ≡ some made)
    × AdmitsPage machine
        (apply_settings machine made (sectors 1 ∷ hw_segments 0 ∷ boundary 511 ∷ []))
settings-AdmitsPage_init_example =
    settings-AdmitsPage_init machine (omega arith) queue
      (sectors 1 ∷ hw_segments 0 ∷ boundary 511 ∷ []) (omega arith)

pending_two : pending_all (two_pages ∷ one_page 3 ∷ []) ≡ some (page 1 ∷ page 2 ∷ page 3 ∷ [])
unfolding pending_all pending_segments segments_from
pending_two = refl

map_sg-fits_example :
    (sg : List Scatter) × (n : ℕ) × (blk_rq_map_sg phys queue (two_pages ∷ one_page 3 ∷ [])
      ≡ some sg)
    × (phys_segments phys queue (two_pages ∷ one_page 3 ∷ []) ≡ some n)
    × (length sg ≤ n)
    × (total_scatter sg ≡ total_len (page 1 ∷ page 2 ∷ page 3 ∷ []))
    × (scatter_bytes phys sg ≡ vec_bytes phys (page 1 ∷ page 2 ∷ page 3 ∷ []))
map_sg-fits_example =
    map_sg-fits phys queue (two_pages ∷ one_page 3 ∷ []) (page 1 ∷ page 2 ∷ page 3 ∷ []) pending_two
      (omega arith) (omega arith)

pending_pages : pending_segments two_pages ≡ some (page 1 ∷ page 2 ∷ [])
unfolding pending_segments segments_from
pending_pages = refl

map_sg-recount_example :
    (sg : List Scatter) × (counted : StructBio) × (blk_rq_map_sg phys queue (two_pages ∷ [])
      ≡ some sg)
    × (blk_recount_segments phys queue two_pages ≡ some counted)
    × (length sg ≡ counted.bi_phys_segments)
map_sg-recount_example =
    map_sg-recount phys queue two_pages (page 1 ∷ page 2 ∷ []) pending_pages (omega arith)

within_one : (n : ℕ) → WithinLimits queue (request_of n)
within_one n = omega arith

Touching-pages : Touching phys queue (request_of 1) (request_of 2)
unfolding bvec_end bvec_start
Touching-pages = record {
  tail = one_page 1;
  head = one_page 2;
  v1 = page 1;
  v2 = page 2;
  at_tail = refl;
  at_head = refl;
  at_v1 = refl;
  at_v2 = refl;
}

attempt_merge-IsJoined_example :
    (attempt_merge phys queue (λ r. not r.nomerge) (request_of 1) (request_of 2)
      ≡ some (false, request_of 1))
    ⊎ ((r : StructRequest) × (attempt_merge phys queue
            (λ r. not r.nomerge)
            (request_of 1)
            (request_of 2)
          ≡ some (true, r))
        × IsJoined queue (request_of 1) (request_of 2) r)
attempt_merge-IsJoined_example =
    attempt_merge-IsJoined phys queue (request_of 1) (request_of 2) Touching-pages
      (λ r. not r.nomerge) (within_one 1) (within_one 2)

single_page : (n : ℕ) → SingleVec (one_page n) (page n)
single_page n = record { table = refl; one = refl; at_start = refl; size = refl }

single_request : (n : ℕ) → SingleSegment (request_of n) (one_page n)
single_request n = record { bios = refl; phys = refl; hw = refl; usual = refl }

next_page : Continues phys queue (page 1) (page 2)
unfolding phys_mergeable seg_boundary bvec_to_phys
next_page = record { follows = refl; inside = refl; fits = omega arith; small = omega arith }

page_after : Continues phys queue (page 2) (page 3)
unfolding phys_mergeable seg_boundary bvec_to_phys
page_after = record { follows = refl; inside = refl; fits = omega arith; small = omega arith }

merges-undercount_example :
    (r r' : StructRequest) × (sg : List Scatter) × (ll_merge_requests_fn phys queue
        (request_of 1)
        (request_of 2)
      ≡ some (true, r))
    × (ll_merge_requests_fn phys queue
          (record r { bios = one_page 1 ∷ one_page 2 ∷ []; nr_sectors = 16 })
          (request_of 3)
        ≡ some (true, r'))
    × (r'.nr_phys_segments ≡ 1)
    × (blk_rq_map_sg phys queue (one_page 1 ∷ one_page 2 ∷ one_page 3 ∷ []) ≡ some sg)
    × (length sg ≡ 2)
merges-undercount_example =
    merges-undercount phys queue refl (request_of 1) (request_of 2) (request_of 3) (one_page 1)
      (one_page 2) (one_page 3) (page 1) (page 2) (page 3) 16 (single_page 1) (single_page 2)
      (single_page 3) (single_request 1) (single_request 2) (single_request 3) next_page page_after
      (omega arith) (omega arith) (omega arith) (omega arith) (omega arith) (omega arith)
      (omega arith)

two_pages-IsConsistent : IsConsistent two_pages
two_pages-IsConsistent = record {
  table = page 1 ∷ page 2 ∷ [];
  left = page 1 ∷ page 2 ∷ [];
  at_table = refl;
  at_left = refl;
  bytes = refl;
  some_left = omega arith;
}

end_bios-Accounts_example :
    (r : Ended) × (end_bios false 0 4096 (two_pages ∷ []) ≡ some r)
    × Accounts 0 4096 (total_size (two_pages ∷ [])) r
end_bios-Accounts_example =
    end_bios-Accounts false 0 4096 (two_pages ∷ []) (two_pages-IsConsistent, tt)

two_pages-TwoVecs : TwoVecs two_pages (page 1) (page 2)
two_pages-TwoVecs = record { table = refl; two = refl; at_start = refl; size = refl }

end-cuts_first_example :
    (r : Ended) × (left : StructBio) × (end_bios false 0 5120 (two_pages ∷ []) ≡ some r)
    × (end_left false r ≡ left ∷ [])
    × (left.bi_io_vec ≡ some (record (page 1) { bv_offset = 1024; bv_len = 3072 } ∷ page 2 ∷ []))
    × (left.bi_size ≡ (page 1).bv_len + (page 2).bv_len - 5120)
    × (pending_segments left ≡ some (page 2 ∷ []))
    × (left.bi_size < (page 2).bv_len)
end-cuts_first_example =
    end-cuts_first false 5120 two_pages (page 1) (page 2) two_pages-TwoVecs (omega arith)
      (omega arith)
