-- ===== src/Blk/Complete.antt =====
-- Completion in ucsb-io/ucsb-io-2.5.67: `__end_that_request_first` of drivers/block/ll_rw_blk.c, with
-- `bio_endio` of fs/bio.c.
pub mod Bytes
pub mod Trim
use ucsb_disk_profiling.Prelude.{
  ℕ, zero, suc, ◌+◌, ◌-◌, ◌*◌, ◌/◌, ◌%◌, ◌^◌, Option, none, some, Bool, true, false, not, List, [],
  ◌∷◌, ◌++◌, ltb, leb, ◌==◌, if◌then◌else◌, ◌>>=◌,
}
use ucsb_disk_profiling.Block.{list_empty, uint_mod, ulong_mod}
use ucsb_disk_profiling.Blk.Queue.{RequestQueue, ushort_mod}
use ucsb_disk_profiling.Segments.{BioVec, StructBio, PhysMap, skip, first, blk_recount_segments}
use ucsb_disk_profiling.Blk.Merge.{StructRequest}

-- A call of `bi_end_io`: the bio, with its new size, the bytes and whether there was an error.
pub record EndIo : Type 0 where
  pub bio : StructBio
  pub bytes_done : ℕ
  pub error : Bool

unfoldable pub bio_endio : StructBio → ℕ → Bool → EndIo
bio_endio bio bytes_done error =
    let bytes = if ltb bio.bi_size bytes_done then bio.bi_size else bytes_done in
    record {
      bio = record bio {
        uptodate = if error then false else bio.uptodate;
        bi_size = bio.bi_size - bytes;
      };
      bytes_done = bytes;
      error = error;
    }

-- `bio_iovec_idx(bio, idx)`; past the table is a fault.
abbrev pub vec_at : StructBio → ℕ → Option BioVec
vec_at bio idx = do table ← bio.bi_io_vec; first (skip idx table)

abbrev pub set_vec : List BioVec → ℕ → BioVec → List BioVec
set_vec [] idx bv = []
set_vec (x ∷ xs) zero bv = bv ∷ xs
set_vec (x ∷ xs) (suc idx) bv = x ∷ set_vec xs idx bv

-- `bio_iovec(bio)->bv_offset += nr_bytes; bio_iovec(bio)->bv_len -= nr_bytes`, with 32-bit fields.
unfoldable pub trim_current : StructBio → ℕ → Option StructBio
trim_current bio nr_bytes = do
  table ← bio.bi_io_vec
  bv ← first (skip bio.bi_idx table)
  some (record bio {
    bi_io_vec = some (
        set_vec table bio.bi_idx (record bv {
          bv_offset = (bv.bv_offset + nr_bytes) % uint_mod;
          bv_len = (bv.bv_len + uint_mod - nr_bytes) % uint_mod;
        }));
  })

-- Where the loop stops inside the first bio that is left.
pub record Partial : Type 0 where
  pub bio : StructBio
  pub next_idx : ℕ
  pub bio_nbytes : ℕ
  pub total_bytes : ℕ

-- The rounds of the loop inside one bio, which has more bytes than are left: since these only fall, the
-- test at the top of the loop stays false. `rounds` is fuel: a bio has no more rounds than vectors.
unfoldable pub end_vecs : ℕ → StructBio → Partial → ℕ → Option Partial
end_vecs zero bio p nr_bytes = none
end_vecs (suc rounds) bio p nr_bytes =
    let rest = λ (next : Partial) (left : ℕ). end_vecs rounds bio next left in
    if leb bio.bi_vcnt bio.bi_idx then some p else (do
      bv ← vec_at bio (bio.bi_idx + p.next_idx)
      let nbytes = bv.bv_len
      let further : Partial = record p {
        next_idx = p.next_idx + 1;
        bio_nbytes = p.bio_nbytes + nbytes;
        total_bytes = p.total_bytes + nbytes;
      }
      if ltb bio.bi_size nbytes
          then none
          else if ltb nr_bytes nbytes
          then (do
            trimmed ← trim_current bio nr_bytes
            some (record p {
              bio = trimmed;
              bio_nbytes = p.bio_nbytes + nr_bytes;
              total_bytes = p.total_bytes + nr_bytes;
            }))
          else if nr_bytes == nbytes
          then some further
          else rest further (nr_bytes - nbytes))

-- The request behind the loop: the ended bios in order, the bios left, and the partial one.
pub record Ended : Type 0 where
  pub completed : List EndIo
  pub left : List StructBio
  pub total_bytes : ℕ
  pub in_bio : Option Partial

abbrev pub also : EndIo → Ended → Ended
also e r = record r { completed = e ∷ r.completed }

abbrev pub rounds_of : StructBio → ℕ
rounds_of bio = suc bio.bi_vcnt

-- The loop over the bios.
unfoldable pub end_bios : Bool → ℕ → ℕ → List StructBio → Option Ended
unfolding end_vecs bio_endio
end_bios error total nr_bytes [] =
    some (record { completed = []; left = []; total_bytes = total; in_bio = none })
end_bios error total nr_bytes (bio ∷ bios) =
    let rest = end_bios error (total + bio.bi_size) (nr_bytes - bio.bi_size) bios in
    if leb bio.bi_size nr_bytes
    then (if nr_bytes == bio.bi_size
        then some (record {
          completed = bio_endio bio bio.bi_size error ∷ [];
          left = bios;
          total_bytes = total + bio.bi_size;
          in_bio = none;
        })
        else (do r ← rest; some (also (bio_endio bio bio.bi_size error) r)))
    else (do
      p ←
          end_vecs (rounds_of bio) bio
            (record { bio = bio; next_idx = 0; bio_nbytes = 0; total_bytes = total }) nr_bytes
      some (record {
        completed = [];
        left = p.bio ∷ bios;
        total_bytes = p.total_bytes;
        in_bio = some p;
      }))

-- The call of bio_endio for the bytes of a bio that is left, and its new `bi_idx`.
unfoldable pub end_partial : Bool → Partial → List StructBio → List StructBio
unfolding bio_endio
end_partial error p [] = []
end_partial error p (bio ∷ bios) =
    if p.bio_nbytes == 0
    then bio ∷ bios
    else (let ended = (bio_endio bio p.bio_nbytes error).bio in
        record ended { bi_idx = (ended.bi_idx + p.next_idx) % ushort_mod } ∷ bios)

unfoldable pub end_left : Bool → Ended → List StructBio
unfolding end_partial
end_left error r = elim r.in_bio [ none ↦ r.left | some p ↦ end_partial error p r.left ]

-- `blk_recalc_rq_sectors`, with `blk_fs_request` of <linux/blkdev.h> as a parameter.
unfoldable pub blk_recalc_rq_sectors :
    (StructRequest → Bool) → StructRequest → ℕ → Option StructRequest
blk_recalc_rq_sectors blk_fs_request rq nsect =
    if blk_fs_request rq
    then (do
      bio ← first rq.bios
      bv ← vec_at bio bio.bi_idx
      let hard = (rq.hard_sector + nsect) % ulong_mod
      let left = (rq.hard_nr_sectors + ulong_mod - nsect) % ulong_mod
      let current = bv.bv_len / 2 ^ 9
      some (record rq {
        hard_sector = hard;
        sector = hard;
        hard_nr_sectors = left;
        nr_sectors = if ltb left current then current else left;
        current_nr_sectors = current;
        hard_cur_sectors = current;
      }))
    else some rq

-- The recount of every bio, with the sums of its segments.
unfoldable pub recalc_bios :
    PhysMap → RequestQueue → List StructBio → Option (List StructBio × ℕ × ℕ)
recalc_bios k q [] = some ([], 0, 0)
recalc_bios k q (bio ∷ bios) =
    let rest = recalc_bios k q bios in
    do
      counted ← blk_recount_segments k q (record bio { seg_valid = false })
      (bios', phys, hw) ← rest
      some (counted ∷ bios', counted.bi_phys_segments + phys, counted.bi_hw_segments + hw)

unfoldable pub blk_recalc_rq_segments :
    PhysMap → RequestQueue → StructRequest → Option StructRequest
unfolding recalc_bios
blk_recalc_rq_segments k q rq = do
  (bios, phys, hw) ← recalc_bios k q rq.bios
  some (
      if list_empty bios then rq else record rq {
        bios = bios;
        nr_phys_segments = phys % ushort_mod;
        nr_hw_segments = hw % ushort_mod;
      })

-- `end_that_request_chunk`: whether the request has bytes left, and the request. The errors of a
-- request that is not a packet command are reset.
unfoldable pub end_that_request_chunk :
    PhysMap
    → RequestQueue
    → (StructRequest → Bool)
    → (StructRequest → Bool)
    → StructRequest
    → Bool
    → ℕ
    → Option (Bool × StructRequest × List EndIo)
unfolding end_bios end_left blk_recalc_rq_sectors blk_recalc_rq_segments
end_that_request_chunk k q blk_pc_request blk_fs_request rq uptodate nr_bytes =
    let error = not uptodate in
    let reset = record rq { errors = if blk_pc_request rq then rq.errors else 0 } in
    do
      r ← end_bios error 0 nr_bytes rq.bios
      let ended = record reset { bios = end_left error r }
      if list_empty r.left then some (false, ended, r.completed) else (do
        moved ← blk_recalc_rq_sectors blk_fs_request ended (r.total_bytes / 2 ^ 9)
        counted ← blk_recalc_rq_segments k q moved
        some (true, counted, r.completed))

-- `end_that_request_first`
unfoldable pub end_that_request_first :
    PhysMap
    → RequestQueue
    → (StructRequest → Bool)
    → (StructRequest → Bool)
    → StructRequest
    → Bool
    → ℕ
    → Option (Bool × StructRequest × List EndIo)
unfolding end_that_request_chunk
end_that_request_first k q blk_pc_request blk_fs_request rq uptodate nr_sectors =
    end_that_request_chunk k q blk_pc_request blk_fs_request rq uptodate (nr_sectors * 2 ^ 9)
