-- ===== src/Deadline/Hash.antt =====
-- The back-merge hash of ucsb-io/ucsb-io-2.5.67/drivers/block/deadline-iosched.c.
use ucsb_disk_profiling.Prelude.{
  ℕ, ◌+◌, ◌/◌, ◌%◌, ◌^◌, Option, none, some, Bool, not, ◌||◌, List, [], ◌∷◌, ◌==◌, if◌then◌else◌,
  remove,
}
use ucsb_disk_profiling.Block.{update, ulong_mod}
use ucsb_disk_profiling.Kernel.{Kernel}
use ucsb_disk_profiling.Deadline.State.{DeadlineData, DeadlineRq, set_drq}

-- `deadline_hash_shift`
abbrev pub deadline_hash_shift : ℕ
deadline_hash_shift = 10

abbrev pub dl_hash_fn : Kernel → ℕ → ℕ
dl_hash_fn k sec = k.hash_long (sec / 2 ^ 3) deadline_hash_shift

abbrev pub rq_hash_key : DeadlineData → ℕ → ℕ
rq_hash_key dd n = ((dd.rqs n).sector + (dd.rqs n).nr_sectors) % ulong_mod

-- ON_HASH
abbrev pub on_hash : DeadlineRq → Bool
on_hash drq = not (drq.hash_valid_count == 0)

-- DL_INVALIDATE_HASH
unfoldable pub dl_invalidate_hash : DeadlineData → DeadlineData
dl_invalidate_hash dd =
    let count = (dd.hash_valid_count + 1) % ulong_mod in
    record dd { hash_valid_count = if count == 0 then 1 else count }

-- `__deadline_del_drq_hash`
unfoldable pub unhash_drq : DeadlineData → ℕ → DeadlineData
unhash_drq dd drq = record (set_drq dd drq (record (dd.drqs drq) { hash_valid_count = 0 })) {
  hash = λ b. remove drq (dd.hash b);
}

unfoldable pub deadline_del_drq_hash : DeadlineData → ℕ → DeadlineData
deadline_del_drq_hash dd drq = if on_hash (dd.drqs drq) then unhash_drq dd drq else dd

-- BUG_ON(ON_HASH(drq)) is the fault.
unfoldable pub deadline_add_drq_hash : Kernel → DeadlineData → ℕ → Option DeadlineData
deadline_add_drq_hash k dd drq =
    let bucket = dl_hash_fn k (rq_hash_key dd drq) in
    if on_hash (dd.drqs drq)
    then none
    else some
        (record (set_drq dd drq (record (dd.drqs drq) { hash_valid_count = dd.hash_valid_count })) {
          hash = update dd.hash bucket (drq ∷ dd.hash bucket);
        })

-- The walk along a bucket. An entry that can no longer merge leaves the hash.
unfoldable pub find_in_bucket :
    Kernel → ℕ → DeadlineData → List ℕ → Option (Option ℕ × DeadlineData)
find_in_bucket k offset dd [] = some (none, dd)
find_in_bucket k offset dd (drq ∷ entries) =
    let stale =
      not (k.rq_mergeable (dd.rqs drq))
      || not ((dd.drqs drq).hash_valid_count == dd.hash_valid_count) in
    let rest = find_in_bucket k offset (if stale then unhash_drq dd drq else dd) entries in
    if on_hash (dd.drqs drq)
    then (if stale
        then rest
        else if rq_hash_key dd drq == offset
        then some (some drq, dd)
        else rest)
    else none

unfoldable pub deadline_find_drq_hash : Kernel → DeadlineData → ℕ → Option (Option ℕ × DeadlineData)
deadline_find_drq_hash k dd offset = find_in_bucket k offset dd (dd.hash (dl_hash_fn k offset))
