-- ===== src/Blk/Submit.antt =====
-- The way of a bio to its driver in ucsb-io/ucsb-io-2.5.67/drivers/block/ll_rw_blk.c: submit_bio,
-- generic_make_request and blk_partition_remap.
pub mod Range
pub mod Resolve
use ucsb_disk_profiling.Prelude.{
  ℕ, zero, suc, ◌+◌, ◌-◌, ◌*◌, ◌/◌, ◌%◌, ◌^◌, Option, none, some, Bool, true, false, ◌||◌, List, [],
  ◌∷◌, ◌++◌, ltb, leb, ◌==◌, if◌then◌else◌, ◌>>=◌,
}
use ucsb_disk_profiling.Block.{update, uint_mod, ulong_mod}
use ucsb_disk_profiling.Blk.Queue.{RequestQueue}
use ucsb_disk_profiling.Segments.{StructBio}
use ucsb_disk_profiling.Blk.Merge.{sectors_of}
use ucsb_disk_profiling.Blk.Complete.{EndIo, bio_endio}

-- `struct block_device`, with the bytes of `bd_inode->i_size`.
pub record BlockDevice : Type 0 where
  pub i_size : ℕ
  pub bd_contains : ℕ
  pub bd_offset : ℕ

-- The counters of a partition, `struct hd_struct`, each of 32 bits.
pub record Partition : Type 0 where
  pub reads : ℕ
  pub read_sectors : ℕ
  pub writes : ℕ
  pub write_sectors : ℕ

-- What the block layer calls for a device: its queue, if there is one, and the queue's
-- `make_request_fn`, which says whether the bio has been remapped and is to be sent on.
pub record Drivers (D : Type 0) : Type 0 where
  pub queue_of : ℕ → Option RequestQueue
  pub make_request_fn : ℕ → D → StructBio → Bool × StructBio × D

-- The state: the drivers', the counters of the partitions and of the pages moved, and the calls of
-- `bi_end_io`, the latest last.
pub record Io (D : Type 0) : Type 0 where
  pub driver : D
  pub parts : ℕ → Partition
  pub pgpgin : ℕ
  pub pgpgout : ℕ
  pub ended : List EndIo

-- Where a bio comes to: `taken` by the `make_request_fn` of a device, or ended with an error.
pub record Sent (D : Type 0) : Type 0 where
  pub io : Io D
  pub taken : Option (ℕ × StructBio)

-- `switch (bio->bi_rw)`: a bio with any other bit is not counted.
unfoldable pub count_part : Partition → StructBio → Partition
count_part p bio =
    if bio.bi_rw == 0
    then record p {
      read_sectors = (p.read_sectors + sectors_of bio) % uint_mod;
      reads = (p.reads + 1) % uint_mod;
    }
    else if bio.bi_rw == 1
    then record p {
      write_sectors = (p.write_sectors + sectors_of bio) % uint_mod;
      writes = (p.writes + 1) % uint_mod;
    }
    else p

module _ {D : Type 0} (devices : ℕ → BlockDevice) (drivers : Drivers D) where
  -- A whole disk contains itself.
  unfoldable pub blk_partition_remap : Io D → ℕ → StructBio → Io D × StructBio
  unfolding count_part
  blk_partition_remap io dev bio =
      let bdev = devices dev in
      if dev == bdev.bd_contains then (io, bio) else (
        record io { parts = update io.parts dev (count_part (io.parts dev) bio) },
        record bio {
          bi_sector = (bio.bi_sector + bdev.bd_offset) % ulong_mod;
          bi_bdev = some bdev.bd_contains;
        },
      )

  -- The label `end_io`.
  unfoldable pub end_io : Io D → StructBio → Sent D
  end_io io bio = record {
    io = record io { ended = io.ended ++ (bio_endio bio bio.bi_size true ∷ []) };
    taken = none;
  }

  -- A round of the loop behind its two tests.
  unfoldable pub hand_over : Io D → ℕ → StructBio → Bool × StructBio × Io D
  unfolding blk_partition_remap
  hand_over io dev bio =
      let (io', remapped) = blk_partition_remap io dev bio in
      let (again, bio', driver) = drivers.make_request_fn dev io'.driver remapped in
      (again, bio', record io' { driver = driver })

  -- The loop on fuel. `taken` shows the bio as it is handed over, behind the remap.
  unfoldable pub resolve : ℕ → Io D → StructBio → Option (Sent D)
  resolve zero io bio = none
  resolve (suc fuel) io bio =
      let rest = λ (io' : Io D) (bio' : StructBio). resolve fuel io' bio' in
      do
        dev ← bio.bi_bdev
        elim (drivers.queue_of dev) [
          | none ↦ some (end_io io bio)
          | some q ↦
              if ltb q.max_sectors (sectors_of bio)
              then some (end_io io bio)
              else (let (again, bio', io') = hand_over io dev bio in
                  if again
                  then rest io' bio'
                  else some
                      (record { io = io'; taken = some (dev, (blk_partition_remap io dev bio).1) }))
        ]

  -- The test of the device's size, where it is known.
  unfoldable pub beyond_end : ℕ → StructBio → Bool
  beyond_end dev bio =
      let maxsector = (devices dev).i_size / 2 ^ 9 in
      if maxsector == 0
      then false
      else ltb maxsector (sectors_of bio) || ltb (maxsector - sectors_of bio) bio.bi_sector

  unfoldable pub generic_make_request : ℕ → Io D → StructBio → Option (Sent D)
  unfolding beyond_end
  generic_make_request fuel io bio = do
    dev ← bio.bi_bdev
    if beyond_end dev bio then some (end_io io (record bio { eof = true })) else resolve fuel io bio

  -- `submit_bio`; a bio without bytes or without a table is a BUG.
  unfoldable pub submit_bio : ℕ → Io D → ℕ → StructBio → Option (Sent D)
  unfolding generic_make_request
  submit_bio fuel io rw bio = if bio.bi_size == 0 then none else elim bio.bi_io_vec [
    | none ↦ none
    | some table ↦
        let counted =
          if rw % 2 == 1
          then record io { pgpgout = io.pgpgout + sectors_of bio }
          else record io { pgpgin = io.pgpgin + sectors_of bio } in
        generic_make_request fuel counted (record bio { bi_rw = rw })
  ]
