-- ===== src/Blk/Submit/Range.antt =====
-- The range of the bios that generic_make_request of ucsb-io/ucsb-io-2.5.67/drivers/block/ll_rw_blk.c
-- lets through to a disk, partitions included.
use ucsb_disk_profiling.Prelude.{
  ℕ, suc, ◌+◌, ◌/◌, ◌^◌, ◌≤◌, ◌<◌, ◌≡◌, ◌⊎◌, inl, inr, refl, ◌∙◌, ap, none, some, true, false, [],
  ◌∷◌, ◌++◌, ltb, ◌==◌, if◌then◌else◌, arith,
}
use ucsb_disk_profiling.Prelude.Tests.{Bool-cases}
use ucsb_disk_profiling.Block.{ulong_mod}
use ucsb_disk_profiling.Blk.Queue.{RequestQueue}
use ucsb_disk_profiling.Segments.{StructBio}
use ucsb_disk_profiling.Blk.Merge.{sectors_of}
use ucsb_disk_profiling.Blk.Complete.{bio_endio}
use ucsb_disk_profiling.Blk.Submit.{
  BlockDevice, Drivers, Io, Sent, blk_partition_remap, end_io, hand_over, resolve, beyond_end,
  generic_make_request,
}
use ucsb_disk_profiling.Blk.Submit.Resolve.{
  resolve_step, resolve_refused, remap_size, hand_over_ended,
}

-- The sectors of a device.
abbrev pub capacity : BlockDevice → ℕ
capacity bdev = bdev.i_size / 2 ^ 9

module _ {D : Type 0} (devices : ℕ → BlockDevice) (drivers : Drivers D) where
  abbrev pub whole_disk : ℕ → ℕ
  whole_disk dev = (devices dev).bd_contains

  -- Where a device begins on its disk.
  abbrev pub start_of : ℕ → ℕ
  start_of dev = if dev == whole_disk dev then 0 else (devices dev).bd_offset

  -- A bio that ends at once, with the drivers as they were.
  abbrev Stopped : Io D → StructBio → Sent D → Type 0
  Stopped io bio sent =
      (sent.taken ≡ none)
      × (sent.io.driver ≡ io.driver)
      × (sent.io.ended ≡ io.ended ++ (bio_endio bio bio.bi_size true ∷ []))

  -- What becomes of a bio, by its sectors: beyond the end of its device it ends, marked so; above the
  -- limit of the queue it ends; otherwise the driver takes it, at its place within the whole disk.
  pub data Checked (io : Io D) (bio : StructBio) (dev : ℕ) (q : RequestQueue) (sent : Sent D)
      : Type 0 where
    beyond :
        capacity (devices dev) < bio.bi_sector + sectors_of bio
        → Stopped io (record bio { eof = true }) sent
        → Checked io bio dev q sent
    too_big :
        bio.bi_sector + sectors_of bio ≤ capacity (devices dev)
        → q.max_sectors < sectors_of bio
        → Stopped io bio sent
        → Checked io bio dev q sent
    placed :
        (moved : StructBio)
        → sent.taken ≡ some (dev, moved)
        → moved.bi_bdev ≡ some (whole_disk dev)
        → moved.bi_sector ≡ start_of dev + bio.bi_sector
        → sectors_of moved ≡ sectors_of bio
        → moved.bi_sector + sectors_of moved ≤ capacity (devices (whole_disk dev))
        → sent.io.ended ≡ io.ended
        → Checked io bio dev q sent

  beyond_exact :
      (dev : ℕ) (bio : StructBio)
      → 0 < capacity (devices dev)
      → (beyond_end devices drivers dev bio ≡ true)
          × (capacity (devices dev) < bio.bi_sector + sectors_of bio)
        ⊎ ((beyond_end devices drivers dev bio ≡ false)
            × (bio.bi_sector + sectors_of bio ≤ capacity (devices dev)))
  unfolding beyond_end
  beyond_exact dev bio known = elim (Bool-cases (beyond_end devices drivers dev bio)) [
    | inl out ↦ inl (out, ground (arith, out, known))
    | inr within ↦ inr (within, ground (arith, within, known))
  ]

  remap_place :
      (io : Io D) (dev : ℕ) (bio : StructBio)
      → bio.bi_bdev ≡ some dev
      → start_of dev + bio.bi_sector < ulong_mod
      → let moved = (blk_partition_remap devices drivers io dev bio).1 in
        (moved.bi_bdev ≡ some (whole_disk dev)) × (moved.bi_sector ≡ start_of dev + bio.bi_sector)
  unfolding blk_partition_remap
  remap_place io dev bio e l = elim (Bool-cases (dev == whole_disk dev)) [
    | inl same ↦ ground (arith, same, e, l)
    | inr part ↦ ground (arith, part, e, l)
  ]

  hand_over_last :
      (io : Io D) (dev : ℕ) (bio : StructBio)
      → ((d : ℕ) (state : D) (b : StructBio) → (drivers.make_request_fn d state b).0 ≡ false)
      → (hand_over devices drivers io dev bio).0 ≡ false
  unfolding hand_over
  hand_over_last io dev bio plain =
      let moved = blk_partition_remap devices drivers io dev bio in plain dev moved.0.driver moved.1

  -- The loop for a bio within its device, where the drivers send nothing on.
  resolve-Checked :
      (io : Io D) (bio : StructBio) (dev : ℕ) (q : RequestQueue) (fuel : ℕ)
      → ((d : ℕ) (state : D) (b : StructBio) → (drivers.make_request_fn d state b).0 ≡ false)
      → bio.bi_bdev ≡ some dev
      → drivers.queue_of dev ≡ some q
      → start_of dev + capacity (devices dev) ≤ capacity (devices (whole_disk dev))
      → capacity (devices (whole_disk dev)) < ulong_mod
      → bio.bi_sector + sectors_of bio ≤ capacity (devices dev)
      → (sent : Sent D) × (resolve devices drivers (suc fuel) io bio ≡ some sent)
        × Checked io bio dev q sent
  unfolding end_io
  resolve-Checked io bio dev q fuel plain e f fits small within =
      elim (Bool-cases (ltb q.max_sectors (sectors_of bio))) [
        | inl big ↦ (
          end_io devices drivers io bio,
          resolve_refused devices drivers fuel io bio dev e (inr (q, f, big)),
          too_big within (ground (arith, big)) (refl, refl, refl),
        )
        | inr ok ↦
            let handed = hand_over devices drivers io dev bio in
            let moved = (blk_partition_remap devices drivers io dev bio).1 in
            let last = hand_over_last io dev bio plain in
            let (there, place) = remap_place io dev bio e (omega (arith, fits, small, within)) in
            let size = remap_size devices drivers io dev bio in
            (
              record { io = handed.2; taken = some (dev, moved) },
              resolve_step devices drivers fuel io bio dev q e f ok ∙ rw last refl,
              placed moved refl there place (ap (λ n. n / 2 ^ 9) size)
                  (omega (arith, size, place, fits, within))
                  (hand_over_ended devices drivers io dev bio),
            )
      ]

  -- generic_make_request for drivers that send nothing on, on a device of known size that lies within its
  -- disk: a bio that reaches beyond the end of its device ends with an error and the mark BIO_EOF, one
  -- above the limit of the queue ends with an error, both with the drivers as they were, and any other is
  -- handed over at its place on the whole disk, within the disk. The sector may be any number.
  pub make_request-Checked :
      (io : Io D) (bio : StructBio) (dev : ℕ) (q : RequestQueue) (fuel : ℕ)
      → ((d : ℕ) (state : D) (b : StructBio) → (drivers.make_request_fn d state b).0 ≡ false)
      → bio.bi_bdev ≡ some dev
      → drivers.queue_of dev ≡ some q
      → 0 < capacity (devices dev)
      → start_of dev + capacity (devices dev) ≤ capacity (devices (whole_disk dev))
      → capacity (devices (whole_disk dev)) < ulong_mod
      → (sent : Sent D) × (generic_make_request devices drivers (suc fuel) io bio ≡ some sent)
        × Checked io bio dev q sent
  unfolding generic_make_request end_io
  make_request-Checked io bio dev q fuel plain e f known fits small =
      elim (beyond_exact dev bio known) [
        | inl (out, far) ↦ (
          end_io devices drivers io (record bio { eof = true }),
          ground (arith, e, out),
          beyond far (refl, refl, refl),
        )
        | inr (inside, within) ↦
            let (sent, r, checked) =
              resolve-Checked io bio dev q fuel plain e f fits small within in
            (sent, ground (arith, e, inside, r), checked)
      ]
