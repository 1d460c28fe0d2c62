-- ===== src/Blk/Submit/Resolve.antt =====
-- The loop of generic_make_request in ucsb-io/ucsb-io-2.5.67/drivers/block/ll_rw_blk.c over stacked
-- devices: it ends, and every bio is settled once.
use ucsb_disk_profiling.Prelude.{
  ℕ, zero, suc, ◌≤◌, ◌<◌, ◌≡◌, ◌⊎◌, inl, inr, refl, ◌∙◌, ap, none, some, true, false, [], ◌∷◌, ◌++◌,
  ltb, if◌then◌else◌, arith, Option-cases,
}
use ucsb_disk_profiling.Prelude.Tests.{Bool-cases}
use ucsb_disk_profiling.Blk.Queue.{RequestQueue}
use ucsb_disk_profiling.Segments.{StructBio}
use ucsb_disk_profiling.Blk.Merge.{sectors_of}
use ucsb_disk_profiling.Blk.Complete.{EndIo, bio_endio}
use ucsb_disk_profiling.Blk.Submit.{
  BlockDevice, Drivers, Io, Sent, blk_partition_remap, end_io, hand_over, resolve, beyond_end,
  generic_make_request,
}

module _ {D : Type 0} (devices : ℕ → BlockDevice) (drivers : Drivers D) where
  -- A bio is ended with an error for all its bytes, or the driver of a device takes it, within the
  -- sectors of the device's queue.
  pub data Settled (io : Io D) (sent : Sent D) : Type 0 where
    failed :
        (e : EndIo)
        → sent.taken ≡ none
        → sent.io.ended ≡ io.ended ++ (e ∷ [])
        → e.error ≡ true
        → e.bio.bi_size ≡ 0
        → e.bio.uptodate ≡ false
        → Settled io sent
    accepted :
        (dev : ℕ) (q : RequestQueue) (bio : StructBio)
        → sent.taken ≡ some (dev, bio)
        → drivers.queue_of dev ≡ some q
        → sectors_of bio ≤ q.max_sectors
        → sent.io.ended ≡ io.ended
        → Settled io sent

  -- What a driver that sends a bio on does: it names a device of a lower rank.
  abbrev pub Descends : (ℕ → ℕ) → Type 0
  Descends rank =
      (dev : ℕ) (d : D) (bio : StructBio)
      → ((drivers.make_request_fn dev d bio).0 ≡ false)
        ⊎ ((next : ℕ) × ((drivers.make_request_fn dev d bio).1.bi_bdev ≡ some next)
            × (rank next < rank dev))

  end_io-Settled : (io : Io D) (bio : StructBio) → Settled io (end_io devices drivers io bio)
  unfolding end_io bio_endio
  end_io-Settled io bio = failed (bio_endio bio bio.bi_size true) refl refl refl (ground arith) refl

  pub remap_size :
      (io : Io D) (dev : ℕ) (bio : StructBio)
      → (blk_partition_remap devices drivers io dev bio).1.bi_size ≡ bio.bi_size
  unfolding blk_partition_remap
  remap_size io dev bio = ground arith

  pub hand_over_ended :
      (io : Io D) (dev : ℕ) (bio : StructBio)
      → (hand_over devices drivers io dev bio).2.ended ≡ io.ended
  unfolding hand_over blk_partition_remap
  hand_over_ended io dev bio = ground arith

  -- One round, by what the driver says.
  pub resolve_step :
      (fuel : ℕ) (io : Io D) (bio : StructBio) (dev : ℕ) (q : RequestQueue)
      → bio.bi_bdev ≡ some dev
      → drivers.queue_of dev ≡ some q
      → ltb q.max_sectors (sectors_of bio) ≡ false
      → resolve devices drivers (suc fuel) io bio ≡ (
          if (hand_over devices drivers io dev bio).0
          then resolve devices drivers fuel
              (hand_over devices drivers io dev bio).2
              (hand_over devices drivers io dev bio).1
          else some (record {
            io = (hand_over devices drivers io dev bio).2;
            taken = some (dev, (blk_partition_remap devices drivers io dev bio).1);
          }))
  unfolding resolve
  resolve_step fuel io bio dev q e f g = ground (arith, e, f, g)

  -- A device without a queue, or a bio above its queue's limit.
  pub resolve_refused :
      (fuel : ℕ) (io : Io D) (bio : StructBio) (dev : ℕ)
      → bio.bi_bdev ≡ some dev
      → (drivers.queue_of dev ≡ none)
        ⊎ ((q : RequestQueue) × (drivers.queue_of dev ≡ some q)
            × (ltb q.max_sectors (sectors_of bio) ≡ true))
      → resolve devices drivers (suc fuel) io bio ≡ some (end_io devices drivers io bio)
  unfolding resolve
  resolve_refused fuel io bio dev e (inl f) = ground (arith, e, f)
  resolve_refused fuel io bio dev e (inr (q, f, g)) = ground (arith, e, f, g)

  hand_over_cases :
      (rank : ℕ → ℕ) (io : Io D) (dev : ℕ) (bio : StructBio)
      → Descends rank
      → let handed = hand_over devices drivers io dev bio in
        (handed.0 ≡ false)
        ⊎ ((next : ℕ) × (handed.0 ≡ true) × (handed.1.bi_bdev ≡ some next) × (rank next < rank dev))
  unfolding hand_over
  hand_over_cases rank io dev bio lower =
      let handed = hand_over devices drivers io dev bio in
      let moved = blk_partition_remap devices drivers io dev bio in
      elim (Bool-cases handed.0) [
        | inl more ↦ elim (lower dev moved.0.driver moved.1) [
          | inl last ↦ inl last
          | inr (next, on, less) ↦ inr (next, more, on, less)
        ]
        | inr last ↦ inl last
      ]

  after_ended :
      (io io' : Io D) (sent : Sent D) → io'.ended ≡ io.ended → Settled io' sent → Settled io sent
  after_ended io io' sent e (failed x t n h s u) = failed x t (n ∙ ap (λ l. l ++ (x ∷ [])) e) h s u
  after_ended io io' sent e (accepted dev q bio t f l n) = accepted dev q bio t f l (n ∙ e)

  resolve-Settled :
      (rank : ℕ → ℕ) (fuel : ℕ) (io : Io D) (bio : StructBio) (dev : ℕ)
      → Descends rank
      → bio.bi_bdev ≡ some dev
      → rank dev < fuel
      → (sent : Sent D) × (resolve devices drivers fuel io bio ≡ some sent) × Settled io sent
  resolve-Settled rank zero io bio dev lower e l = absurd (omega (arith, l))
  resolve-Settled rank (suc fuel) io bio dev lower e l =
      let done = end_io-Settled io bio in
      elim (Option-cases (drivers.queue_of dev)) [
        | inl f ↦ (end_io devices drivers io bio, resolve_refused fuel io bio dev e (inl f), done)
        | inr (q, f) ↦ elim (Bool-cases (ltb q.max_sectors (sectors_of bio))) [
          | inl big ↦ (
            end_io devices drivers io bio,
            resolve_refused fuel io bio dev e (inr (q, f, big)),
            done,
          )
          | inr fits ↦
              let step = resolve_step fuel io bio dev q e f fits in
              let handed = hand_over devices drivers io dev bio in
              let same = hand_over_ended io dev bio in
              let moved = (blk_partition_remap devices drivers io dev bio).1 in
              elim (hand_over_cases rank io dev bio lower) [
                | inl last ↦ (
                  record { io = handed.2; taken = some (dev, moved) },
                  step ∙ rw last refl,
                  accepted dev q moved refl f (ground (arith, fits, remap_size io dev bio)) same,
                )
                | inr (next, more, on, less) ↦
                    let (sent, r, settled) =
                      resolve-Settled rank fuel handed.2 handed.1 next lower on
                        (omega (arith, l, less)) in
                    (sent, step ∙ rw more r, after_ended io handed.2 sent same settled)
              ]
        ]
      ]

  -- generic_make_request over devices whose drivers send bios on to devices of lower rank only: with more
  -- rounds than the rank of the bio's device it returns, and the bio is settled once, by an end with an
  -- error for all its bytes, or by a driver whose queue admits its sectors.
  pub make_request-Settled :
      (rank : ℕ → ℕ) (fuel : ℕ) (io : Io D) (bio : StructBio) (dev : ℕ)
      → Descends rank
      → bio.bi_bdev ≡ some dev
      → rank dev < fuel
      → (sent : Sent D) × (generic_make_request devices drivers fuel io bio ≡ some sent)
        × Settled io sent
  unfolding generic_make_request
  make_request-Settled rank fuel io bio dev lower e l =
      let ended_bio = record bio { eof = true } in
      elim (Bool-cases (beyond_end devices drivers dev bio)) [
        | inl out ↦ (
          end_io devices drivers io ended_bio,
          ground (arith, e, out),
          end_io-Settled io ended_bio,
        )
        | inr within ↦
            let (sent, r, settled) = resolve-Settled rank fuel io bio dev lower e l in
            (sent, ground (arith, e, within, r), settled)
      ]
