-- ===== src/Blk/Queue/Limits.antt =====
-- The limits of a queue under any calls of its driver, from
-- ucsb-io/ucsb-io-2.5.67/drivers/block/ll_rw_blk.c.
use ucsb_disk_profiling.Prelude.{
  ℕ, ◌+◌, ◌-◌, ◌*◌, ◌/◌, ◌^◌, ◌≤◌, ◌≡◌, refl, suc, ap, ◌∙◌, some, Bool, true, false, List, [], ◌∷◌,
  arith, ltb,
}
use native.Mathlib.Numerals.{towards_suc}
use ucsb_disk_profiling.Blk.Queue.{
  Machine, page_size, RequestQueue, blk_queue_max_sectors, blk_queue_max_segment_size,
  blk_queue_segment_boundary, blk_queue_bounce_limit, blk_queue_max_phys_segments,
  blk_queue_max_hw_segments, blk_queue_hardsect_size, blk_queue_dma_alignment,
  blk_queue_make_request, blk_init_limits, init_segments, queue_defaults,
}

-- The calls by which a driver sets a limit.
pub data Setting : Type 0 where
  sectors phys_segments hw_segments segment_size boundary hardsect alignment : ℕ → Setting

unfoldable pub apply_setting : Machine → RequestQueue → Setting → RequestQueue
apply_setting machine q (sectors n) = blk_queue_max_sectors machine q n
apply_setting machine q (phys_segments n) = blk_queue_max_phys_segments q n
apply_setting machine q (hw_segments n) = blk_queue_max_hw_segments q n
apply_setting machine q (segment_size n) = blk_queue_max_segment_size machine q n
apply_setting machine q (boundary n) = blk_queue_segment_boundary machine q n
apply_setting machine q (hardsect n) = blk_queue_hardsect_size q n
apply_setting machine q (alignment n) = blk_queue_dma_alignment q n

unfoldable pub apply_settings : Machine → RequestQueue → List Setting → RequestQueue
unfolding apply_setting
apply_settings machine q [] = q
apply_settings machine q (s ∷ ss) = apply_settings machine (apply_setting machine q s) ss

-- A bio of one page is within the limits, and so is a segment of one page.
pub record AdmitsPage (machine : Machine) (q : RequestQueue) : Type 0 where
  pub sectors_in : page_size machine ≤ q.max_sectors * 2 ^ 9
  pub phys_in : 1 ≤ q.max_phys_segments
  pub hw_in : 1 ≤ q.max_hw_segments
  pub size_in : page_size machine ≤ q.max_segment_size
  pub mask_in : page_size machine ≤ q.seg_boundary_mask + 1

pow_split : (n : ℕ) → 9 ≤ n → 2 ^ (n - 9) * 512 ≡ 2 ^ n
pow_split n h =
    let e : suc (n - 9 + 8) ≡ n = omega (arith, h) in
    let f : 2 ^ (n - 9) * 512 ≡ 2 ^ suc (n - 9 + 8) = simp towards_suc (omega arith) in
    f ∙ ap (λ m. 2 ^ m) e

module _ (machine : Machine) (large : 9 ≤ machine.page_shift) where
  setting-AdmitsPage :
      (q : RequestQueue) (s : Setting)
      → AdmitsPage machine q
      → AdmitsPage machine (apply_setting machine q s)
  unfolding apply_setting blk_queue_max_sectors blk_queue_max_phys_segments
      blk_queue_max_hw_segments blk_queue_max_segment_size blk_queue_segment_boundary
      blk_queue_hardsect_size blk_queue_dma_alignment
  setting-AdmitsPage q (sectors n) v = ground (arith, pow_split machine.page_shift large)
  setting-AdmitsPage q (phys_segments n) v = ground arith
  setting-AdmitsPage q (hw_segments n) v = ground arith
  setting-AdmitsPage q (segment_size n) v = ground arith
  setting-AdmitsPage q (boundary n) v = ground arith
  setting-AdmitsPage q (hardsect n) v = ground arith
  setting-AdmitsPage q (alignment n) v = ground arith

  settings-AdmitsPage :
      (q : RequestQueue) (ss : List Setting)
      → AdmitsPage machine q
      → AdmitsPage machine (apply_settings machine q ss)
  unfolding apply_settings
  settings-AdmitsPage q [] v = v
  settings-AdmitsPage q (s ∷ ss) v =
      settings-AdmitsPage (apply_setting machine q s) ss (setting-AdmitsPage q s v)

  bounce_total :
      (q : RequestQueue) (dma_addr : ℕ)
      → machine.bounce_isa ≤ dma_addr
      → (dma : Bool) × (blk_queue_bounce_limit machine q dma_addr
          ≡ some (record q { bounce_dma = dma; bounce_pfn = dma_addr / 2 ^ machine.page_shift }))
  unfolding blk_queue_bounce_limit
  bounce_total q dma_addr h =
      (ltb (dma_addr / 2 ^ machine.page_shift) machine.max_low_pfn, ground (arith, h))

  segments-AdmitsPage :
      (q : RequestQueue)
      → page_size machine ≤ q.max_sectors * 2 ^ 9
      → page_size machine ≤ q.seg_boundary_mask + 1
      → AdmitsPage machine (init_segments machine q)
  unfolding init_segments
  segments-AdmitsPage q h m = ground arith

  -- A queue that blk_init_queue has set up admits a page under its limits, and still does after any
  -- sequence of the driver's calls that set limits, whatever their arguments.
  pub settings-AdmitsPage_init :
      (q : RequestQueue) (ss : List Setting)
      → machine.bounce_isa ≤ machine.bounce_high
      → (made : RequestQueue) × (blk_init_limits machine q ≡ some made)
        × AdmitsPage machine (apply_settings machine made ss)
  unfolding blk_init_limits blk_queue_make_request queue_defaults blk_queue_segment_boundary
  settings-AdmitsPage_init q ss h =
      let start =
        blk_queue_segment_boundary machine (record q { cluster = true; stopped = false })
          0xffffffff in
      let (dma, e) = bounce_total (queue_defaults machine start) machine.bounce_high h in
      let bounced = record (queue_defaults machine start) {
        bounce_dma = dma;
        bounce_pfn = machine.bounce_high / 2 ^ machine.page_shift;
      } in
      let made = init_segments machine bounced in
      (
        made,
        rw e refl,
        settings-AdmitsPage made ss (
            segments-AdmitsPage bounced (ground (arith, pow_split machine.page_shift large))
              (ground arith)),
      )
