-- ===== src/Blk/Queue.antt =====
-- The request queue of ucsb-io/ucsb-io-2.5.67/drivers/block/ll_rw_blk.c: the limits that a driver
-- sets, their defaults, and the sizes that blk_dev_init computes from the memory of the machine.
pub mod Limits
pub mod Sizes
use ucsb_disk_profiling.Prelude.{
  ℕ, ◌+◌, ◌-◌, ◌*◌, ◌/◌, ◌%◌, ◌^◌, Option, none, some, Bool, true, false, ltb, leb, ◌==◌,
  if◌then◌else◌, ◌>>=◌,
}
use ucsb_disk_profiling.Block.{ulong_mod}

-- The constants of the architecture and of <linux/blkdev.h>.
pub record Machine : Type 0 where
  pub page_shift : ℕ
  pub default_phys_segments : ℕ
  pub default_hw_segments : ℕ
  pub default_sectors : ℕ
  pub default_segment_size : ℕ
  pub max_readahead : ℕ
  pub hz : ℕ
  pub bounce_high : ℕ
  pub bounce_isa : ℕ
  pub max_low_pfn : ℕ

-- PAGE_CACHE_SIZE and PAGE_SIZE
abbrev pub page_size : Machine → ℕ
page_size machine = 2 ^ machine.page_shift

-- `struct request_queue`: the flags as Booleans, the limits, and the readahead and plug settings.
pub record RequestQueue : Type 0 where
  pub cluster : Bool
  pub stopped : Bool
  pub max_sectors : ℕ
  pub max_phys_segments : ℕ
  pub max_hw_segments : ℕ
  pub max_segment_size : ℕ
  pub hardsect_size : ℕ
  pub seg_boundary_mask : ℕ
  pub dma_alignment : ℕ
  pub bounce_pfn : ℕ
  pub bounce_dma : Bool
  pub ra_pages : ℕ
  pub unplug_thresh : ℕ
  pub unplug_delay : ℕ
  pub last_merge : Option ℕ

-- `unsigned short`
abbrev pub ushort_mod : ℕ
ushort_mod = 2 ^ 16

module _ (machine : Machine) where
  unfoldable pub blk_queue_max_sectors : RequestQueue → ℕ → RequestQueue
  blk_queue_max_sectors q max_sectors = record q {
    max_sectors =
        if ltb (max_sectors * 2 ^ 9) (page_size machine)
        then 2 ^ (machine.page_shift - 9)
        else max_sectors;
  }

  unfoldable pub blk_queue_max_segment_size : RequestQueue → ℕ → RequestQueue
  blk_queue_max_segment_size q max_size = record q {
    max_segment_size = if ltb max_size (page_size machine) then page_size machine else max_size;
  }

  unfoldable pub blk_queue_segment_boundary : RequestQueue → ℕ → RequestQueue
  blk_queue_segment_boundary q mask = record q {
    seg_boundary_mask = if ltb mask (page_size machine - 1) then page_size machine - 1 else mask;
  }

  -- A limit below the low memory that reaches not even the ISA range is a BUG.
  unfoldable pub blk_queue_bounce_limit : RequestQueue → ℕ → Option RequestQueue
  blk_queue_bounce_limit q dma_addr =
      let bounce_pfn = dma_addr / 2 ^ machine.page_shift in
      if ltb bounce_pfn machine.max_low_pfn
      then (if ltb dma_addr machine.bounce_isa
          then none
          else some (record q { bounce_dma = true; bounce_pfn = bounce_pfn }))
      else some (record q { bounce_dma = false; bounce_pfn = bounce_pfn })

unfoldable pub blk_queue_max_phys_segments : RequestQueue → ℕ → RequestQueue
blk_queue_max_phys_segments q max_segments = record q {
  max_phys_segments = if max_segments == 0 then 1 else max_segments;
}

unfoldable pub blk_queue_max_hw_segments : RequestQueue → ℕ → RequestQueue
blk_queue_max_hw_segments q max_segments = record q {
  max_hw_segments = if max_segments == 0 then 1 else max_segments;
}

unfoldable pub blk_queue_hardsect_size : RequestQueue → ℕ → RequestQueue
blk_queue_hardsect_size q size = record q { hardsect_size = size }

unfoldable pub blk_queue_dma_alignment : RequestQueue → ℕ → RequestQueue
blk_queue_dma_alignment q mask = record q { dma_alignment = mask }

-- The defaults of a queue up to the bounce limit; `make_request_fn` and the timer are not values of
-- the model.
unfoldable pub queue_defaults : Machine → RequestQueue → RequestQueue
unfolding blk_queue_max_sectors blk_queue_hardsect_size blk_queue_dma_alignment
queue_defaults machine q =
    let delay = 3 * machine.hz / 1000 in
    let sized =
      blk_queue_max_sectors machine
        (record q {
          max_phys_segments = machine.default_phys_segments;
          max_hw_segments = machine.default_hw_segments;
          ra_pages = machine.max_readahead * 1024 / page_size machine;
        })
        machine.default_sectors in
    record (blk_queue_dma_alignment (blk_queue_hardsect_size sized 512) 511) {
      unplug_thresh = 4;
      unplug_delay = if delay == 0 then 1 else delay;
    }

unfoldable pub blk_queue_make_request : Machine → RequestQueue → Option RequestQueue
blk_queue_make_request machine q =
    blk_queue_bounce_limit machine (queue_defaults machine q) machine.bounce_high

unfoldable pub init_segments : Machine → RequestQueue → RequestQueue
unfolding blk_queue_max_segment_size blk_queue_max_hw_segments blk_queue_max_phys_segments
init_segments machine made =
    blk_queue_max_phys_segments
      (blk_queue_max_hw_segments
        (blk_queue_max_segment_size machine made machine.default_segment_size)
        machine.default_hw_segments)
      machine.default_phys_segments

-- `blk_init_queue` behind the allocation of its requests and of the elevator's data.
unfoldable pub blk_init_limits : Machine → RequestQueue → Option RequestQueue
blk_init_limits machine q = do
  made ←
      blk_queue_make_request machine (
        blk_queue_segment_boundary machine (record q { cluster = true; stopped = false })
          0xffffffff)
  some (init_segments machine made)

-- The sizes of the free lists, of which `blk_dev_init` sets the first and the last.
pub record QueueSizes : Type 0 where
  pub queue_nr_requests : ℕ
  pub batch_requests : ℕ

-- `& ~7` clears the low three bits.
unfoldable pub blk_dev_init : ℕ → QueueSizes
blk_dev_init total_ram =
    let wanted = total_ram / 2 ^ 9 / 8 * 8 in
    let floored = if ltb wanted 16 then 16 else wanted in
    let requests = if ltb 128 floored then 128 else floored in
    let batch = requests / 8 in
    record { queue_nr_requests = requests; batch_requests = if ltb 8 batch then 8 else batch }

-- `ret < 0` holds where the quotient is 0.
unfoldable pub queue_congestion_on_threshold : ℕ → ℕ
queue_congestion_on_threshold queue_nr_requests =
    if queue_nr_requests / 8 == 0 then 1 else queue_nr_requests / 8 - 1

unfoldable pub queue_congestion_off_threshold : ℕ → ℕ
queue_congestion_off_threshold queue_nr_requests =
    let ret = queue_nr_requests / 8 + 1 in
    if ltb queue_nr_requests ret then queue_nr_requests else ret
