-- ===== src/Tests/Requests.antt =====
-- The theorems about free lists and tags, each at a concrete state.
use ucsb_disk_profiling.Prelude.{
  ℕ, ◌<◌, ◌≡◌, refl, Option, none, some, true, false, [], ◌∷◌, ◌⊎◌, arith, length, if◌then◌else◌,
  pos, leb, ◌==◌,
}
use ucsb_disk_profiling.Block.{read, update}
use ucsb_disk_profiling.Blk.Queue.{
  QueueSizes, queue_congestion_on_threshold, queue_congestion_off_threshold,
}
use ucsb_disk_profiling.Blk.Free.{Slot, FreeLists, get_request, blk_put_request}
use ucsb_disk_profiling.Blk.Free.Counted.{IsCounted, get-IsCounted, put-IsCounted}
use ucsb_disk_profiling.Blk.Tags.{
  QueueTags, Tagged, blk_queue_start_tag, blk_queue_end_tag, blk_queue_find_tag,
}
use ucsb_disk_profiling.Blk.Tags.Least.{AllSet}
use ucsb_disk_profiling.Blk.Tags.Held.{IsTagged, Holds, start_tag-Holds, end_tag-Holds}

abbrev pub sizes : QueueSizes
sizes = record { queue_nr_requests = 16; batch_requests = 2 }

thresholds : queue_congestion_on_threshold 16 < queue_congestion_off_threshold 16
unfolding queue_congestion_on_threshold queue_congestion_off_threshold
thresholds = omega arith

abbrev slot : ℕ → Slot
slot n = record { ref_count = 1; active = true; has_q = true; queued = n == 3; rl = some read }

-- Three requests are free to read; none to write, where a task waits.
abbrev pub lists : FreeLists
lists = record {
  free = record { reads = 3 ∷ 4 ∷ 5 ∷ []; writes = [] };
  count = record { reads = 3; writes = 0 };
  congested = record { reads = false; writes = true };
  waiting = record { reads = false; writes = true };
  wakeups = record { reads = 0; writes = 0 };
  slots = slot;
}

lists-IsCounted : IsCounted sizes lists
unfolding queue_congestion_on_threshold queue_congestion_off_threshold
lists-IsCounted = record {
  reads = record { counted = refl; low = λ h. absurd (omega (arith, h)); high = λ h. refl };
  writes = record { counted = refl; low = λ h. refl; high = λ h. absurd (omega (arith, h)) };
}

get-IsCounted_example : IsCounted sizes (get_request sizes lists read).1
get-IsCounted_example = get-IsCounted sizes thresholds lists read lists-IsCounted

put-IsCounted_example :
    (q' : FreeLists) × (blk_put_request sizes lists true 9 ≡ some q') × IsCounted sizes q'
put-IsCounted_example = put-IsCounted sizes thresholds lists true 9 lists-IsCounted refl

abbrev fresh_lists : FreeLists
fresh_lists = record lists { congested = record { reads = false; writes = false } }

-- The allocation of round 20 fails.
abbrev short_pool : ℕ → Option ℕ
short_pool i = if i == 20 then none else some i

-- Of eight tags, request 5 holds the first.
abbrev tags : QueueTags
tags = record {
  tag_index = λ t. if t == 0 then some 5 else none;
  tag_map = λ t. (if t == 0 then true else leb 8 t);
  words = 1;
  busy_list = 5 ∷ [];
  busy = 1;
  max_depth = 8;
}

abbrev tagged : Tagged
tagged = record {
  bqt = tags;
  rqs = λ n. record { tag = if n == 5 then some 0 else none; queued = n == 5; started = false };
}

tags-IsTagged : IsTagged tags
tags-IsTagged = record {
  guarded = record { length = refl; guard = λ t h. ground (arith, h) };
  unused = λ t h. ground (arith, h);
  counted = refl;
  small = omega arith;
}

start_tag-Holds_example :
    ((t : ℕ) × (s' : Tagged) × (blk_queue_start_tag tagged 6 ≡ some (0, s')) × Holds tagged s' 6 t)
    ⊎ ((blk_queue_start_tag tagged 6 ≡ some (1, tagged)) × AllSet tags.tag_map 0 tags.max_depth)
start_tag-Holds_example = start_tag-Holds tagged 6 tags-IsTagged refl

-- The state once request 6 has the second tag.
abbrev two_tagged : Tagged
two_tagged = record {
  bqt = record tags {
    tag_index = update tags.tag_index 1 (some 6);
    tag_map = update tags.tag_map 1 true;
    busy_list = 6 ∷ 5 ∷ [];
    busy = 2;
  };
  rqs = update tagged.rqs 6 (record { tag = some 1; queued = true; started = false });
}

two_tagged-Holds : Holds tagged two_tagged 6 1
two_tagged-Holds = record {
  in_depth = omega arith;
  least = record { from = omega arith; clear = refl; before = λ u l h. ground (arith, l, h) };
  has_tag = refl;
  set_map = λ u. refl;
  set_index = λ u. refl;
  busy_list = refl;
  busy = refl;
  max_depth = refl;
  guarded = record { length = refl; guard = λ t h. ground (arith, h) };
}

end_tag-Holds_example :
    (blk_queue_find_tag (some two_tagged.bqt) (pos 1) ≡ some (some 6))
    × (s'' : Tagged) × (blk_queue_end_tag two_tagged 6 ≡ some s'')
    × ((u : ℕ) → s''.bqt.tag_map u ≡ tags.tag_map u)
    × ((u : ℕ) → s''.bqt.tag_index u ≡ tags.tag_index u)
    × (s''.bqt.busy_list ≡ tags.busy_list)
    × (s''.bqt.busy ≡ tags.busy)
    × ((s''.rqs 6).tag ≡ none)
end_tag-Holds_example = end_tag-Holds tagged two_tagged 6 1 tags-IsTagged two_tagged-Holds
