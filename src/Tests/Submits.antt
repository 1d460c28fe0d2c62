-- ===== src/Tests/Submits.antt =====
-- The theorems about statistics, the way of a bio to its driver, and plugging, each at a concrete state.
use ucsb_disk_profiling.Prelude.{
  ◌-◌, ℕ, ◌+◌, ◌%◌, ◌≡◌, ◌⊎◌, inl, inr, refl, none, some, true, false, List, [], ◌∷◌, arith, ◌==◌,
  if◌then◌else◌, count,
}
use ucsb_disk_profiling.Prelude.Tests.{Bool-cases}
use ucsb_disk_profiling.Block.{read, write, uint_mod}
use ucsb_disk_profiling.Blk.Stats.{DiskStats, disk_round_stats}
use ucsb_disk_profiling.Blk.Stats.Timeline.{
  Event, submit, complete, report, observe, Recorded, replay, watch, idle_since, report-exact,
}
use ucsb_disk_profiling.Segments.{StructBio}
use ucsb_disk_profiling.Blk.Submit.{BlockDevice, Drivers, Io, Sent, generic_make_request}
use ucsb_disk_profiling.Blk.Submit.Resolve.{Settled, Descends, make_request-Settled}
use ucsb_disk_profiling.Blk.Submit.Range.{Checked, make_request-Checked}
use ucsb_disk_profiling.Blk.Plug.{
  Plugs, Strategy, blk_plug_device, blk_unplug_timeout, blk_unplug_work, generic_unplug_device,
  blk_remove_plug, blk_stop_queue, blk_run_queues,
}
use ucsb_disk_profiling.Blk.Plug.Timers.{
  IsAwaited, here, then_, plug, expire, work, Calls, begins, works, plugs, stops, Reach-IsAwaited,
}
use ucsb_disk_profiling.Blk.Plug.Run.{Consumes, Quiet, run_queues-Quiet}
use ucsb_disk_profiling.Tests.Queues.{queue, two_pages}

abbrev pub idle_disk : DiskStats
idle_disk = record {
  ios = record { reads = 0; writes = 0 };
  sectors = record { reads = 0; writes = 0 };
  merges = record { reads = 0; writes = 0 };
  ticks = record { reads = 0; writes = 0 };
  in_flight = 0;
  time_in_queue = 0;
  io_ticks = 0;
  stamp = 90;
  stamp_idle = 90;
}

-- Two requests, of which the first is completed.
abbrev calls : List (ℕ × Event)
calls = (100, submit read 8) ∷ (110, submit write 16) ∷ (115, complete read 100) ∷ []

calls-Recorded : Recorded calls (idle_since 100)
unfolding observe
calls-Recorded = (
  omega arith,
  omega arith,
  omega arith,
  (omega arith, omega arith, omega arith, (omega arith, omega arith, omega arith, tt)),
)

calls_clock : (watch (idle_since 100) calls).clock ≡ 115
unfolding watch observe
calls_clock = refl

report-exact_example :
    let seen = observe 130 report (watch (idle_since 100) calls) in
    let reported = disk_round_stats 130 (replay idle_disk calls) in
    (reported.in_flight ≡ seen.length)
    × (reported.time_in_queue ≡ seen.area % uint_mod)
    × (reported.io_ticks % uint_mod ≡ seen.busy % uint_mod)
report-exact_example =
    report-exact idle_disk 100 130 calls refl refl refl refl (omega arith) (omega arith)
      calls-Recorded (omega (arith, calls_clock)) (omega arith)

-- A disk, a partition of it, and a device that is stacked on the disk.
abbrev devices : ℕ → BlockDevice
devices dev =
    if dev == 1
    then record { i_size = 40960; bd_contains = 0; bd_offset = 64 }
    else record { i_size = 409600; bd_contains = dev; bd_offset = 0 }

abbrev plain : Drivers ℕ
plain = record {
  queue_of = λ dev. some queue;
  make_request_fn = λ dev taken bio. (false, bio, taken + 1);
}

abbrev stacked : Drivers ℕ
stacked = record {
  queue_of = λ dev. some queue;
  make_request_fn = λ dev taken bio.
      (if dev == 2
        then (true, record bio { bi_bdev = some 0 }, taken)
        else (false, bio, taken + 1));
}

abbrev io : Io ℕ
io = record {
  driver = 0;
  parts = λ dev. record { reads = 0; read_sectors = 0; writes = 0; write_sectors = 0 };
  pgpgin = 0;
  pgpgout = 0;
  ended = [];
}

abbrev bio_on : ℕ → StructBio
bio_on dev = record two_pages { bi_bdev = some dev; bi_sector = 8 }

stacked-Descends : Descends devices stacked (λ dev. dev)
stacked-Descends dev taken bio = elim (Bool-cases (dev == 2)) [
  | inl top ↦ inr (0, ground (arith, top), ground (arith, top))
  | inr other ↦ inl (ground (arith, other))
]

make_request-Settled_example :
    (sent : Sent ℕ) × (generic_make_request devices stacked 3 io (bio_on 2) ≡ some sent)
    × Settled devices stacked io sent
make_request-Settled_example =
    make_request-Settled devices stacked (λ dev. dev) 3 io (bio_on 2) 2 stacked-Descends refl
      (omega arith)

make_request-Checked_example :
    (sent : Sent ℕ) × (generic_make_request devices plain 1 io (bio_on 1) ≡ some sent)
    × Checked devices plain io (bio_on 1) 1 queue sent
make_request-Checked_example =
    make_request-Checked devices plain io (bio_on 1) 1 queue 0 (λ d taken bio. refl) refl refl
      (omega arith) (omega arith) (omega arith)

-- A driver that counts the requests of all queues together, and takes them all.
abbrev takes_all : Strategy ℕ
takes_all = record {
  elv_queue_empty = λ requests q. requests == 0;
  request_fn = λ q s. record s { driver = 0 };
  unplug_delay = λ q. 3;
}

abbrev unplugged_queues : Plugs ℕ
unplugged_queues = record {
  plug_list = [];
  local_list = [];
  timer = λ q. none;
  unplug_work = λ q. false;
  stopped = λ q. false;
  driver = 2;
}

-- A driver that takes one request, plugs queue 6 and stops its own.
abbrev stops_itself : Strategy ℕ
stops_itself = record {
  elv_queue_empty = λ requests q. requests == 0;
  request_fn =
      λ q s. blk_stop_queue (blk_plug_device takes_all 20 (record s { driver = s.driver - 1 }) 6) q;
  unplug_delay = λ q. 3;
}

stops_itself-Calls : (q : ℕ) (s : Plugs ℕ) → Calls stops_itself s (stops_itself.request_fn q s)
unfolding blk_plug_device
stops_itself-Calls q s = stops q (plugs 20 6 (works (s.driver - 1) begins))

unplugged_queues-IsAwaited : IsAwaited unplugged_queues
unplugged_queues-IsAwaited q = record { once = omega arith; waits = inl refl; woken = inl refl }

abbrev plugged_queues : Plugs ℕ
plugged_queues = blk_plug_device stops_itself 10 unplugged_queues 5

abbrev expired : Plugs ℕ
expired = blk_unplug_timeout plugged_queues 5

timer_pending : plugged_queues.timer 5 ≡ some 13
unfolding blk_plug_device
timer_pending = refl

work_scheduled : expired.unplug_work 5 ≡ true
unfolding blk_unplug_timeout
work_scheduled = refl

-- The work unplugs queue 5, and runs the driver.
runs_driver : (blk_unplug_work stops_itself expired 5).driver ≡ 1
unfolding blk_unplug_work generic_unplug_device blk_remove_plug blk_unplug_timeout blk_plug_device
    blk_stop_queue
runs_driver = refl

Reach-IsAwaited_example : IsAwaited (blk_unplug_work stops_itself expired 5)
Reach-IsAwaited_example =
    Reach-IsAwaited stops_itself stops_itself-Calls unplugged_queues
      (blk_unplug_work stops_itself expired 5) unplugged_queues-IsAwaited
      (then_ 14 (then_ 13 (then_ 10 here (plug 5)) (expire 5 13 timer_pending))
        (work 5 work_scheduled))

takes_all-Consumes : (q : ℕ) (s : Plugs ℕ) → Consumes takes_all q s (takes_all.request_fn q s)
takes_all-Consumes q s = record {
  same_plugs = refl;
  same_local = refl;
  same_stopped = refl;
  emptied = refl;
  others = λ r. inr refl;
}

abbrev two_plugged : Plugs ℕ
two_plugged = record unplugged_queues { plug_list = 5 ∷ 6 ∷ [] }

run_queues-Quiet_example :
    (t : Plugs ℕ) × (blk_run_queues takes_all 3 two_plugged ≡ some t)
    × (t.plug_list ≡ [])
    × (t.local_list ≡ [])
    × ((q : ℕ) → (count q two_plugged.plug_list ≡ 0) ⊎ Quiet takes_all takes_all-Consumes t q)
run_queues-Quiet_example =
    run_queues-Quiet takes_all takes_all-Consumes 3 two_plugged refl (refl, (refl, tt))
      (omega arith)
