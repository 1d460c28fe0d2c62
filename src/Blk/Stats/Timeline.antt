-- ===== src/Blk/Stats/Timeline.antt =====
-- The time that a disk's queue is busy, and the area under its length, against the counters that
-- ucsb-io/ucsb-io-2.5.67/drivers/block/ll_rw_blk.c keeps.
use ucsb_disk_profiling.Prelude.{
  ℕ, ◌+◌, ◌-◌, ◌*◌, ◌%◌, ◌≤◌, ◌<◌, ◌≡◌, refl, true, false, List, [], ◌∷◌, ltb, if◌then◌else◌, arith,
}
use native.Mathlib.Nat.{mul-add, mul-zero, zero-mul}
use ucsb_disk_profiling.Block.{Dir, uint_mod, ulong_mod}
use ucsb_disk_profiling.Blk.Stats.{
  DiskStats, elapsed, disk_round_stats, one_more, one_less, account, account_end,
}

-- The calls that touch the statistics of one disk, each at its time: a new request, a bio that joins a
-- request, two requests that become one, the end of a request, and a round-off for /proc.
pub data Event : Type 0 where
  submit : Dir → ℕ → Event
  grow : Dir → ℕ → Event
  join : Event
  complete : Dir → ℕ → Event
  report : Event

unfoldable pub apply : ℕ → Event → DiskStats → DiskStats
apply now (submit rw nr_sectors) d = account now d rw nr_sectors true
apply now (grow rw nr_sectors) d = account now d rw nr_sectors false
apply now join d = one_less now d
apply now (complete rw start_time) d = account_end now d rw start_time
apply now report d = disk_round_stats now d

-- What an observer sees: the requests in flight, the time, the sum of the queue's length over time, and
-- the time that it was not empty.
pub record Observed : Type 0 where
  pub length : ℕ
  pub clock : ℕ
  pub area : ℕ
  pub busy : ℕ

abbrev pub length_after : Event → ℕ → ℕ
length_after (submit rw nr_sectors) n = n + 1
length_after (grow rw nr_sectors) n = n
length_after join n = n - 1
length_after (complete rw start_time) n = n - 1
length_after report n = n

unfoldable pub observe : ℕ → Event → Observed → Observed
observe now e o = record {
  length = length_after e o.length;
  clock = now;
  area = o.area + o.length * (now - o.clock);
  busy = if ltb 0 o.length then o.busy + (now - o.clock) else o.busy;
}

-- No request ends that did not begin, and fewer than 2^32 are in flight.
abbrev pub Allowed : Event → ℕ → Type 0
Allowed (submit rw nr_sectors) n = n + 1 < uint_mod
Allowed (grow rw nr_sectors) n = Unit
Allowed join n = 0 < n
Allowed (complete rw start_time) n = 0 < n
Allowed report n = Unit

-- The counters agree with what was observed, up to the time since the last round-off.
pub record Agrees (d : DiskStats) (o : Observed) : Type 0 where
  pub flying : d.in_flight ≡ o.length
  pub few : o.length < uint_mod
  pub one_stamp : d.stamp_idle ≡ d.stamp
  pub past : d.stamp ≤ o.clock
  pub no_wrap : o.clock < ulong_mod
  pub in_queue : (d.time_in_queue + o.length * (o.clock - d.stamp)) % uint_mod ≡ o.area % uint_mod
  pub ticking :
      (d.io_ticks + (if ltb 0 o.length then o.clock - d.stamp else 0)) % uint_mod
      ≡ o.busy % uint_mod

area_split : (n s c now : ℕ) → s ≤ c → c ≤ now → n * (now - s) ≡ n * (c - s) + n * (now - c)
area_split n s c now h l =
    let e : now - s ≡ (c - s) + (now - c) = omega (arith, h, l) in
    rw e (mul-add n (c - s) (now - c))

-- With the stamps at the clock there is no time left to account for.
settled :
    (d : DiskStats) (o : Observed)
    → d.in_flight ≡ o.length
    → o.length < uint_mod
    → d.stamp ≡ o.clock
    → d.stamp_idle ≡ o.clock
    → o.clock < ulong_mod
    → d.time_in_queue % uint_mod ≡ o.area % uint_mod
    → d.io_ticks % uint_mod ≡ o.busy % uint_mod
    → Agrees d o
settled d o fly few s i w q t =
    let none_left : o.length * (o.clock - d.stamp) ≡ 0 =
      let z : o.clock - d.stamp ≡ 0 = omega (arith, s) in rw z (mul-zero o.length) in
    record {
      flying = fly;
      few = few;
      one_stamp = omega (arith, s, i);
      past = omega (arith, s);
      no_wrap = w;
      in_queue = omega (arith, q, none_left);
      ticking = ground (arith, t, s);
    }

module _ (now : ℕ) (d : DiskStats) (o : Observed) (a : Agrees d o) (h : o.clock ≤ now)
    (l : now < ulong_mod) where
  elapsed_stamp : elapsed now d.stamp ≡ now - d.stamp
  elapsed_stamp = omega (arith, a.past, a.no_wrap, h, l)

  rounded_area :
      (d.time_in_queue + d.in_flight * elapsed now d.stamp) % uint_mod % uint_mod
      ≡ (o.area + o.length * (now - o.clock)) % uint_mod
  rounded_area =
      rw (a.flying, elapsed_stamp)
        (omega (arith, a.in_queue, area_split o.length d.stamp o.clock now a.past h))

  rounded_busy :
      (if ltb 0 d.in_flight then (d.io_ticks + elapsed now d.stamp_idle) % uint_mod else d.io_ticks)
        % uint_mod
      ≡ (if ltb 0 o.length then o.busy + (now - o.clock) else o.busy) % uint_mod
  rounded_busy = ground (arith, a.ticking, a.flying, a.one_stamp, a.past, a.no_wrap, h, l)

  -- A round-off, and a new length of the queue.
  round-Agrees :
      (d' : DiskStats) (n : ℕ)
      → n < uint_mod
      → d'.in_flight ≡ n
      → d'.time_in_queue ≡ (disk_round_stats now d).time_in_queue
      → d'.io_ticks ≡ (disk_round_stats now d).io_ticks
      → d'.stamp ≡ now
      → d'.stamp_idle ≡ now
      → Agrees d' (record (observe now report o) { length = n })
  unfolding disk_round_stats observe
  round-Agrees d' n few fly q t s i =
      settled d' (record (observe now report o) { length = n }) fly few s i l (rw q rounded_area)
        (rw t rounded_busy)

apply-Agrees :
    (now : ℕ) (e : Event) (d : DiskStats) (o : Observed)
    → Agrees d o
    → o.clock ≤ now
    → now < ulong_mod
    → Allowed e o.length
    → Agrees (apply now e d) (observe now e o)
unfolding apply observe account one_more one_less disk_round_stats account_end
apply-Agrees now (submit rw nr_sectors) d o a h l w =
    round-Agrees now d o a h l (apply now (submit rw nr_sectors) d) (o.length + 1) w
      (omega (arith, a.flying, w)) refl refl refl refl
apply-Agrees now (grow rw nr_sectors) d o a h l w = record {
  flying = a.flying;
  few = a.few;
  one_stamp = a.one_stamp;
  past = omega (arith, a.past, h);
  no_wrap = l;
  in_queue = omega (arith, a.in_queue, area_split o.length d.stamp o.clock now a.past h);
  ticking = ground (arith, a.ticking, a.past, h);
}
apply-Agrees now join d o a h l w =
    round-Agrees now d o a h l (apply now join d) (o.length - 1) (omega (arith, a.few))
      (omega (arith, a.flying, a.few, w)) refl refl refl refl
apply-Agrees now (complete rw start_time) d o a h l w =
    round-Agrees now d o a h l (apply now (complete rw start_time) d) (o.length - 1)
      (omega (arith, a.few)) (omega (arith, a.flying, a.few, w)) refl refl refl refl
apply-Agrees now report d o a h l w =
    round-Agrees now d o a h l (apply now report d) o.length a.few a.flying refl refl refl refl

-- Calls in the order of time.
abbrev pub Recorded : List (ℕ × Event) → Observed → Type 0
Recorded [] o = Unit
Recorded ((now, e) ∷ events) o =
    (o.clock ≤ now) × (now < ulong_mod) × Allowed e o.length × Recorded events (observe now e o)

unfoldable pub replay : DiskStats → List (ℕ × Event) → DiskStats
replay d [] = d
replay d ((now, e) ∷ events) = replay (apply now e d) events

unfoldable pub watch : Observed → List (ℕ × Event) → Observed
watch o [] = o
watch o ((now, e) ∷ events) = watch (observe now e o) events

replay-Agrees :
    (d : DiskStats) (o : Observed) (events : List (ℕ × Event))
    → Agrees d o
    → Recorded events o
    → Agrees (replay d events) (watch o events)
unfolding replay watch
replay-Agrees d o [] a r = a
replay-Agrees d o ((now, e) ∷ events) a (h, l, w, r) =
    replay-Agrees (apply now e d) (observe now e o) events (apply-Agrees now e d o a h l w) r

-- A disk without requests in flight, and an observer who begins at a time not before its stamps.
abbrev pub idle_since : ℕ → Observed
idle_since clock = record { length = 0; clock = clock; area = 0; busy = 0 }

-- For an idle disk with its sums at 0, any calls that then follow in the order of time, and a round-off
-- after them: the requests in flight are those that began and did not end, time_in_queue is the sum of
-- their number over time, and io_ticks the time for which there were any, each modulo 2^32.
pub report-exact :
    (d : DiskStats) (clock now : ℕ) (events : List (ℕ × Event))
    → d.in_flight ≡ 0
    → d.time_in_queue ≡ 0
    → d.io_ticks ≡ 0
    → d.stamp_idle ≡ d.stamp
    → d.stamp ≤ clock
    → clock < ulong_mod
    → Recorded events (idle_since clock)
    → (watch (idle_since clock) events).clock ≤ now
    → now < ulong_mod
    → let seen = observe now report (watch (idle_since clock) events) in
      let reported = disk_round_stats now (replay d events) in
      (reported.in_flight ≡ seen.length)
      × (reported.time_in_queue ≡ seen.area % uint_mod)
      × (reported.io_ticks % uint_mod ≡ seen.busy % uint_mod)
unfolding disk_round_stats observe
report-exact d clock now events fly q t s past w r h l =
    let seen = watch (idle_since clock) events in
    let start : Agrees d (idle_since clock) = record {
      flying = fly;
      few = omega arith;
      one_stamp = s;
      past = past;
      no_wrap = w;
      in_queue = rw (zero-mul (clock - d.stamp)) (omega (arith, q));
      ticking = omega (arith, t);
    } in
    let a = replay-Agrees d (idle_since clock) events start r in
    (
      a.flying,
      omega (arith, rounded_area now (replay d events) seen a h l),
      rounded_busy now (replay d events) seen a h l,
    )
