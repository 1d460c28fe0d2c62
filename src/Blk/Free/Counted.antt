-- ===== src/Blk/Free/Counted.antt =====
-- Counts and congestion of the free lists of ucsb-io/ucsb-io-2.5.67/drivers/block/ll_rw_blk.c.
use ucsb_disk_profiling.Prelude.{
  ℕ, ◌+◌, ◌-◌, ◌%◌, ◌≤◌, ◌<◌, ◌≡◌, inl, inr, refl, sym, ap, ◌∙◌, Option, none, some, Bool, true,
  false, ◌&&◌, List, [], ◌∷◌, ltb, leb, ◌==◌, if◌then◌else◌, length, arith, ==_refl,
}
use ucsb_disk_profiling.Prelude.Tests.{Bool-cases}
use ucsb_disk_profiling.Block.{Dir, read, write, Both, at, put, at-put_self, update, uint_mod}
use ucsb_disk_profiling.Blk.Queue.{
  QueueSizes, queue_congestion_on_threshold, queue_congestion_off_threshold,
}
use ucsb_disk_profiling.Blk.Free.{
  Slot, FreeLists, set_slot, take_one, take_request, get_request, give_back, blk_put_request,
  set_queue_congested, clear_queue_congested, ease, wake, release,
}

-- One free list: its count is its length, and the congestion bit is set below the lower threshold, and
-- clear from the upper one on.
pub record DirCounted (sizes : QueueSizes) (free : List ℕ) (count : ℕ) (congested : Bool)
    : Type 0 where
  pub counted : count ≡ length free
  pub low : count < queue_congestion_on_threshold sizes.queue_nr_requests → congested ≡ true
  pub high : queue_congestion_off_threshold sizes.queue_nr_requests ≤ count → congested ≡ false

pub record IsCounted (sizes : QueueSizes) (q : FreeLists) : Type 0 where
  pub reads : DirCounted sizes q.free.reads q.count.reads q.congested.reads
  pub writes : DirCounted sizes q.free.writes q.count.writes q.congested.writes

module _ (sizes : QueueSizes)
    (apart : queue_congestion_on_threshold sizes.queue_nr_requests
      < queue_congestion_off_threshold sizes.queue_nr_requests) where
  taken-DirCounted :
      (rq : ℕ) (free : List ℕ) (count : ℕ) (congested : Bool)
      → DirCounted sizes (rq ∷ free) count congested
      → DirCounted sizes free (count - 1) (
          if ltb (count - 1) (queue_congestion_on_threshold sizes.queue_nr_requests)
          then true
          else congested)
  taken-DirCounted rq free count congested v = record {
    counted = omega (arith, v.counted);
    low = λ h. ground (arith, h);
    high = λ h. ground (arith, h, v.high, apart);
  }

  given-DirCounted :
      (rq : ℕ) (free : List ℕ) (count : ℕ) (congested : Bool)
      → DirCounted sizes free count congested
      → DirCounted sizes (rq ∷ free) (count + 1) (
          if leb (queue_congestion_off_threshold sizes.queue_nr_requests) (count + 1)
          then false
          else congested)
  given-DirCounted rq free count congested v = record {
    counted = omega (arith, v.counted);
    low = λ h. ground (arith, h, v.low, apart);
    high = λ h. ground (arith, h);
  }

  take-IsCounted :
      (q : FreeLists) (rw : Dir) (free : List ℕ)
      → at q.free rw ≡ free
      → IsCounted sizes q
      → IsCounted sizes (take_request sizes q rw free).1
  unfolding take_request take_one set_queue_congested
  take-IsCounted q read [] e v = v
  take-IsCounted q write [] e v = v
  take-IsCounted q read (rq ∷ rqs) e v =
      let taken = taken-DirCounted rq rqs q.count.reads q.congested.reads (rw e at v.reads) in
      elim (Bool-cases
        (ltb (q.count.reads - 1) (queue_congestion_on_threshold sizes.queue_nr_requests))) [
          | inl b ↦ rw b (record { reads = rw b at taken; writes = v.writes })
          | inr b ↦ rw b (record { reads = rw b at taken; writes = v.writes })
        ]
  take-IsCounted q write (rq ∷ rqs) e v =
      let taken = taken-DirCounted rq rqs q.count.writes q.congested.writes (rw e at v.writes) in
      elim (Bool-cases
        (ltb (q.count.writes - 1) (queue_congestion_on_threshold sizes.queue_nr_requests))) [
          | inl b ↦ rw b (record { reads = v.reads; writes = rw b at taken })
          | inr b ↦ rw b (record { reads = v.reads; writes = rw b at taken })
        ]

  wake-IsCounted : (q : FreeLists) (d : Dir) → IsCounted sizes q → IsCounted sizes (wake sizes q d)
  unfolding wake
  wake-IsCounted q d v =
      elim (Bool-cases (leb sizes.batch_requests (at q.count d) && at q.waiting d)) [
        | inl b ↦ rw b (record { reads = v.reads; writes = v.writes })
        | inr b ↦ rw b v
      ]

  give-IsCounted :
      (q : FreeLists) (d : Dir) (rq : ℕ)
      → IsCounted sizes q
      → IsCounted sizes (give_back sizes q d rq)
  unfolding give_back ease clear_queue_congested
  give-IsCounted q read rq v =
      let given = given-DirCounted rq q.free.reads q.count.reads q.congested.reads v.reads in
      wake-IsCounted _ read
        (elim (Bool-cases
          (leb (queue_congestion_off_threshold sizes.queue_nr_requests) (q.count.reads + 1))) [
            | inl b ↦ rw b (record { reads = rw b at given; writes = v.writes })
            | inr b ↦ rw b (record { reads = rw b at given; writes = v.writes })
          ])
  give-IsCounted q write rq v =
      let given = given-DirCounted rq q.free.writes q.count.writes q.congested.writes v.writes in
      wake-IsCounted _ write
        (elim (Bool-cases
          (leb (queue_congestion_off_threshold sizes.queue_nr_requests) (q.count.writes + 1))) [
            | inl b ↦ rw b (record { reads = v.reads; writes = rw b at given })
            | inr b ↦ rw b (record { reads = v.reads; writes = rw b at given })
          ])

  slot-IsCounted :
      (q : FreeLists) (rq : ℕ) (s : Slot) → IsCounted sizes q → IsCounted sizes (set_slot q rq s)
  slot-IsCounted q rq s v = record { reads = v.reads; writes = v.writes }

  -- Where the counts and congestion bits follow the lists, get_request keeps it so, on every outcome.
  pub get-IsCounted :
      (q : FreeLists) (rw : Dir) → IsCounted sizes q → IsCounted sizes (get_request sizes q rw).1
  unfolding get_request
  get-IsCounted q d v = take-IsCounted q d (at q.free d) refl v

  release-IsCounted :
      (q : FreeLists) (rq : ℕ) (dropped : Slot) (rl : Option Dir) (queued : Bool)
      → queued ≡ false
      → IsCounted sizes q
      → (q' : FreeLists) × (release sizes q rq dropped rl queued ≡ some q') × IsCounted sizes q'
  unfolding release
  release-IsCounted q rq dropped none queued off v = (
    set_slot q rq (record dropped { active = false; has_q = false }),
    refl,
    record { reads = v.reads; writes = v.writes },
  )
  release-IsCounted q rq dropped (some d) true off v = absurd (cc)
  release-IsCounted q rq dropped (some d) false off v =
      let freed =
        set_slot q rq
          (record dropped { active = false; has_q = false; rl = none; queued = true }) in
      (
        give_back sizes freed d rq,
        refl,
        give-IsCounted freed d rq (record { reads = v.reads; writes = v.writes }),
      )

  -- A request that is on no list can be put: __blk_put_request does not hit its BUG, and the counts and
  -- congestion bits follow the lists again, whether the request goes back or not.
  pub put-IsCounted :
      (q : FreeLists) (has_queue : Bool) (rq : ℕ)
      → IsCounted sizes q
      → (q.slots rq).queued ≡ false
      → (q' : FreeLists) × (blk_put_request sizes q has_queue rq ≡ some q') × IsCounted sizes q'
  unfolding blk_put_request
  put-IsCounted q has_queue rq v off =
      let s = q.slots rq in
      let dropped = record s { ref_count = (s.ref_count + uint_mod - 1) % uint_mod } in
      elim (Bool-cases ((s.ref_count == 1) && has_queue)) [
        | inl last ↦
            let (q', e, w) = release-IsCounted q rq dropped s.rl s.queued off v in
            (q', rw last e, w)
        | inr kept ↦
            (set_slot q rq dropped, rw kept refl, record { reads = v.reads; writes = v.writes })
      ]

  take_one-lists :
      (q : FreeLists) (d : Dir)
      → ((take_one sizes q d).free ≡ q.free)
        × ((take_one sizes q d).count ≡ put q.count d (at q.count d - 1))
  unfolding take_one set_queue_congested
  take_one-lists q d = ground arith

  give_back-lists :
      (q : FreeLists) (d : Dir) (rq : ℕ)
      → ((give_back sizes q d rq).free ≡ put q.free d (rq ∷ at q.free d))
        × ((give_back sizes q d rq).count ≡ put q.count d (at q.count d + 1))
  unfolding give_back ease wake clear_queue_congested
  give_back-lists q d rq = ground arith

  put-back : {A : Type 0} (b : Both A) (d : Dir) (x y : A) → at b d ≡ x → put (put b d y) d x ≡ b
  put-back b read x y e = ap (put b read) (sym e)
  put-back b write x y e = ap (put b write) (sym e)

  restores :
      (q back : FreeLists) (d : Dir) (rq : ℕ) (rest : List ℕ)
      → back.free ≡ put q.free d rest
      → back.count ≡ put q.count d (at q.count d - 1)
      → at q.free d ≡ rq ∷ rest
      → 0 < at q.count d
      → ((give_back sizes back d rq).free ≡ q.free) × ((give_back sizes back d rq).count ≡ q.count)
  restores q back d rq rest f c e p =
      let given = give_back-lists back d rq in
      let head : at (put q.free d rest) d ≡ rest = at-put_self q.free d rest in
      let left : at (put q.count d (at q.count d - 1)) d ≡ at q.count d - 1 =
        at-put_self q.count d (at q.count d - 1) in
      (
        given.0
            ∙ (ap (λ b. put b d (rq ∷ at b d)) f
                ∙ put-back q.free d (rq ∷ at (put q.free d rest) d) rest
                    (e ∙ ap (λ l. rq ∷ l) (sym head))),
        given.1
            ∙ (ap (λ b. put b d (at b d + 1)) c
                ∙ put-back q.count d (at (put q.count d (at q.count d - 1)) d + 1)
                    (at q.count d - 1) (omega (arith, left, p))),
      )

  counted_at : (q : FreeLists) (d : Dir) → IsCounted sizes q → at q.count d ≡ length (at q.free d)
  counted_at q read v = v.reads.counted
  counted_at q write v = v.writes.counted

  -- A request that get_request has taken, put again with its queue: both lists and both counts are as
  -- before, the request at the head of its list.
  pub get-put :
      (q : FreeLists) (d : Dir) (rq : ℕ) (rest : List ℕ)
      → IsCounted sizes q
      → at q.free d ≡ rq ∷ rest
      → (q' : FreeLists) × ((get_request sizes q d).0 ≡ some rq)
        × (blk_put_request sizes (get_request sizes q d).1 true rq ≡ some q')
        × (q'.free ≡ q.free)
        × (q'.count ≡ q.count)
  unfolding get_request take_request blk_put_request release
  get-put q d rq rest v e =
      let taken = take_one sizes (record q { free = put q.free d rest }) d in
      let slot : Slot = record {
        ref_count = 0;
        active = false;
        has_q = false;
        queued = true;
        rl = none;
      } in
      let used =
        update taken.slots rq
          (record { ref_count = 1; active = true; has_q = true; queued = false; rl = some d }) in
      let back = record taken { slots = update used rq slot } in
      let lists = take_one-lists (record q { free = put q.free d rest }) d in
      let restored =
        restores q back d rq rest lists.0 lists.1 e
          (omega (arith, counted_at q d v, ap length e)) in
      (give_back sizes back d rq, rw e refl, rw (e, ==_refl rq) refl, restored.0, restored.1)
