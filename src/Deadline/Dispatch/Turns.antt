-- ===== src/Deadline/Dispatch/Turns.antt =====
-- Whose turn it is in deadline_dispatch_requests of
-- ucsb-io/ucsb-io-2.5.67/drivers/block/deadline-iosched.c, and what becomes of `starved`.
use ucsb_disk_profiling.Prelude.{
  ℕ, ◌+◌, ◌%◌, ◌≤◌, ◌<◌, ◌≡◌, ◌⊎◌, inl, inr, refl, sym, ap, ◌∙◌, none, some, true, false, List, [],
  ◌∷◌, leb, ltb, ◌==◌, if◌then◌else◌, arith, count, length, Option-cases, Bool-cases,
}
use ucsb_disk_profiling.Block.{Dir, read, write, uint_mod}
use ucsb_disk_profiling.Kernel.{Kernel, inorder}
use ucsb_disk_profiling.Deadline.State.{DeadlineData}
use ucsb_disk_profiling.Deadline.Invariant.{IsValid, tuned-IsValid}
use ucsb_disk_profiling.Deadline.Dispatch.{
  dispatch_request, dispatch_writes, select_direction, batch_request, charge_seek,
  deadline_dispatch_requests,
}
use ucsb_disk_profiling.Deadline.Dispatch.Total.{IsSent, find_total, rb_empty-inorder}
use ucsb_disk_profiling.Deadline.Dispatch.Starvation.{
  dispatch-SameCounters, find-starved, writes-starved,
}

-- A request of one direction was moved.
pub record Sends (k : Kernel) (dd : DeadlineData) (d : Dir) (dd' : DeadlineData) : Type 0 where
  pub sent : IsSent k dd dd'
  pub from : sent.dir ≡ d

-- A direction is chosen anew: reads overtake writes that wait, or none wait; or the writes have their
-- turn, since there are no reads, or since reads have overtaken them often enough.
pub data Chosen (k : Kernel) (dd dd' : DeadlineData) : Type 0 where
  overtakes :
      Sends k dd read dd'
      → 0 < length dd.fifo_list.writes
      → dd.starved < dd.writes_starved
      → dd'.starved ≡ dd.starved + 1
      → Chosen k dd dd'
  unopposed :
      Sends k dd read dd' → dd.fifo_list.writes ≡ [] → dd'.starved ≡ dd.starved → Chosen k dd dd'
  write_turn :
      Sends k dd write dd'
      → (dd.fifo_list.reads ≡ []) ⊎ (dd.writes_starved ≤ dd.starved)
      → dd'.starved ≡ 0
      → Chosen k dd dd'

-- A batch goes on, which does not count, or a direction is chosen.
pub data Turn (k : Kernel) (dd dd' : DeadlineData) : Type 0 where
  in_batch :
      (a : ℕ)
      → batch_request dd ≡ some a
      → (charge_seek dd a).batching < dd.fifo_batch
      → dd' ≡ dispatch_request k (charge_seek dd a) a
      → dd'.starved ≡ dd.starved
      → Turn k dd dd'
  chosen : Chosen k dd dd' → Turn k dd dd'

tuned-Sends :
    (k : Kernel) (dd dd' : DeadlineData) (b s : ℕ) (d : Dir)
    → Sends k (record dd { batching = b; starved = s }) d dd'
    → Sends k dd d dd'
tuned-Sends k dd dd' b s d p = record {
  sent = record {
    request = p.sent.request;
    dir = p.sent.dir;
    before = p.sent.before;
    retuned = p.sent.retuned;
    member = p.sent.member;
    moved = p.sent.moved;
  };
  from = p.from;
}

tuned-Chosen :
    (k : Kernel) (dd dd' : DeadlineData) (b : ℕ)
    → Chosen k (record dd { batching = b; starved = dd.starved }) dd'
    → Chosen k dd dd'
tuned-Chosen k dd dd' b (overtakes s w l e) =
    overtakes (tuned-Sends k dd dd' b dd.starved read s) w l e
tuned-Chosen k dd dd' b (unopposed s w e) = unopposed (tuned-Sends k dd dd' b dd.starved read s) w e
tuned-Chosen k dd dd' b (write_turn s w e) =
    write_turn (tuned-Sends k dd dd' b dd.starved write s) w e

module _ (k : Kernel) where
  reads_there :
      (dd : DeadlineData) (x : ℕ) (xs : List ℕ)
      → IsValid dd
      → dd.fifo_list.reads ≡ x ∷ xs
      → 0 < count x (inorder dd.sort_list.reads)
  reads_there dd x xs v r = ground (arith, ap (count x) r, v.reads.same x)

  writes_Sends :
      (dd : DeadlineData) (y : ℕ) (ys : List ℕ)
      → IsValid dd
      → dd.fifo_list.writes ≡ y ∷ ys
      → (dd' : DeadlineData) × (dispatch_writes k dd ≡ some dd')
        × Sends k dd write dd'
        × (dd'.starved ≡ 0)
  unfolding dispatch_writes
  writes_Sends dd y ys v w =
      let fresh = record dd { starved = 0 } in
      let (dd', found, sent, from) =
        find_total k fresh (tuned-IsValid dd.batching 0 v) write y ys w in
      let there : 0 < count y (inorder dd.sort_list.writes) =
        ground (arith, ap (count y) w, v.writes.same y) in
      let run : dispatch_writes k dd ≡ some dd' =
        rw (rb_empty-inorder dd.sort_list.writes y there) found in
      (
        dd',
        run,
        tuned-Sends k dd dd' dd.batching 0 write (record { sent = sent; from = from }),
        writes-starved k dd dd' run,
      )

  select_Chosen :
      (dd : DeadlineData) (xs ys : List ℕ)
      → IsValid dd
      → dd.writes_starved < uint_mod
      → dd.fifo_list.reads ≡ xs
      → dd.fifo_list.writes ≡ ys
      → ((xs ≡ []) × (ys ≡ []) × (select_direction k dd ≡ some (false, dd)))
        ⊎ ((dd' : DeadlineData) × (select_direction k dd ≡ some (true, dd')) × Chosen k dd dd')
  unfolding select_direction
  select_Chosen dd [] [] v l r w = inl (refl, refl, rw (r, w, select_direction))
  select_Chosen dd [] (y ∷ ys) v l r w =
      let (dd', e, s, z) = writes_Sends dd y ys v w in
      inr (dd', ground (arith, r, w, e), write_turn s (inl r) z)
  select_Chosen dd (x ∷ xs) [] v l r w =
      let (dd', e, s, from) = find_total k dd v read x xs r in
      let full = rb_empty-inorder dd.sort_list.reads x (reads_there dd x xs v r) in
      inr (
        dd',
        ground (arith, r, w, full, e),
        unopposed (record { sent = s; from = from }) w (find-starved k dd dd' read e),
      )
  select_Chosen dd (x ∷ xs) (y ∷ ys) v l r w =
      let n = (dd.starved + 1) % uint_mod in
      let tried = record dd { starved = n } in
      let tried_v = tuned-IsValid dd.batching n v in
      let full = rb_empty-inorder dd.sort_list.reads x (reads_there dd x xs v r) in
      elim (Bool-cases (leb dd.writes_starved dd.starved)) [
        | inl starving ↦
            let (dd', e, s, z) = writes_Sends tried y ys tried_v w in
            inr (
              dd',
              ground (arith, r, w, full, starving, e),
              write_turn (tuned-Sends k dd dd' dd.batching n write s)
                  (inr (ground (arith, starving))) z,
            )
        | inr patient ↦
            let (dd', e, s, from) = find_total k tried tried_v read x xs r in
            let room : dd.starved < dd.writes_starved = ground (arith, patient) in
            inr (
              dd',
              ground (arith, r, w, full, patient, e),
              overtakes (tuned-Sends k dd dd' dd.batching n read (record { sent = s; from = from }))
                  (ground (arith, ap length w)) room
                  (omega (arith, find-starved k tried dd' read e, room, l)),
            )
      ]

  -- A batch has a request left.
  none_left :
      (dd : DeadlineData) (a : ℕ)
      → IsValid dd
      → batch_request dd ≡ some a
      → dd.fifo_list.reads ≡ []
      → dd.fifo_list.writes ≡ []
      → ⊥
  none_left dd a v going r w = elim (Option-cases dd.next_drq.writes) [
    | inl z ↦ (omega (arith, v.reads.next a (ground (arith, z)), ap (count a) r))
    | inr (b, z) ↦ (omega (arith, v.writes.next a (ground (arith, z)), ap (count a) w))
  ]

  -- The batch goes on with `a`, or not.
  continue_Turn :
      (dd : DeadlineData) (b a : ℕ)
      → IsValid dd
      → dd.writes_starved < uint_mod
      → batch_request dd ≡ some a
      → charge_seek dd a ≡ record dd { batching = b; starved = dd.starved }
      → let charged = record dd { batching = b; starved = dd.starved } in
        (dd' : DeadlineData) × ((if ltb b dd.fifo_batch
            then some (true, dispatch_request k charged a)
            else select_direction k charged)
          ≡ some (true, dd'))
        × Turn k dd dd'
  continue_Turn dd b a v l going charge =
      let charged = record dd { batching = b; starved = dd.starved } in
      elim (Bool-cases (ltb b dd.fifo_batch)) [
        | inl more ↦ (
          dispatch_request k charged a,
          rw more,
          in_batch a going (ground (arith, more, ap (λ x. x.batching) charge))
              (ap (λ x. dispatch_request k x a) (sym charge))
              (dispatch-SameCounters k charged a).starved,
        )
        | inr over ↦
            (elim (select_Chosen charged dd.fifo_list.reads dd.fifo_list.writes
              (tuned-IsValid b dd.starved v) l refl refl) [
                | inl (r, w, _) ↦ absurd (none_left dd a v going r w)
                | inr (dd', e, c) ↦ (dd', rw over e, chosen (tuned-Chosen k dd dd' b c))
              ])
      ]

  -- If the scheduler's lists are in order and `writes_starved` is below 2^32, then
  -- deadline_dispatch_requests returns. It returns 0 and changes nothing if both fifo lists are empty.
  -- Otherwise it returns 1, and one of two things happened. Either the batch went on with the request
  -- behind its last one, and `starved` is as before. Or a direction was chosen and one request of it was
  -- moved: a read while writes wait, which adds 1 to `starved` and happens only with `starved` below
  -- `writes_starved`; a read while no writes wait, which leaves `starved`; or a write, if there are no
  -- reads or `starved` has reached `writes_starved`, and then `starved` is 0.
  pub dispatch_requests-Turn :
      (dd : DeadlineData)
      → IsValid dd
      → dd.writes_starved < uint_mod
      → ((dd.fifo_list.reads ≡ [])
          × (dd.fifo_list.writes ≡ [])
          × (deadline_dispatch_requests k dd ≡ some (false, dd)))
        ⊎ ((dd' : DeadlineData) × (deadline_dispatch_requests k dd ≡ some (true, dd'))
            × Turn k dd dd')
  unfolding deadline_dispatch_requests
  dispatch_requests-Turn dd v l = elim (Option-cases (batch_request dd)) [
    | inl idle ↦ (elim (select_Chosen dd dd.fifo_list.reads dd.fifo_list.writes v l refl refl) [
      | inl (r, w, e) ↦ inl (r, w, unbatched idle ∙ e)
      | inr (dd', e, c) ↦ inr (dd', unbatched idle ∙ e, chosen c)
    ])
    | inr (a, going) ↦ (elim (Bool-cases (dd.last_sector == (dd.rqs a).sector)) [
      | inl near ↦
          let (dd', e, t) = continue_Turn dd dd.batching a v l going (ground (arith, near)) in
          inr (dd', ground (arith, going, near, e), t)
      | inr far ↦
          let (dd', e, t) =
            continue_Turn dd ((dd.batching + dd.fifo_batch) % uint_mod) a v l going
              (ground (arith, far)) in
          inr (dd', ground (arith, going, far, e), t)
    ])
  ]
    where
      unbatched : batch_request dd ≡ none → deadline_dispatch_requests k dd ≡ select_direction k dd
      unbatched idle = ground (arith, idle)
