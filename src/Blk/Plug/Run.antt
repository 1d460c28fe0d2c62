-- ===== src/Blk/Plug/Run.antt =====
-- What blk_run_queues of ucsb-io/ucsb-io-2.5.67/drivers/block/ll_rw_blk.c leaves to do.
use ucsb_disk_profiling.Prelude.{
  ℕ, zero, suc, ◌<◌, ◌≡◌, ◌⊎◌, inl, inr, refl, ap, ◌∙◌, none, some, true, false, List, [], ◌∷◌,
  ◌==◌, arith, length, count, remove, remove-absent,
}
use ucsb_disk_profiling.Prelude.Tests.{Bool-cases}
use ucsb_disk_profiling.Block.{update}
use ucsb_disk_profiling.Blk.Plug.{
  Plugs, Strategy, plugged, serve, blk_remove_plug, generic_unplug_device, run_local,
  blk_run_queues,
}

-- The `request_fn` of a driver that takes all the requests of its queue, as the block layer assumes: it
-- leaves the plugs and stop flags alone, and gives no other queue requests.
pub record Consumes {D : Type 0} (k : Strategy D) (q : ℕ) (s t : Plugs D) : Type 0 where
  pub same_plugs : t.plug_list ≡ s.plug_list
  pub same_local : t.local_list ≡ s.local_list
  pub same_stopped : t.stopped ≡ s.stopped
  pub emptied : k.elv_queue_empty t.driver q ≡ true
  pub others :
      (r : ℕ) → (k.elv_queue_empty s.driver r ≡ false) ⊎ (k.elv_queue_empty t.driver r ≡ true)

module _ {D : Type 0} (k : Strategy D)
    (consumes : (q : ℕ) (s : Plugs D) → Consumes k q s (k.request_fn q s)) where
  -- A queue with nothing to do, or that a driver has stopped.
  abbrev pub Quiet : Plugs D → ℕ → Type 0
  Quiet s q = (s.stopped q ≡ true) ⊎ (k.elv_queue_empty s.driver q ≡ true)

  -- A round for the first queue of the list.
  record Round (q : ℕ) (qs : List ℕ) (s t : Plugs D) : Type 0 where
    rest : t.local_list ≡ qs
    no_plugs : t.plug_list ≡ []
    same_stopped : t.stopped ≡ s.stopped
    quiet : Quiet t q
    others :
        (r : ℕ) → (k.elv_queue_empty s.driver r ≡ false) ⊎ (k.elv_queue_empty t.driver r ≡ true)

  serve-Round :
      (q : ℕ) (qs : List ℕ) (s : Plugs D)
      → s.local_list ≡ qs
      → s.plug_list ≡ []
      → Round q qs s (serve k s q)
  serve-Round q qs s e p = elim (Bool-cases (k.elv_queue_empty s.driver q)) [
    | inl idle ↦ rw idle (record {
      rest = e;
      no_plugs = p;
      same_stopped = refl;
      quiet = inr idle;
      others = λ r. ground arith;
    })
    | inr busy ↦
        let c = consumes q s in
        rw busy (record {
          rest = c.same_local ∙ e;
          no_plugs = c.same_plugs ∙ p;
          same_stopped = c.same_stopped;
          quiet = inr c.emptied;
          others = c.others;
        })
  ]

  removed-plug :
      (q : ℕ) (qs : List ℕ) (s : Plugs D)
      → s.local_list ≡ q ∷ qs
      → s.plug_list ≡ []
      → count q qs ≡ 0
      → let removed = blk_remove_plug s q in
        (removed.0 ≡ true)
        × (removed.1.local_list ≡ qs)
        × (removed.1.plug_list ≡ [])
        × (removed.1.stopped ≡ s.stopped)
        × (removed.1.driver ≡ s.driver)
  unfolding blk_remove_plug
  removed-plug q qs s e p once =
      let there : plugged s q ≡ true = ground (arith, ap (count q) e) in
      let gone : remove q s.local_list ≡ qs =
        ap (remove q) e ∙ ground (arith, remove-absent q qs once) in
      rw there (refl, gone, ap (remove q) p, refl, refl)

  unplug-Round :
      (q : ℕ) (qs : List ℕ) (s : Plugs D)
      → s.local_list ≡ q ∷ qs
      → s.plug_list ≡ []
      → count q qs ≡ 0
      → Round q qs s (generic_unplug_device k s q)
  unfolding generic_unplug_device
  unplug-Round q qs s e p once =
      let removed = blk_remove_plug s q in
      let (was, left, plugs, stops, drives) = removed-plug q qs s e p once in
      elim (Bool-cases (removed.1.stopped q)) [
        | inl halted ↦
            rw (was, halted)
              (record {
                rest = left;
                no_plugs = plugs;
                same_stopped = stops;
                quiet = inl halted;
                others = λ r. ground (arith, drives);
              })
        | inr going ↦
            let t = record removed.1 { timer = update removed.1.timer q none } in
            let round = serve-Round q qs t left plugs in
            rw (was, going)
              (record {
                rest = round.rest;
                no_plugs = round.no_plugs;
                same_stopped = round.same_stopped ∙ stops;
                quiet = round.quiet;
                others = λ r. ground (arith, drives, round.others r);
              })
      ]

  -- No queue is on the list twice.
  abbrev pub Distinct : List ℕ → Type 0
  Distinct [] = Unit
  Distinct (q ∷ qs) = (count q qs ≡ 0) × Distinct qs

  -- The first queue of the list stays quiet, and the others come to be.
  record Rounds (qs : List ℕ) (s t : Plugs D) : Type 0 where
    pub no_local : t.local_list ≡ []
    pub no_plugs : t.plug_list ≡ []
    pub same_stopped : t.stopped ≡ s.stopped
    pub quiet : (q : ℕ) → (count q qs ≡ 0) ⊎ Quiet t q
    pub others :
        (r : ℕ) → (k.elv_queue_empty s.driver r ≡ false) ⊎ (k.elv_queue_empty t.driver r ≡ true)

  still-Quiet :
      (q : ℕ) (s t : Plugs D)
      → t.stopped ≡ s.stopped
      → (k.elv_queue_empty s.driver q ≡ false) ⊎ (k.elv_queue_empty t.driver q ≡ true)
      → Quiet s q
      → Quiet t q
  still-Quiet q s t e o (inl halted) = inl (ap (λ f. f q) e ∙ halted)
  still-Quiet q s t e (inl busy) (inr idle) = cc
  still-Quiet q s t e (inr still) (inr idle) = inr still

  spread :
      (q : ℕ) (qs : List ℕ) (s t : Plugs D)
      → Rounds qs s t
      → Quiet s q
      → (r : ℕ) → (count r (q ∷ qs) ≡ 0) ⊎ Quiet t r
  spread q qs s t rounds first r = elim (Bool-cases (r == q)) [
    | inl same ↦
        let e : r ≡ q = ground (arith, same) in
        inr (rw e (still-Quiet q s t rounds.same_stopped (rounds.others q) first))
    | inr other ↦ elim (rounds.quiet r) [
      | inl absent ↦ inl (ground (arith, absent, other))
      | inr quiet ↦ inr quiet
    ]
  ]

  run_step :
      (fuel q : ℕ) (qs : List ℕ) (s : Plugs D)
      → s.local_list ≡ q ∷ qs
      → run_local k (suc fuel) s ≡ run_local k fuel (generic_unplug_device k s q)
  unfolding run_local
  run_step fuel q qs s e = ground (arith, e)

  run_local-Rounds :
      (qs : List ℕ) (fuel : ℕ) (s : Plugs D)
      → s.local_list ≡ qs
      → s.plug_list ≡ []
      → Distinct qs
      → length qs < fuel
      → (t : Plugs D) × (run_local k fuel s ≡ some t) × Rounds qs s t
  unfolding run_local
  run_local-Rounds qs zero s e p d l = absurd (omega (arith, l))
  run_local-Rounds [] (suc fuel) s e p d l = (
    s,
    rw e refl,
    record {
      no_local = e;
      no_plugs = p;
      same_stopped = refl;
      quiet = λ q. inl refl;
      others = λ r. ground arith;
    },
  )
  run_local-Rounds (q ∷ qs) (suc fuel) s e p (once, d) l =
      let next = generic_unplug_device k s q in
      let round = unplug-Round q qs s e p once in
      let (t, run, rounds) =
        run_local-Rounds qs fuel next round.rest round.no_plugs d (omega (arith, l)) in
      (
        t,
        run_step fuel q qs s e ∙ run,
        record {
          no_local = rounds.no_local;
          no_plugs = rounds.no_plugs;
          same_stopped = rounds.same_stopped ∙ round.same_stopped;
          quiet = λ r. spread q qs next t rounds round.quiet r;
          others = λ r. ground (arith, round.others r, rounds.others r);
        },
      )

  run_plugged :
      (qs : List ℕ) (fuel : ℕ) (s : Plugs D)
      → s.plug_list ≡ qs
      → s.local_list ≡ []
      → Distinct qs
      → length qs < fuel
      → (t : Plugs D) × (blk_run_queues k fuel s ≡ some t)
        × (t.plug_list ≡ [])
        × (t.local_list ≡ [])
        × ((q : ℕ) → (count q qs ≡ 0) ⊎ Quiet t q)
  unfolding blk_run_queues
  run_plugged [] fuel s p e d l = (s, ground (arith, p), p, e, λ q. inl refl)
  run_plugged (q ∷ qs) fuel s p e d l =
      let moved = record s { plug_list = []; local_list = s.plug_list } in
      let (t, run, rounds) = run_local-Rounds (q ∷ qs) fuel moved p refl d l in
      (t, ground (arith, p, run), rounds.no_plugs, rounds.no_local, rounds.quiet)

  -- blk_run_queues, for drivers that consume all requests of their queues, with each queue plugged once
  -- and more rounds than plugged queues: it returns, no queue is plugged any more, and each queue that
  -- was has no requests left or is stopped.
  pub run_queues-Quiet :
      (fuel : ℕ) (s : Plugs D)
      → s.local_list ≡ []
      → Distinct s.plug_list
      → length s.plug_list < fuel
      → (t : Plugs D) × (blk_run_queues k fuel s ≡ some t)
        × (t.plug_list ≡ [])
        × (t.local_list ≡ [])
        × ((q : ℕ) → (count q s.plug_list ≡ 0) ⊎ Quiet t q)
  run_queues-Quiet fuel s e d l = run_plugged s.plug_list fuel s refl e d l
