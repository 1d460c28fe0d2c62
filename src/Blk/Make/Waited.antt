-- ===== src/Blk/Make/Waited.antt =====
-- A bio that does not merge gets its request in the end: `__make_request` of
-- ucsb-io/ucsb-io-2.5.67/drivers/block/ll_rw_blk.c as a whole.
use ucsb_disk_profiling.Prelude.{
  ℕ, zero, suc, ◌+◌, ◌/◌, ◌^◌, ◌≤◌, ◌<◌, ◌≡◌, ◌⊎◌, inl, inr, refl, none, some, true, false, List,
  ◌∷◌, ◌==◌, arith, Option-cases,
}
use ucsb_disk_profiling.Prelude.Tests.{Bool-cases}
use ucsb_disk_profiling.Block.{Dir, at, update, Qos}
use ucsb_disk_profiling.Blk.Free.{FreeLists, get_request, take_request}
use ucsb_disk_profiling.Blk.Plug.{generic_unplug_device}
use ucsb_disk_profiling.Deadline.Insert.{is_best_effort}
use ucsb_disk_profiling.Deadline.Ucsb.{ucsb_io_type}
use ucsb_disk_profiling.Segments.{BioVec, StructBio, recount_if_stale}
use ucsb_disk_profiling.Blk.Complete.{vec_at}
use ucsb_disk_profiling.Blk.Make.{
  nowhere, set_inner, Env, State, dir_of_bio, barrier_of, fresh, PassEnd, sched_bio,
}
use ucsb_disk_profiling.Blk.Make.Pass.{new_request}
use ucsb_disk_profiling.Blk.Make.Wait.{
  wait_loop, unplug_full, after_out, get_request_wait, last_pass, behind_pass, make_request,
}
use ucsb_disk_profiling.Blk.Make.Alone.{IsAlone, own, no_request, pass-IsAlone, pass_given}

module _ {E : Type 0} (k : Env E) where
  -- While a task sleeps for the `n`-th time, a request of the direction becomes free.
  abbrev pub FreesAt : ℕ → Dir → Type 0
  FreesAt n dir =
      (s : State E) → (r : ℕ) × (rs : List ℕ) × (at (k.asleep n s).driver.lists.free dir ≡ r ∷ rs)

  get_total :
      (lists : FreeLists) (dir : Dir) (r : ℕ) (rs : List ℕ)
      → at lists.free dir ≡ r ∷ rs
      → (get_request k.sizes lists dir).0 ≡ some r
  unfolding get_request take_request
  get_total lists dir r rs e = rw e refl

  -- The loop, from round `i` on, ends in round `n` at the latest.
  wait_loop_total :
      (n : ℕ) (dir : Dir)
      → FreesAt n dir
      → (fuel i : ℕ) (s : State E) → i ≤ n
      → n < i + fuel
      → (r : ℕ) × (woken : State E) × (wait_loop k fuel i s dir ≡ some (r, woken))
  unfolding wait_loop
  wait_loop_total n dir frees zero i s h l = absurd (omega (arith, h, l))
  wait_loop_total n dir frees (suc fuel) i s h l =
      let slept = k.asleep i s in
      let got = get_request k.sizes slept.driver.lists dir in
      let next = set_inner slept (record slept.driver { lists = got.1 }) in
      elim (Option-cases got.0) [
        | inr (r, e) ↦ (r, next, ground (arith, e))
        | inl e ↦ elim (Bool-cases (i == n)) [
          | inl last ↦
              let same : i ≡ n = ground (arith, last) in
              let frees_now : FreesAt i dir = rw same frees in
              let (r, rs, free) = frees_now s in
              let found = get_total slept.driver.lists dir r rs free in absurd (cc)
          | inr before ↦
              let (r, woken, run) =
                wait_loop_total n dir frees fuel (i + 1) next (ground (arith, h, before))
                  (omega (arith, l)) in
              (r, woken, ground (arith, e, run))
        ]
      ]

  wait_total :
      (n fuel : ℕ) (dir : Dir)
      → FreesAt n dir
      → n < fuel
      → (u : State E)
      → (r : ℕ) × (woken : State E) × (get_request_wait k fuel u dir ≡ some (r, woken))
  unfolding get_request_wait
  wait_total n fuel dir frees l u =
      wait_loop_total n dir frees fuel 0 (generic_unplug_device k.strategy u k.self) (omega arith)
        (omega (arith, l))

  -- The bio is alone in the request `r`, which the elevator was told to add: `found` is the state in which
  -- the request was there to be had, at once or behind a wait, and `filled` the state with the request in
  -- use, before a full queue is unplugged.
  pub record GetsRequest (fuel : ℕ) (s : State E) (orig counted : StructBio) (cur dev : ℕ) (r : ℕ)
      (t : State E) : Type 0 where
    pub found : State E
    pub filled : State E
    pub there :
        (found ≡ s)
        ⊎ ((u : State E) × (get_request_wait k fuel u (dir_of_bio orig) ≡ some (r, found)))
    pub requests :
        filled.driver.requests ≡ update found.driver.requests r (new_request k orig cur counted dev)
    pub added :
        filled.driver.elv
        ≡ k.elevator.elv_add_request_pos found.driver.elv filled.driver.commands r nowhere
    pub unplugged : t ≡ unplug_full k filled

  -- The bio's pass, by where it ends.
  behind-IsAlone :
      (fuel : ℕ) (s : State E) (orig bio counted : StructBio) (cur dev : ℕ) (p : PassEnd E)
      (type : Qos) (d : bio.bi_bdev ≡ some dev)
      (c : recount_if_stale k.phys k.queue bio ≡ some counted)
      → ucsb_io_type k.qos (sched_bio bio (k.disk_of dev)) ≡ some type
      → (barrier_of bio ≡ true) ⊎ (is_best_effort type ≡ false)
      → bio.rw_block ≡ false
      → ((u : State E)
          → (r : ℕ) × (woken : State E) × (get_request_wait k fuel u (dir_of_bio orig)
              ≡ some (r, woken)))
      → IsAlone k orig cur bio counted dev d c s p
      → (r : ℕ) × (t : State E) × (behind_pass k fuel orig cur p ≡ some (some (fresh r nowhere), t))
        × GetsRequest fuel s orig counted cur dev r t
  unfolding behind_pass after_out last_pass
  behind-IsAlone fuel s orig bio counted cur dev p type d c e special unblocked ends
        (own r t g h l) =
      (
        r,
        unplug_full k t,
        rw g refl,
        record {
          found = s;
          filled = t;
          there = inl refl;
          requests = h;
          added = l;
          unplugged = refl;
        },
      )
  behind-IsAlone fuel s orig bio counted cur dev p type d c e special unblocked ends
        (no_request t g h l) =
      let (r, woken, w) = ends t in
      let (u, run, requests, added) =
        pass_given k orig cur bio counted dev d c woken r type e special in
      (
        r,
        unplug_full k u,
        rw g (ground (arith, unblocked, w, run)),
        record {
          found = woken;
          filled = u;
          there = inr (t, w);
          requests = requests;
          added = added;
          unplugged = refl;
        },
      )

  -- `__make_request` for a bio with QoS parameters, or a barrier, where in some round of the wait, less than
  -- `fuel`, a request of its direction is free after the sleep: it returns, and the bio is alone in a
  -- request of its own, with its sectors and counts, which the elevator adds, at once or behind a wait,
  -- unless BIO_RW_BLOCK is set in `bi_flags`. The bits of `bi_rw`, BIO_RW_AHEAD among them, do not matter.
  pub make_request-alone :
      (n fuel : ℕ) (s : State E) (orig counted : StructBio) (bv : BioVec) (dev : ℕ) (type : Qos)
      → vec_at orig orig.bi_idx ≡ some bv
      → (k.bounce orig).bi_bdev ≡ some dev
      → recount_if_stale k.phys k.queue (k.bounce orig) ≡ some counted
      → ucsb_io_type k.qos (sched_bio (k.bounce orig) (k.disk_of dev)) ≡ some type
      → (barrier_of (k.bounce orig) ≡ true) ⊎ (is_best_effort type ≡ false)
      → (k.bounce orig).rw_block ≡ false
      → FreesAt n (dir_of_bio orig)
      → n < fuel
      → (r : ℕ) × (t : State E) × (make_request k fuel s orig ≡ some (some (fresh r nowhere), t))
        × GetsRequest fuel s orig counted (bv.bv_len / 2 ^ 9) dev r t
  unfolding make_request
  make_request-alone n fuel s orig counted bv dev type v d c e special unblocked frees l =
      let cur = bv.bv_len / 2 ^ 9 in
      let bio = k.bounce orig in
      let (p, run, alone) = pass-IsAlone k orig cur bio counted dev d c s none type e special in
      let (r, t, there, gets) =
        behind-IsAlone fuel s orig bio counted cur dev p type d c e special unblocked
          (wait_total n fuel (dir_of_bio orig) frees l) alone in
      (r, t, ground (arith, v, run, there), gets)
