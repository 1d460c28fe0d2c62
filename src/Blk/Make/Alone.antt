-- ===== src/Blk/Make/Alone.antt =====
-- Bios with QoS parameters, and barriers, in `__make_request` of
-- ucsb-io/ucsb-io-2.5.67/drivers/block/ll_rw_blk.c: they do not merge.
use ucsb_disk_profiling.Prelude.{
  ℕ, ◌≡◌, ◌⊎◌, inl, inr, refl, ap, ◌∙◌, Option, none, some, true, false, arith, Option-cases,
}
use ucsb_disk_profiling.Prelude.Tests.{Bool-cases}
use ucsb_disk_profiling.Block.{update, Qos}
use ucsb_disk_profiling.Deadline.Insert.{is_best_effort}
use ucsb_disk_profiling.Deadline.Ucsb.{ucsb_io_type}
use ucsb_disk_profiling.Segments.{StructBio, recount_if_stale}
use ucsb_disk_profiling.Blk.Free.{get_request}
use ucsb_disk_profiling.Blk.Plug.{blk_plug_device}
use ucsb_disk_profiling.Blk.Make.{
  nowhere, Env, State, dir_of_bio, barrier_of, fresh, PassEnd, out, none_free, sched_bio, set_inner,
}
use ucsb_disk_profiling.Blk.Make.Pass.{new_request, add_filled, fill_request, get_rq, pass}

module _ {E : Type 0} (k : Env E) (orig : StructBio) (cur : ℕ) (bio counted : StructBio) (dev : ℕ)
    (at_dev : bio.bi_bdev ≡ some dev)
    (count : recount_if_stale k.phys k.queue bio ≡ some counted) where
  -- A request of its own for the bio alone, which the elevator is told to add at no place in particular,
  -- with every other request as it was; or no free request, with nothing changed.
  pub data IsAlone (s : State E) (p : PassEnd E) : Type 0 where
    own :
        (r : ℕ) (t : State E)
        → p ≡ out t (fresh r nowhere) none
        → t.driver.requests ≡ update s.driver.requests r (new_request k orig cur counted dev)
        → t.driver.elv ≡ k.elevator.elv_add_request_pos s.driver.elv t.driver.commands r nowhere
        → IsAlone s p
    no_request :
        (t : State E)
        → p ≡ none_free t bio
        → t.driver.requests ≡ s.driver.requests
        → t.driver.elv ≡ s.driver.elv
        → IsAlone s p

  fill-IsAlone :
      (s : State E) (r : ℕ)
      → (p : PassEnd E) × (fill_request k s orig cur bio nowhere r ≡ some p) × IsAlone s p
  unfolding fill_request add_filled
  fill-IsAlone s r =
      let t = add_filled k s bio (new_request k orig cur counted dev) nowhere r in
      (out t (fresh r nowhere) none, ground (arith, count, at_dev), own r t refl refl refl)

  -- The state behind another that has the same requests and elevator.
  same-IsAlone :
      (s u : State E) (p : PassEnd E)
      → u.driver.requests ≡ s.driver.requests
      → u.driver.elv ≡ s.driver.elv
      → IsAlone u p
      → IsAlone s p
  same-IsAlone s u p e f (own r t g h l) =
      own r t g (h ∙ ap (λ m. update m r (new_request k orig cur counted dev)) e)
        (l ∙ ap (λ x. k.elevator.elv_add_request_pos x t.driver.commands r nowhere) f)
  same-IsAlone s u p e f (no_request t g h l) = no_request t g (h ∙ e) (l ∙ f)

  get_rq-IsAlone :
      (s : State E) (freereq : Option ℕ)
      → (p : PassEnd E) × (get_rq k s orig cur bio nowhere freereq ≡ some p) × IsAlone s p
  unfolding get_rq
  get_rq-IsAlone s (some r) = fill-IsAlone s r
  get_rq-IsAlone s none =
      let got = get_request k.sizes s.driver.lists (dir_of_bio orig) in
      let u = set_inner s (record s.driver { lists = got.1 }) in
      elim (Option-cases got.0) [
        | inl e ↦ (none_free u bio, ground (arith, e), no_request u refl refl refl)
        | inr (r, e) ↦
            let (p, run, alone) = fill-IsAlone u r in
            (p, ground (arith, e, run), same-IsAlone s u p refl refl alone)
      ]

  plug_driver : (s : State E) → (blk_plug_device k.strategy k.jiffies s k.self).driver ≡ s.driver
  unfolding blk_plug_device
  plug_driver s = ground arith

  -- Such a bio goes straight to `get_rq`.
  pass-get_rq :
      (s : State E) (freereq : Option ℕ) (type : Qos)
      → ucsb_io_type k.qos (sched_bio bio (k.disk_of dev)) ≡ some type
      → (barrier_of bio ≡ true) ⊎ (is_best_effort type ≡ false)
      → (u : State E) × (u.driver ≡ s.driver)
        × (pass k s orig cur bio freereq ≡ get_rq k u orig cur bio nowhere freereq)
  unfolding pass
  pass-get_rq s freereq type e special =
      elim (Bool-cases (k.elevator.elv_queue_empty s.driver.elv)) [
        | inl idle ↦
            (blk_plug_device k.strategy k.jiffies s k.self, plug_driver s, ground (arith, idle))
        | inr busy ↦ elim (Bool-cases (barrier_of bio)) [
          | inl barrier ↦ (s, refl, ground (arith, busy, barrier))
          | inr plain ↦ elim special [
            | inl barrier ↦ cc
            | inr real_time ↦ (s, refl, ground (arith, busy, plain, at_dev, e, real_time))
          ]
        ]
      ]

  -- `__make_request`, from `again` to `out`, for a bio of a file with QoS parameters, or a barrier: it
  -- returns, and the bio is alone in its request, or waits for one; it is never merged, and it is never
  -- shown to elv_merge.
  pub pass-IsAlone :
      (s : State E) (freereq : Option ℕ) (type : Qos)
      → ucsb_io_type k.qos (sched_bio bio (k.disk_of dev)) ≡ some type
      → (barrier_of bio ≡ true) ⊎ (is_best_effort type ≡ false)
      → (p : PassEnd E) × (pass k s orig cur bio freereq ≡ some p) × IsAlone s p
  pass-IsAlone s freereq type e special =
      let (u, same, there) = pass-get_rq s freereq type e special in
      let (p, run, alone) = get_rq-IsAlone u freereq in
      (p, there ∙ run, same-IsAlone s u p (ap (λ i. i.requests) same) (ap (λ i. i.elv) same) alone)

  -- With a request at hand, the pass ends, and the bio is alone in that request.
  pub pass_given :
      (s : State E) (r : ℕ) (type : Qos)
      → ucsb_io_type k.qos (sched_bio bio (k.disk_of dev)) ≡ some type
      → (barrier_of bio ≡ true) ⊎ (is_best_effort type ≡ false)
      → (t : State E) × (pass k s orig cur bio (some r) ≡ some (out t (fresh r nowhere) none))
        × (t.driver.requests ≡ update s.driver.requests r (new_request k orig cur counted dev))
        × (t.driver.elv ≡ k.elevator.elv_add_request_pos s.driver.elv t.driver.commands r nowhere)
  unfolding get_rq fill_request add_filled
  pass_given s r type e special =
      let (u, same, there) = pass-get_rq s (some r) type e special in
      let t = add_filled k u bio (new_request k orig cur counted dev) nowhere r in
      (
        t,
        there ∙ ground (arith, count, at_dev),
        ap (λ i. update i.requests r (new_request k orig cur counted dev)) same,
        ap (λ i. k.elevator.elv_add_request_pos i.elv t.driver.commands r nowhere) same,
      )
