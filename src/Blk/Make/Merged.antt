-- ===== src/Blk/Make/Merged.antt =====
-- Two requests of a queue become one in `__make_request` of
-- ucsb-io/ucsb-io-2.5.67/drivers/block/ll_rw_blk.c, and cover exactly their bios as before.
use ucsb_disk_profiling.Prelude.{
  ℕ, ◌+◌, ◌%◌, ◌≡◌, ◌⊎◌, inl, inr, refl, ap, ◌∙◌, Option, none, some, Bool, true, false, ◌++◌, ◌==◌,
  arith, Option-cases, ==_refl, ◌-◌,
}
use ucsb_disk_profiling.Prelude.Tests.{Bool-cases}
use ucsb_disk_profiling.Block.{Dir, update, uint_mod}
use ucsb_disk_profiling.Blk.Queue.{RequestQueue, QueueSizes}
use ucsb_disk_profiling.Blk.Merge.{StructRequest, attempt_merge}
use ucsb_disk_profiling.Blk.Merge.Within.{IsJoined, attempt_merge-IsJoined}
use ucsb_disk_profiling.Blk.Free.{FreeLists, Slot, set_slot, blk_put_request, release, give_back}
use ucsb_disk_profiling.Blk.Stats.{account_join}
use ucsb_disk_profiling.Blk.Make.{Inner, Env, set_queued}
use ucsb_disk_profiling.Blk.Make.Well.{
  Consecutive-append, Consecutive-cong, total_sectors, total_sectors-append, AllVectors-append,
  AllVectors-cong, IsWell, touching,
}
use ucsb_disk_profiling.Blk.Make.Pass.{join_requests, attempt_back_merge, attempt_front_merge}

-- A request that is on no list can be put.
release_total :
    (sizes : QueueSizes) (lists : FreeLists) (r : ℕ) (dropped : Slot) (rl : Option Dir)
    (queued : Bool)
    → queued ≡ false
    → (after : FreeLists) × (release sizes lists r dropped rl queued ≡ some after)
unfolding release
release_total sizes lists r dropped none queued e =
    (set_slot lists r (record dropped { active = false; has_q = false }), refl)
release_total sizes lists r dropped (some rw) true e = cc
release_total sizes lists r dropped (some rw) false e = (
  give_back sizes
      (set_slot lists r
        (record dropped { active = false; has_q = false; rl = none; queued = true }))
      rw r,
  refl,
)

put_total :
    (sizes : QueueSizes) (lists : FreeLists) (r : ℕ)
    → (lists.slots r).queued ≡ false
    → (after : FreeLists) × (blk_put_request sizes lists true r ≡ some after)
unfolding blk_put_request
put_total sizes lists r e =
    let s = lists.slots r in
    let dropped = record s { ref_count = (s.ref_count + uint_mod - 1) % uint_mod } in
    let (after, runs) = release_total sizes lists r dropped s.rl s.queued e in
    elim (Bool-cases (s.ref_count == 1)) [
      | inl one ↦ (after, ground (arith, one, runs))
      | inr more ↦ (set_slot lists r dropped, ground (arith, more))
    ]

module _ (q : RequestQueue) where
  joined-IsWell :
      (req next r : StructRequest)
      → IsWell q req
      → IsWell q next
      → IsJoined q req next r
      → IsWell q r
  joined-IsWell req next r a b j =
      let adjacent : req.sector + total_sectors req.bios ≡ next.sector =
        omega (arith, j.adjacent, a.sectors, a.no_wrap) in
      let total : total_sectors r.bios ≡ total_sectors req.bios + total_sectors next.bios =
        ap total_sectors j.bios ∙ total_sectors-append req.bios next.bios in
      let sum : r.nr_sectors ≡ total_sectors req.bios + total_sectors next.bios =
        omega (arith, j.nr_sectors, a.hard, a.sectors, b.hard, b.sectors, adjacent, b.no_wrap) in
      record {
        head = a.head;
        rest = a.rest ++ next.bios;
        chain = j.bios ∙ ap (λ l. l ++ next.bios) a.chain;
        consecutive =
            Consecutive-cong r.sector req.sector r.bios (req.bios ++ next.bios) j.sector j.bios (
              Consecutive-append req.sector req.bios next.bios a.consecutive (
                Consecutive-cong (req.sector + total_sectors req.bios) next.sector next.bios
                  next.bios adjacent refl b.consecutive));
        sectors = omega (arith, sum, total);
        hard = j.hard_nr_sectors;
        no_wrap = omega (arith, j.sector, total, adjacent, b.no_wrap);
        vectors =
            AllVectors-cong r.bios (req.bios ++ next.bios) j.bios
              (AllVectors-append req.bios next.bios a.vectors b.vectors);
        sectors_in = omega (arith, j.sectors_in, sum, a.sectors, b.sectors, adjacent, b.no_wrap);
        limits = j.within;
      }

module _ {E : Type 0} (k : Env E) where
  -- A request that can be merged is well-formed.
  abbrev pub WellOrClosed : StructRequest → Type 0
  WellOrClosed req = (k.rq_mergeable req ≡ false) ⊎ IsWell k.queue req

  abbrev pub AllWell : (ℕ → StructRequest) → Type 0
  AllWell requests = (r : ℕ) → WellOrClosed (requests r)

  pub update-AllWell :
      (requests : ℕ → StructRequest) (r : ℕ) (req : StructRequest)
      → AllWell requests
      → WellOrClosed req
      → AllWell (update requests r req)
  update-AllWell requests r req a w p = elim (Bool-cases (p == r)) [
    | inl same ↦ rw same w
    | inr other ↦ rw other (a p)
  ]

  attempt_total :
      (req next : StructRequest)
      → WellOrClosed req
      → WellOrClosed next
      → (joined : Bool) × (r : StructRequest) × (attempt_merge k.phys k.queue k.rq_mergeable req
            next
          ≡ some (joined, r))
        × WellOrClosed r
  unfolding attempt_merge
  attempt_total req next (inl closed) b = (false, req, ground (arith, closed), inl closed)
  attempt_total req next (inr a) (inl closed) = (false, req, ground (arith, closed), inr a)
  attempt_total req next (inr a) (inr b) =
      let t = touching k.phys k.queue req next a b in
      elim (attempt_merge-IsJoined k.phys k.queue req next t k.rq_mergeable a.limits b.limits) [
        | inl refused ↦ (false, req, refused, inr a)
        | inr (r, runs, joined) ↦ (true, r, runs, inr (joined-IsWell k.queue req next r a b joined))
      ]

  -- Two requests are tried, and become one or do not.
  join-AllWell :
      (i : Inner E) (r next : ℕ)
      → AllWell i.requests
      → (joined : Bool) × (after : Inner E) × (join_requests k i r next ≡ some (joined, after))
        × AllWell after.requests
  unfolding join_requests
  join-AllWell i r next a =
      let (joined, req, runs, well) =
        attempt_total (i.requests r) (i.requests next) (a r) (a next) in
      let requests = update-AllWell i.requests r req a well in
      let (lists, puts) =
        put_total k.sizes (set_queued i.lists next false) next (ground (arith, ==_refl next)) in
      elim (Bool-cases joined) [
        | inl yes_joined ↦ (
          true,
          record i {
            requests = update i.requests r req;
            elv = k.elevator.elv_merge_requests i.elv r next;
            disks = account_join k.jiffies i.disks req;
            lists = lists;
          },
          ground (arith, runs, yes_joined, puts),
          requests,
        )
        | inr apart ↦ (
          false,
          record i { requests = update i.requests r req },
          ground (arith, runs, apart),
          requests,
        )
      ]

  pub back-AllWell :
      (i : Inner E) (r : ℕ)
      → AllWell i.requests
      → (joined : Bool) × (after : Inner E) × (attempt_back_merge k i r ≡ some (joined, after))
        × AllWell after.requests
  unfolding attempt_back_merge
  back-AllWell i r a = elim (Option-cases (k.elevator.elv_latter_request i.elv r)) [
    | inl e ↦ (false, i, ground (arith, e), a)
    | inr (next, e) ↦
        let (joined, after, runs, w) = join-AllWell i r next a in
        (joined, after, ground (arith, e, runs), w)
  ]

  pub front-AllWell :
      (i : Inner E) (r : ℕ)
      → AllWell i.requests
      → (joined : Bool) × (after : Inner E) × (attempt_front_merge k i r ≡ some (joined, after))
        × AllWell after.requests
  unfolding attempt_front_merge
  front-AllWell i r a = elim (Option-cases (k.elevator.elv_former_request i.elv r)) [
    | inl e ↦ (false, i, ground (arith, e), a)
    | inr (prev, e) ↦
        let (joined, after, runs, w) = join-AllWell i prev r a in
        (joined, after, ground (arith, e, runs), w)
  ]
